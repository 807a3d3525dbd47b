-- ===== src/Blocks/Cache/Setup/Tests.antt =====
-- kernel/io/block_cache.cpp with a heap of 256 bytes, which has room for one entry and a block of 128 bytes.
use shirleys_os.Blocks.Cache.{BlockCache}
use shirleys_os.Blocks.Cache.Setup.{initialize}
use shirleys_os.Blocks.Cache.Setup.Leaks.{Lifecycle, initialize-shutdown}
use shirleys_os.Blocks.RamDisk.{RamDisk, block_device}
use shirleys_os.Blocks.RamDisk
use shirleys_os.Heap.{Heap, allocate, free}
use shirleys_os.Heap
use shirleys_os.Heap.Check.{available}
use shirleys_os.Heap.Chain.{vacant}
use shirleys_os.Heap.Clients.{Holding}
use shirleys_os.Prelude.{ℕ, ◌≡◌, refl, true, false, [], ◌∷◌, some, arith, inl}

abbrev small_disk : RamDisk
small_disk = record { storage = some (λ a. a); bytes = 512; block_bytes = 128 }

abbrev no_heap : Heap
no_heap = record {
  heap_begin = 0;
  heap_end = 0;
  free_bytes = 0;
  sizes = λ a. 0;
  tags = λ a. 0;
  links = λ a. 0;
}

abbrev small_heap : Heap
small_heap = Heap.initialize no_heap 0x1000 256

abbrev no_cache : BlockCache
no_cache = record {
  entries_address = 0;
  storage_address = 0;
  entries = λ i. record {
    block = 0;
    last_used = 0;
    content = λ k. 0;
    pins = 0;
    valid = false;
    dirty = false;
  };
  capacity = 0;
  block_bytes = 0;
  device_blocks = 0;
  clock = 0;
  hits = 0;
  misses = 0;
}

one_block : (initialize block_device no_cache small_disk small_heap 1 0).0 ≡ true
unfolding initialize Heap.initialize allocate RamDisk.block_size
one_block = refl

-- There is room for the entries, and none for two blocks.
two_blocks : (initialize block_device no_cache small_disk small_heap 2 0).0 ≡ false
unfolding initialize Heap.initialize allocate RamDisk.block_size
two_blocks = refl

two_blocks_given_back :
    available (initialize block_device no_cache small_disk small_heap 2 0).2 ≡ 256
unfolding initialize Heap.initialize allocate free RamDisk.block_size available
two_blocks_given_back = refl

-- No block is live.
abbrev Nobody : ℕ → ℕ → Type 0
Nobody x n = ¬ Unit {0}

small_heap-Holding : Holding small_heap Nobody
unfolding Heap.initialize
small_heap-Holding = (
  vacant 256 ∷ [],
  record {
    chain = (refl, refl, refl, (refl, refl));
    tidy = ((omega arith, omega arith), refl, tt);
    even = refl;
    even_end = refl;
    bytes = refl;
    high = omega arith;
    based = inl (omega arith);
  },
  λ x n. (λ l. l, λ l. l),
)

initialize-shutdown_example :
    Lifecycle block_device no_cache Nobody
      (initialize block_device no_cache small_disk small_heap 1 0)
initialize-shutdown_example =
    initialize-shutdown block_device no_cache small_disk small_heap Nobody 1 0 small_heap-Holding
