-- ===== src/Blocks/Cache/Setup.antt =====
-- kernel/io/block_cache.cpp: initialize takes two blocks from the heap, shutdown gives them back.
pub mod Leaks
mod Tests
use shirleys_os.Heap.{Heap, allocate, free}
use shirleys_os.Io.{Result, BlockDevice, succeeded}
use shirleys_os.Blocks.Cache.{BlockCache, CacheEntry, ready, fine}
use shirleys_os.Blocks.Cache.Transfer.{sync}
use shirleys_os.Prelude.{
  ℕ, ◌+◌, ◌-◌, ◌*◌, ◌/◌, ◌%◌, Bool, true, false, not, ◌||◌, ◌==◌, ltb, if◌then◌else◌, u64_mod,
}
use Prim.Native.Nat.{bit_and}

-- `sizeof(Entry)`
abbrev pub entry_bytes : ℕ
entry_bytes = 32

unfoldable pub buffer_alignment : ℕ → ℕ
buffer_alignment block_bytes =
    if not (bit_and block_bytes (block_bytes - 1) == 0)
    then 16
    else if ltb block_bytes 4096
    then block_bytes
    else 4096

-- The size of a block of the cache, 0 where the arguments are refused.
unfoldable pub block_bytes_for : ℕ → ℕ → ℕ → ℕ
block_bytes_for capacity block_bytes device_bytes =
    let bytes = if block_bytes == 0 then device_bytes else block_bytes in
    if device_bytes == 0
    then 0
    else if not (bytes % device_bytes == 0)
    then 0
    else if ltb ((u64_mod - 1) / bytes) capacity || ltb ((u64_mod - 1) / entry_bytes) capacity
    then 0
    else bytes

-- An entry that holds no block; its buffer has what the memory held.
abbrev pub empty_entry : CacheEntry → CacheEntry
empty_entry e = record {
  block = 0;
  last_used = 0;
  content = e.content;
  pins = 0;
  valid = false;
  dirty = false;
}

abbrev pub set_up : BlockCache → ℕ → ℕ → ℕ → ℕ → ℕ → BlockCache
set_up c entries storage capacity block_bytes device_blocks = record {
  entries_address = entries;
  storage_address = storage;
  entries = λ i. empty_entry (c.entries i);
  capacity = capacity;
  block_bytes = block_bytes;
  device_blocks = device_blocks;
  clock = 0;
  hits = 0;
  misses = 0;
}

module _ {W : Type 0} (dev : BlockDevice W) where
  unfoldable pub initialize : BlockCache → W → Heap → ℕ → ℕ → Bool × BlockCache × Heap
  unfolding ready block_bytes_for buffer_alignment allocate free
  initialize c w h capacity block_bytes =
      let device_bytes = dev.block_size w in
      let bytes = block_bytes_for capacity block_bytes device_bytes in
      let (entries, h1) = allocate h (capacity * entry_bytes) 16 in
      let (storage, h2) = allocate h1 (capacity * bytes) (buffer_alignment bytes) in
      if ready c || capacity == 0
      then (false, c, h)
      else if bytes == 0
      then (false, c, h)
      else if entries == 0 || storage == 0
      then (false, c, free (free h2 entries) storage)
      else (true, set_up c entries storage capacity bytes (bytes / device_bytes), h2)

  unfoldable pub shutdown : BlockCache → W → Heap → Result × BlockCache × W × Heap
  unfolding ready sync free
  shutdown c w h =
      let (r, c', w') = sync dev c w in
      if not (ready c) then (fine 0, c, w, h) else if not (succeeded r) then (r, c', w', h) else (
        r,
        record c' {
          entries_address = 0;
          storage_address = 0;
          capacity = 0;
          block_bytes = 0;
          device_blocks = 0;
        },
        w',
        free (free h c'.entries_address) c'.storage_address,
      )
