-- ===== src/Blocks/Cache/Tests.antt =====
-- kernel/io/block_cache.cpp: a cache of two blocks over a disk of four.
use shirleys_os.Prelude.{◌≡◌, inl, true, some, arith, refl, if◌then◌else◌, ◌==◌}
use shirleys_os.Blocks.RamDisk.{RamDisk, block_device}
use shirleys_os.Blocks.Cache.{BlockCache, CacheEntry, victim, victim_from, older, read}
use shirleys_os.Blocks.Cache.Pinned.{acquire-IsKept, IsKept}
use shirleys_os.Blocks.Cache.Acquire.{acquire}

abbrev disk : RamDisk
disk = record { storage = some (λ a. a); bytes = 2048; block_bytes = 512 }

abbrev pinned_entry : CacheEntry
pinned_entry = record {
  block = 3;
  last_used = 1;
  content = λ k. 7;
  pins = 1;
  valid = true;
  dirty = true;
}

abbrev old_entry : CacheEntry
old_entry = record {
  block = 0;
  last_used = 2;
  content = λ k. 9;
  pins = 0;
  valid = true;
  dirty = true;
}

abbrev full : BlockCache
full = record {
  entries_address = 0x1000;
  storage_address = 0x2000;
  entries = λ i. if i == 0 then pinned_entry else old_entry;
  capacity = 2;
  block_bytes = 512;
  device_blocks = 1;
  clock = 2;
  hits = 0;
  misses = 0;
}

victim_of_full : victim full ≡ some 1
unfolding victim victim_from older
victim_of_full = refl

acquire-IsKept_example :
    IsKept (full.entries 0) ((acquire block_device read full disk 1).cache.entries 0)
acquire-IsKept_example =
    acquire-IsKept block_device read full disk 1 0 (omega arith) (omega arith) (inl refl)
