-- ===== src/Blocks/Cache.antt =====
-- include/shirley/block_cache.hpp and kernel/io/block_cache.cpp: the cache of blocks over a device `dev`
-- whose state is of type `W`. Every entry owns one buffer, so a pointer to a buffer is the index of its
-- entry, `none` a pointer to anything else.
pub mod Acquire
pub mod Transfer
pub mod Victim
pub mod Pinned
pub mod Setup
mod Tests
use shirleys_os.Io.{Error, Result, BlockDevice, failed, succeeded}
use shirleys_os.Blocks.RamDisk.{out_of_range, is_null}
use shirleys_os.Prelude.{
  ℕ, zero, suc, ◌+◌, ◌-◌, ◌*◌, ◌/◌, ◌%◌, ◌^◌, Bool, true, false, not, ◌||◌, ◌&&◌, ◌==◌, ltb, leb,
  if◌then◌else◌, List, [], ◌∷◌, ◌++◌, Option, none, some, u64_mod, u32_mod, slice, copy_bytes,
  update,
}

pub data Access : Type 0 where
  read overwrite : Access

pub record CacheEntry : Type 0 where
  pub block : ℕ
  pub last_used : ℕ
  pub content : ℕ → ℕ
  pub pins : ℕ
  pub valid : Bool
  pub dirty : Bool

pub record BlockCache : Type 0 where
  -- The addresses of the two allocations, 0 for null.
  pub entries_address : ℕ
  pub storage_address : ℕ
  pub entries : ℕ → CacheEntry
  pub capacity : ℕ
  pub block_bytes : ℕ
  pub device_blocks : ℕ
  pub clock : ℕ
  pub hits : ℕ
  pub misses : ℕ

unfoldable pub ready : BlockCache → Bool
ready c = not (c.entries_address == 0)

abbrev pub set_entry : BlockCache → ℕ → CacheEntry → BlockCache
set_entry c i e = record c { entries = update c.entries i e }

unfoldable pub find_from : (ℕ → CacheEntry) → ℕ → ℕ → ℕ → Option ℕ
find_from entries zero i block = none
find_from entries (suc left) i block =
    let rest = find_from entries left (i + 1) block in
    if (entries i).valid && (entries i).block == block then some i else rest

unfoldable pub find : BlockCache → ℕ → Option ℕ
unfolding find_from
find c block = find_from c.entries c.capacity 0 block

unfoldable pub find_buffer : BlockCache → Option ℕ → Option ℕ
find_buffer c none = none
find_buffer c (some i) = if ltb i c.capacity then some i else none

-- `oldest == nullptr || entry.last_used < oldest->last_used`
unfoldable pub older : (ℕ → CacheEntry) → ℕ → Option ℕ → Bool
older entries i none = true
older entries i (some j) = ltb (entries i).last_used (entries j).last_used

unfoldable pub victim_from : (ℕ → CacheEntry) → ℕ → ℕ → Option ℕ → Option ℕ
unfolding older
victim_from entries zero i oldest = oldest
victim_from entries (suc left) i oldest =
    let pinned = not ((entries i).pins == 0) in
    let next = if pinned then oldest else if older entries i oldest then some i else oldest in
    let rest = victim_from entries left (i + 1) next in
    if not pinned && not (entries i).valid then some i else rest

unfoldable pub victim : BlockCache → Option ℕ
unfolding victim_from
victim c = victim_from c.entries c.capacity 0 none

unfoldable pub dirty_from : (ℕ → CacheEntry) → ℕ → ℕ → ℕ
dirty_from entries zero i = 0
dirty_from entries (suc left) i =
    let rest = dirty_from entries left (i + 1) in
    if (entries i).valid && (entries i).dirty then rest + 1 else rest

unfoldable pub dirty_count : BlockCache → ℕ
unfolding dirty_from
dirty_count c = dirty_from c.entries c.capacity 0

-- The buffer after a read has put its bytes at index `i` and behind.
unfoldable pub fill : List ℕ → (ℕ → ℕ) → ℕ → ℕ → ℕ
fill [] content i = content
fill (x ∷ xs) content i = fill xs (update content i x) (i + 1)

unfoldable pub zero_bytes : (ℕ → ℕ) → ℕ → ℕ → ℕ
zero_bytes content count k = if ltb k count then 0 else content k

-- What `acquire` leaves: the buffer, and the reason if there is none.
pub record Acquired (W : Type 0) : Type 0 where
  pub buffer : Option ℕ
  pub error : Error
  pub cache : BlockCache
  pub device : W

-- `if (access == Access::Overwrite)`
unfoldable pub prepared : Access → ℕ → CacheEntry → CacheEntry
unfolding zero_bytes
prepared read count e = e
prepared overwrite count e = record e { content = zero_bytes e.content count; dirty = true }

-- The end of `acquire`, once the entry is found or loaded.
unfoldable pub pin : {W : Type 0} → Access → BlockCache → W → ℕ → Acquired W
unfolding prepared
pin access c w i =
    let e = prepared access c.block_bytes (c.entries i) in
    let now = (c.clock + 1) % u64_mod in
    record {
      buffer = some i;
      error = Error.none;
      cache = record c {
        entries = update c.entries i (record e { pins = (e.pins + 1) % u32_mod; last_used = now });
        clock = now;
      };
      device = w;
    }

abbrev pub refused : {W : Type 0} → Error → BlockCache → W → Acquired W
refused e c w = record { buffer = none; error = e; cache = c; device = w }

abbrev pub fine : ℕ → Result
fine n = record { transferred = n; error = Error.none }

unfoldable pub release : BlockCache → Option ℕ → Bool → BlockCache
unfolding find_buffer
release c buffer dirty = elim (find_buffer c buffer) [
  | none ↦ c
  | some i ↦
      let e = c.entries i in
      if e.pins == 0
      then c
      else set_entry c i (record e { pins = e.pins - 1; dirty = if dirty then true else e.dirty })
]
