-- ===== src/Pages/Allocator.antt =====
-- kernel/memory/page_allocator.cpp: the allocator's state and its operations.
pub mod Paged
pub mod Allocate
pub mod Free
pub mod Bridge
pub mod Boot
use shirleys_os.Prelude.{
  ℕ, zero, suc, ◌+◌, ◌-◌, ◌/◌, ◌%◌, Bool, true, false, ◌||◌, ◌&&◌, not, Option, none, some,
  if◌then◌else◌, ltb, leb, ◌==◌, update, u64_mod, sub64,
}
use mathlib.Core.Option
use shirleys_os.Pages.Extents.{
  Extent, Extents, Region, MemoryType, align_usable, align_reserved, insert_extent, subtract_extent,
  close_gap, page_size,
}

-- The file's static variables.
pub record Allocator : Type 0 where
  pub managed : Extents
  pub free : Extents
  pub total : ℕ
  pub available : ℕ

-- `none` for a null pointer; else the regions by index.
pub record BootInfo : Type 0 where
  pub version : ℕ
  pub memory_regions : Option (ℕ → Region)
  pub memory_region_count : ℕ

abbrev pub current_version : ℕ
current_version = 1

unfoldable pub is_usable : MemoryType → Bool
is_usable MemoryType.usable = true
is_usable MemoryType.reserved = false
is_usable MemoryType.firmware = false
is_usable MemoryType.mmio = false
is_usable MemoryType.reclaimable = false

-- The extent that the first loop of `initialize` adds for a region, if any.
unfoldable pub added_of : Region → Option Extent
added_of r = if is_usable r.type then align_usable r else none

unfoldable pub insert_region : Extents → Region → Extents
insert_region x r = elim (added_of r) [ none ↦ x | some e ↦ (insert_extent x e).0 ]

-- The first loop of `initialize`, with `left` rounds to go from index `i`.
unfoldable pub insert_regions : (ℕ → Region) → ℕ → ℕ → Extents → Extents
insert_regions regions zero i x = x
insert_regions regions (suc left) i x =
    insert_regions regions left (i + 1) (insert_region x (regions i))

-- The extent that the second loop takes away for a region, if any.
unfoldable pub removed_of_region : Region → Option Extent
removed_of_region r = if is_usable r.type then none else align_reserved r

unfoldable pub subtract_region : Extents → Region → Option Extents
subtract_region x r = elim (removed_of_region r) [ none ↦ some x | some e ↦ subtract_extent x e ]

unfoldable pub subtract_regions : (ℕ → Region) → ℕ → ℕ → Extents → Option Extents
subtract_regions regions zero i x = some x
subtract_regions regions (suc left) i x = elim (subtract_region x (regions i)) [
  | none ↦ none
  | some y ↦ subtract_regions regions left (i + 1) y
]

-- `for (i = 0; i < managed_count; ++i) free_extents[i] = managed[i];`
unfoldable pub copy_extents : (ℕ → Extent) → ℕ → ℕ → (ℕ → Extent) → ℕ → Extent
copy_extents source zero i target = target
copy_extents source (suc left) i target =
    copy_extents source left (i + 1) (update target i (source i))

unfoldable pub count_pages_from : (ℕ → Extent) → ℕ → ℕ → ℕ → ℕ
count_pages_from items zero i pages = pages
count_pages_from items (suc left) i pages =
    let extent_pages = sub64 (items i).end (items i).begin / page_size in
    let rest = count_pages_from items left (i + 1) (pages + extent_pages) in
    if ltb (u64_mod - 1 - pages) extent_pages then u64_mod - 1 else rest

unfoldable pub count_pages : Extents → ℕ
unfolding count_pages_from
count_pages x = count_pages_from x.items x.count 0 0

unfoldable pub contains_from : (ℕ → Extent) → ℕ → ℕ → ℕ → Bool
contains_from items zero i address = false
contains_from items (suc left) i address =
    let rest = contains_from items left (i + 1) address in
    if leb (items i).begin address && ltb address (items i).end
    then true
    else if ltb address (items i).begin
    then false
    else rest

unfoldable pub contains : Extents → ℕ → Bool
unfolding contains_from
contains x address = contains_from x.items x.count 0 address

-- The empty allocator that `initialize` starts from; the arrays keep what they held.
unfoldable pub cleared : Allocator → Allocator
cleared s = record {
  managed = record { items = s.managed.items; count = 0 };
  free = record { items = s.free.items; count = 0 };
  total = 0;
  available = 0;
}

-- What `initialize` does once the map of usable memory stands.
unfoldable pub start : Allocator → Extents → Allocator
start s managed = record {
  managed = managed;
  free = record {
    items = copy_extents managed.items managed.count 0 s.free.items;
    count = managed.count;
  };
  total = count_pages managed;
  available = count_pages managed;
}

-- `none` would be a loop that has not ended. A null pointer with no regions passes the source's test,
-- and its loops then leave the cleared state as it is.
unfoldable pub initialize : Allocator → BootInfo → Option Allocator
initialize s info =
    if not (info.version == current_version) then some (cleared s) else elim info.memory_regions [
      | none ↦ some (cleared s)
      | some regions ↦ Option.map (start s) (
          subtract_regions regions info.memory_region_count 0
            (insert_regions regions info.memory_region_count 0 (cleared s).managed))
    ]

-- The address, 0 for none left, and the new state.
unfoldable pub allocate_page : Allocator → ℕ × Allocator
allocate_page s =
    if s.free.count == 0
    then (0, s)
    else let result = (s.free.items 0).begin in
      let begin = (result + page_size) % u64_mod in
      let items = update s.free.items 0 (record { begin = begin; end = (s.free.items 0).end }) in
      let free : Extents =
        if begin == (s.free.items 0).end
        then record { items = close_gap items 1 (s.free.count - 1); count = s.free.count - 1 }
        else record { items = items; count = s.free.count } in
      (result, record s { free = free; available = sub64 s.available 1 })

unfoldable pub free_page : Allocator → ℕ → Allocator
free_page s address =
    if not (address % page_size == 0) || not (contains s.managed address) || contains s.free address
    then s
    else let (free, inserted) =
        insert_extent s.free (record { begin = address; end = (address + page_size) % u64_mod }) in
      record s {
        free = free;
        available = if inserted then (s.available + 1) % u64_mod else s.available;
      }

unfoldable pub managed_extent_begin : Allocator → ℕ → ℕ
managed_extent_begin s index =
    if ltb index s.managed.count then (s.managed.items index).begin else 0

unfoldable pub managed_extent_end : Allocator → ℕ → ℕ
managed_extent_end s index = if ltb index s.managed.count then (s.managed.items index).end else 0
