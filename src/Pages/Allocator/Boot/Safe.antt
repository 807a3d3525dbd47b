-- ===== src/Pages/Allocator/Boot/Safe.antt =====
-- kernel/memory/page_allocator.cpp: what `initialize` makes free, in terms of the firmware map.

use shirleys_os.Pages.Cover.{Covers}
use shirleys_os.Pages.Allocator.{
  initialize, current_version, BootInfo, is_usable, added_of, removed_of_region, Allocator,
}
use shirleys_os.Prelude.{
  refl, ◌≢◌, subst, u64_mod, true, false, inl, inr, arith, some, Bool-cases, ◌+◌, ◌≡◌, ◌<◌, ◌≤◌, ℕ,
}
use shirleys_os.Pages.Extents.{MemoryType, max_extents, align_usable, Region}
use shirleys_os.Pages.Allocator.Boot.Usable.{Adds}
use shirleys_os.Pages.Allocator.Boot.Reserved.{Removes}
use shirleys_os.Pages.Allocator.Boot.Map.{initialize-Booted, Booted}
use shirleys_os.Pages.Allocator.Boot.{InOrder, align_usable_bounds, align_reserved-onto}

abbrev pub InRegion : Region → ℕ → Type 0
InRegion r a = (r.physical_start ≤ a) × (a < r.physical_start + r.length)

Adds-usable : (r : Region) (a : ℕ) → Adds r a → (is_usable r.type ≡ true) × InRegion r a
unfolding added_of
Adds-usable r a (e, h, held) = elim (Bool-cases (is_usable r.type)) [
  | inl u ↦
      let h' : align_usable r ≡ some e = (rw u at h) in
      (u, (omega (arith, align_usable_bounds r h'), omega (arith, align_usable_bounds r h')))
  | inr u ↦ absurd (ground arith)
]

is_usable-true : (t : MemoryType) → is_usable t ≡ true → t ≡ MemoryType.usable
unfolding is_usable
is_usable-true MemoryType.usable e = refl
is_usable-true MemoryType.reserved e = cc
is_usable-true MemoryType.firmware e = cc
is_usable-true MemoryType.mmio e = cc
is_usable-true MemoryType.reclaimable e = cc

is_usable-false : (t : MemoryType) → t ≢ MemoryType.usable → is_usable t ≡ false
unfolding is_usable
is_usable-false MemoryType.usable ne = absurd (ne refl)
is_usable-false MemoryType.reserved ne = refl
is_usable-false MemoryType.firmware ne = refl
is_usable-false MemoryType.mmio ne = refl
is_usable-false MemoryType.reclaimable ne = refl

reserved-Removes :
    (r : Region) (a : ℕ)
    → is_usable r.type ≡ false
    → r.physical_start + r.length < u64_mod
    → InRegion r a
    → Removes r a
unfolding removed_of_region
reserved-Removes r a u fits inside =
    let (e, h, held, _) = align_reserved-onto r a inside.0 inside.1 fits in
    (e, (rw (u, removed_of_region) h), held)

-- After `initialize`, on fewer than 2048 regions of which the usable ones come in order of addresses
-- and do not overlap each other, a free address lies in a usable region, and in no region of another
-- type that ends below the top of the address space, also where such a region overlaps usable ones.
pub initialize-safe :
    (s t : Allocator) (info : BootInfo) (regions : ℕ → Region)
    → info.version ≡ current_version
    → info.memory_regions ≡ some regions
    → InOrder regions info.memory_region_count
    → info.memory_region_count + info.memory_region_count < max_extents
    → initialize s info ≡ some t
    → (a : ℕ) → Covers t.free a
    → ((j : ℕ) × (j < info.memory_region_count)
        × ((regions j).type ≡ MemoryType.usable)
        × InRegion (regions j) a)
      × ((j : ℕ)
          → ¬ (
              (j < info.memory_region_count)
              × ((regions j).type ≢ MemoryType.usable)
              × ((regions j).physical_start + (regions j).length < u64_mod)
              × InRegion (regions j) a))
initialize-safe s t info regions version there order small run a c =
    let (t', run', b') = initialize-Booted s info regions version there order small in
    let same : t' ≡ t = cc in
    let b : Booted regions info.memory_region_count t =
      subst (Booted regions info.memory_region_count) same b' in
    let ((i, h, adds), out) = (b.managed_iff a).0 ((b.all_free a).0 c) in
    (
      (
        i,
        h,
        is_usable-true (regions i).type (Adds-usable (regions i) a adds).0,
        (Adds-usable (regions i) a adds).1,
      ),
      λ j (l, u, fits, inside).
          out
            (j, l, reserved-Removes (regions j) a (is_usable-false (regions j).type u) fits inside),
    )
