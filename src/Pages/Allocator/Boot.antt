-- ===== src/Pages/Allocator/Boot.antt =====
-- kernel/memory/page_allocator.cpp: `initialize` on a memory map whose usable regions come in order of
-- addresses.
pub mod Usable
pub mod Reserved
pub mod Map
pub mod Safe
use shirleys_os.Prelude.{
  ℕ, ◌+◌, ◌%◌, ◌≤◌, ◌<◌, ◌≡◌, inl, inr, arith, Option-cases, some, true, u64_mod,
}
use shirleys_os.Pages.Allocator.{is_usable}
use shirleys_os.Pages.Extents.{Extent, Region, page_size, align_usable, align_reserved, align_down}
use shirleys_os.Pages.Cover.{Holds}

-- The usable regions come in order of addresses and do not overlap each other. Regions of other types
-- may stand anywhere, also across usable ones and across each other.
abbrev pub InOrder : (ℕ → Region) → ℕ → Type 0
InOrder regions count =
    (i j : ℕ)
    → i < j
    → j < count
    → is_usable (regions i).type ≡ true
    → is_usable (regions j).type ≡ true
    → (regions i).physical_start + (regions i).length ≤ (regions j).physical_start

-- What `align_usable` gives lies inside the region, in whole pages, above page 0.
pub align_usable_bounds :
    (r : Region) {e : Extent}
    → align_usable r ≡ some e
    → (e.begin < e.end)
      × (r.physical_start ≤ e.begin)
      × (e.end ≤ r.physical_start + r.length)
      × (e.begin % page_size ≡ 0)
      × (e.end % page_size ≡ 0)
      × (0 < e.begin)
      × (e.end < u64_mod)
unfolding align_usable align_down
align_usable_bounds r h = ground arith

-- It leaves out no whole page of the region but page 0.
pub align_usable_onto :
    (r : Region) (page : ℕ)
    → page % page_size ≡ 0
    → 0 < page
    → r.physical_start ≤ page
    → page + page_size ≤ r.physical_start + r.length
    → r.physical_start + r.length < u64_mod
    → (e : Extent) × (align_usable r ≡ some e) × (e.begin ≤ page) × (page + page_size ≤ e.end)
unfolding align_usable align_down
align_usable_onto r page a p low high fits = elim (Option-cases (align_usable r)) [
  | inl e ↦ absurd (ground arith)
  | inr (x, e) ↦ (x, e, ground arith, ground arith)
]

-- What `align_reserved` gives holds every address of the region.
pub align_reserved-onto :
    (r : Region) (a : ℕ)
    → r.physical_start ≤ a
    → a < r.physical_start + r.length
    → r.physical_start + r.length < u64_mod
    → (e : Extent) × (align_reserved r ≡ some e) × Holds e a × (e.begin < e.end)
unfolding align_reserved align_down
align_reserved-onto r a low high fits = elim (Option-cases (align_reserved r)) [
  | inl e ↦ absurd (ground arith)
  | inr (x, e) ↦ (x, e, (ground arith, ground arith), ground arith)
]

pub align_reserved-proper : (r : Region) {e : Extent} → align_reserved r ≡ some e → e.begin < e.end
unfolding align_reserved align_down
align_reserved-proper r h = ground arith
