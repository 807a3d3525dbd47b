-- ===== src/Pages/Cover.antt =====
-- kernel/memory/page_allocator.cpp: extents as sets of addresses, and the parts of an insertion.
use shirleys_os.Prelude.{◌≡◌, ◌+◌, u64_mod, ◌%◌, ℕ, ◌-◌, ◌≤◌, ◌<◌, ◌⊎◌}
use shirleys_os.Pages.Extents.{page_size, Extent, Extents, find_first, absorb}

-- Extents in use are not empty, in increasing order, and do not touch.
pub record IsSorted (x : Extents) : Type 0 where
  pub nonempty : (j : ℕ) → j < x.count → (x.items j).begin < (x.items j).end
  pub apart : (i j : ℕ) → i < j → j < x.count → (x.items i).end < (x.items j).begin

abbrev pub Holds : Extent → ℕ → Type 0
Holds e a = (e.begin ≤ a) × (a < e.end)

-- Some extent in use holds the address.
abbrev pub Covers : Extents → ℕ → Type 0
Covers x a = (j : ℕ) × (j < x.count) × Holds (x.items j) a

-- The two indices that `insert_extent` finds, and the extent that it writes.
abbrev pub first_index : Extents → Extent → ℕ
first_index x added = find_first x.items x.count 0 added.begin

abbrev pub last_index : Extents → Extent → ℕ
last_index x added = (absorb x.items (x.count - first_index x added) (first_index x added) added).0

abbrev pub merged_extent : Extents → Extent → Extent
merged_extent x added =
    (absorb x.items (x.count - first_index x added) (first_index x added) added).1

-- How many extents are merged into the new one.
abbrev pub removed_count : Extents → Extent → ℕ
removed_count x added = last_index x added - first_index x added

-- No entry of the tail is overwritten before it is moved.
abbrev pub MovesSafely : Extents → Extent → Type 0
MovesSafely x added =
    (removed_count x added ≤ 1) ⊎ (x.count - last_index x added < removed_count x added)

-- Whole pages within the address space; page 0 is never held, since 0 means failure.
pub record IsPaged (x : Extents) : Type 0 where
  pub begin_aligned : (j : ℕ) → j < x.count → (x.items j).begin % page_size ≡ 0
  pub end_aligned : (j : ℕ) → j < x.count → (x.items j).end % page_size ≡ 0
  pub positive : (j : ℕ) → j < x.count → 0 < (x.items j).begin
  pub in_range : (j : ℕ) → j < x.count → (x.items j).end < u64_mod

abbrev pub page_at : ℕ → Extent
page_at address = record { begin = address; end = address + page_size }
