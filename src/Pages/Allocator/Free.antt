-- ===== src/Pages/Allocator/Free.antt =====
-- kernel/memory/page_allocator.cpp: `free_page` gives a page back.
use shirleys_os.Prelude.{
  ℕ, ◌+◌, ◌%◌, ◌<◌, ◌≡◌, ◌↔◌, ◌≢◌, ◌⊎◌, inl, inr, true, false, arith, Bool-cases, u64_mod,
}
use shirleys_os.Pages.Extents.{insert_extent, max_extents, page_size}
use shirleys_os.Pages.Cover.{IsSorted, Holds, Covers, IsPaged, page_at, MovesSafely}
use shirleys_os.Pages.Insert.{insert_extent-IsSorted-Covers, insert_extent-false_iff}
use shirleys_os.Pages.Allocator.{Allocator, contains, free_page}
use shirleys_os.Pages.Allocator.Paged.{contains_iff, insert_extent-IsPaged}

-- A page that is not aligned, not managed or already free is refused: nothing changes.
free_page-refused :
    (s : Allocator) (address : ℕ)
    → IsSorted s.managed
    → IsSorted s.free
    → (address % page_size ≢ 0) ⊎ ((¬ Covers s.managed address) ⊎ Covers s.free address)
    → free_page s address ≡ s
unfolding free_page
free_page-refused s address m f (inl h) = ground arith
free_page-refused s address m f (inr (inl h)) = elim (Bool-cases (contains s.managed address)) [
  | inl e ↦ absurd (h ((contains_iff s.managed address m).0 e))
  | inr e ↦ ground arith
]
free_page-refused s address m f (inr (inr h)) =
    let e = (contains_iff s.free address f).1 h in ground arith

module _ (s : Allocator) (address : ℕ) (managed_sorted : IsSorted s.managed)
    (managed_paged : IsPaged s.managed) (sorted : IsSorted s.free)
    (aligned : address % page_size ≡ 0) (managed : Covers s.managed address)
    (taken : ¬ Covers s.free address) where
  -- The page lies inside one managed extent.
  no_wrap : (address + page_size < u64_mod) × (0 < address)
  no_wrap =
      let (j, h, held) = managed in
      let e = managed_paged.end_aligned j h in
      let b = managed_paged.positive j h in
      let r = managed_paged.in_range j h in (omega arith, omega arith)

  not_free : contains s.free address ≡ false
  not_free = elim (Bool-cases (contains s.free address)) [
    | inl e ↦ absurd (taken ((contains_iff s.free address sorted).0 e))
    | inr e ↦ e
  ]

  is_managed : contains s.managed address ≡ true
  is_managed = (contains_iff s.managed address managed_sorted).1 managed

  pub free_page-free : (free_page s address).free ≡ (insert_extent s.free (page_at address)).0
  unfolding free_page
  free_page-free =
      let end : (address + page_size) % u64_mod ≡ address + page_size = omega (arith, no_wrap) in
      rw end (ground (arith, not_free, is_managed))

  free_page-available :
      (insert_extent s.free (page_at address)).1 ≡ true
      → (free_page s address).available ≡ (s.available + 1) % u64_mod
  unfolding free_page
  free_page-available done =
      let end : (address + page_size) % u64_mod ≡ address + page_size = omega (arith, no_wrap) in
      rw end (ground (arith, not_free, is_managed, done))

managed-free_page : (s : Allocator) (address : ℕ) → (free_page s address).managed ≡ s.managed
unfolding free_page
managed-free_page s address = ground arith

-- Giving back a managed page that is not free, where the array has room for it and the moved tail
-- is not overwritten on the way: exactly the page joins the free addresses, the free extents are
-- again sorted and paged, the count of available pages grows by one, the managed extents stay.
pub free_page-exact :
    (s : Allocator) (address : ℕ)
    → IsSorted s.managed
    → IsPaged s.managed
    → IsSorted s.free
    → IsPaged s.free
    → address % page_size ≡ 0
    → Covers s.managed address
    → ¬ Covers s.free address
    → s.free.count < max_extents
    → MovesSafely s.free (page_at address)
    → let t = free_page s address in
      ((a : ℕ) → Covers t.free a ↔ (Covers s.free a ⊎ Holds (page_at address) a))
      × IsSorted t.free
      × IsPaged t.free
      × (t.available ≡ (s.available + 1) % u64_mod)
      × (t.managed ≡ s.managed)
free_page-exact s address ms mp fs fp aligned managed taken room safe =
    let done : (insert_extent s.free (page_at address)).1 ≡ true =
      elim (Bool-cases (insert_extent s.free (page_at address)).1) [
        | inl e ↦ e
        | inr e ↦ absurd (omega (arith, ((insert_extent-false_iff s.free (page_at address)).0 e).1))
      ] in
    let range = no_wrap s address ms mp fs aligned managed taken in
    let exact = insert_extent-IsSorted-Covers s.free (page_at address) fs (omega arith) safe done in
    rw (free_page-free s address ms mp fs aligned managed taken) (
      exact.1,
      exact.0,
      insert_extent-IsPaged s.free (page_at address) fs fp safe done aligned (omega arith) range.1
          range.0,
      free_page-available s address ms mp fs aligned managed taken done,
      managed-free_page s address,
    )
