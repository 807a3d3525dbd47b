-- ===== src/Pages/History.antt =====
-- kernel/memory/page_allocator.cpp: any sequence of `allocate_page` and `free_page` by clients that
-- free what they were given.
use shirleys_os.Pages.Allocator.Free.{free_page-exact}
use shirleys_os.Pages.Allocator.Allocate.{allocate_page-exact}
use shirleys_os.Pages.Extents.{page_size, max_extents}
use shirleys_os.Pages.Cover.{Holds, page_at, MovesSafely, Covers, IsPaged, IsSorted}
use shirleys_os.Pages.Allocator.{free_page, allocate_page, Allocator}
use shirleys_os.Prelude.{
  ◌≢◌, inr, inl, Bool-cases, arith, ℕ_discrete, ◌%◌, false, update, Bool, true, ◌≡◌, ◌<◌, ℕ,
}

-- The allocator with the pages that its clients hold.
pub record System : Type 0 where
  pub allocator : Allocator
  pub owned : ℕ → Bool

-- A client frees a page that it holds, where the array has room and `insert_extent` does not
-- overwrite the tail that it moves.
pub data Step : System → System → Type 0 where
  allocate :
      (s : System)
      → 0 < s.allocator.free.count
      → Step s (record {
        allocator = (allocate_page s.allocator).1;
        owned = update s.owned (allocate_page s.allocator).0 true;
      })
  release :
      (s : System) (page : ℕ)
      → s.owned page ≡ true
      → s.allocator.free.count < max_extents
      → MovesSafely s.allocator.free (page_at page)
      → Step s
          (record { allocator = free_page s.allocator page; owned = update s.owned page false })

pub data Reach (s : System) : System → Type 0 where
  here : Reach s s
  next : {t u : System} → Reach s t → Step t u → Reach s u

pub record IsValid (s : System) : Type 0 where
  pub managed_sorted : IsSorted s.allocator.managed
  pub managed_paged : IsPaged s.allocator.managed
  pub free_sorted : IsSorted s.allocator.free
  pub free_paged : IsPaged s.allocator.free
  pub free_managed : (a : ℕ) → Covers s.allocator.free a → Covers s.allocator.managed a
  pub owned_page :
      (page : ℕ)
      → s.owned page ≡ true
      → (page % page_size ≡ 0) × Covers s.allocator.managed page × ¬ Covers s.allocator.free page

allocate-IsValid :
    (s : System)
    → 0 < s.allocator.free.count
    → IsValid s
    → IsValid (record {
      allocator = (allocate_page s.allocator).1;
      owned = update s.owned (allocate_page s.allocator).0 true;
    })
allocate-IsValid s left v =
    let (aligned, positive, was_free, covers, sorted, paged, same) =
      allocate_page-exact s.allocator v.free_sorted v.free_paged left in
    let page : ℕ = (allocate_page s.allocator).0 in
    record {
      managed_sorted = rw same v.managed_sorted;
      managed_paged = rw same v.managed_paged;
      free_sorted = sorted;
      free_paged = paged;
      free_managed = λ a c. rw same (v.free_managed a ((covers a).0 c).0);
      owned_page = λ p h. rw same (elim (ℕ_discrete p page) [
        | yes e ↦ (
          (rw e aligned),
          (rw e (v.free_managed page (was_free page (omega arith, omega arith)))),
          λ c. ((covers p).0 c).1 (omega arith, omega arith),
        )
        | no ne ↦
            let old = v.owned_page p (ground arith) in (old.0, old.1, λ c. old.2 ((covers p).0 c).0)
      ]);
    }

release-IsValid :
    (s : System) (page : ℕ)
    → s.owned page ≡ true
    → s.allocator.free.count < max_extents
    → MovesSafely s.allocator.free (page_at page)
    → IsValid s
    → IsValid (record { allocator = free_page s.allocator page; owned = update s.owned page false })
release-IsValid s page mine room safe v =
    let held = v.owned_page page mine in
    let (covers, sorted, paged, _, same) =
      free_page-exact s.allocator page v.managed_sorted v.managed_paged v.free_sorted v.free_paged
        held.0 held.1 held.2 room safe in
    record {
      managed_sorted = rw same v.managed_sorted;
      managed_paged = rw same v.managed_paged;
      free_sorted = sorted;
      free_paged = paged;
      free_managed = λ a c. rw same (elim ((covers a).0 c) [
        | inl old ↦ v.free_managed a old
        | inr inside ↦ page-managed v.managed_paged held.0 held.1 inside
      ]);
      owned_page = λ p h. rw same (
          let ne : p ≢ page = λ e. ground arith in
          let old = v.owned_page p (ground arith) in
          (
            old.0,
            old.1,
            λ c. elim ((covers p).0 c) [ inl free ↦ old.2 free | inr inside ↦ ne (omega arith) ],
          ));
    }
  where
    page-managed :
        IsPaged s.allocator.managed
        → page % page_size ≡ 0
        → Covers s.allocator.managed page
        → {a : ℕ} → Holds (page_at page) a
        → Covers s.allocator.managed a
    page-managed p aligned (j, h, held) inside =
        let e = p.end_aligned j h in (j, h, (omega arith, omega arith))

Step-IsValid : {s t : System} → Step s t → IsValid s → IsValid t
Step-IsValid (allocate s left) v = allocate-IsValid s left v
Step-IsValid (release s page mine room safe) v = release-IsValid s page mine room safe v

Reach-IsValid : {s t : System} → Reach s t → IsValid s → IsValid t
Reach-IsValid here v = v
Reach-IsValid (next r st) v = Step-IsValid st (Reach-IsValid r v)

-- From a valid state, take any sequence of allocations, each while free extents are left, and of frees
-- of pages that a client holds, each while the array has room (fewer than 4096 free extents) and on a
-- page where `insert_extent` does not overwrite the tail that it moves: it joins at most one old
-- extent, or fewer extents stand behind the joined ones than it joins (MovesSafely). If free extents
-- are left then, `allocate_page` returns no page that a client holds; the page is managed, and from
-- then on it is not free.
pub allocate_page-fresh :
    (s t : System)
    → IsValid s
    → Reach s t
    → 0 < t.allocator.free.count
    → let (page, u) = allocate_page t.allocator in
      (t.owned page ≡ false) × Covers t.allocator.managed page × ¬ Covers u.free page
allocate_page-fresh s t v r left =
    let w = Reach-IsValid r v in
    let (aligned, positive, was_free, covers, _, _, _) =
      allocate_page-exact t.allocator w.free_sorted w.free_paged left in
    let page : ℕ = (allocate_page t.allocator).0 in
    let free : Covers t.allocator.free page = was_free page (omega arith, omega arith) in
    (
      elim (Bool-cases (t.owned page)) [
        | inl mine ↦ absurd ((w.owned_page page mine).2 free)
        | inr other ↦ other
      ],
      w.free_managed page free,
      λ c. ((covers page).0 c).1 (omega arith, omega arith),
    )
