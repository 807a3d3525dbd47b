-- ===== src/Pages/Allocator/Allocate.antt =====
-- kernel/memory/page_allocator.cpp: `allocate_page` takes one whole free page out of the free extents.
use shirleys_os.Prelude.{
  ◌↔◌, dec_lt, ℕ, ◌+◌, ◌-◌, ◌%◌, ◌≤◌, ◌<◌, ◌≡◌, ◌⊎◌, inl, inr, arith, ℕ_discrete, update, u64_mod,
}
use shirleys_os.Pages.Extents.{Extents, page_size}
use shirleys_os.Pages.Moves.{close_gap_lem}
use shirleys_os.Pages.Cover.{page_at, Covers, Holds, IsSorted, IsPaged}
use shirleys_os.Pages.Allocator.{Extent, Allocator, allocate_page}

-- The free extents after `allocate_page`, entry by entry: the first one is gone if it was one page,
-- else it has lost its first page.
module _ (s : Allocator) (sorted : IsSorted s.free) (paged : IsPaged s.free)
    (some_left : 0 < s.free.count) where
  abbrev begin : ℕ
  begin = (s.free.items 0).begin

  abbrev end : ℕ
  end = (s.free.items 0).end

  abbrev after : Extents
  after = (allocate_page s).1.free

  room : (begin + page_size ≤ end) × (end < u64_mod) × (begin % page_size ≡ 0) × (0 < begin)
  room =
      let n = sorted.nonempty 0 some_left in
      let b = paged.begin_aligned 0 some_left in
      let e = paged.end_aligned 0 some_left in
      (omega arith, paged.in_range 0 some_left, b, paged.positive 0 some_left)

  abbrev After : Type 0
  After =
      ((begin + page_size ≡ end)
        × (after.count + 1 ≡ s.free.count)
        × ((k : ℕ) → k < after.count → after.items k ≡ s.free.items (k + 1)))
      ⊎ ((begin + page_size < end)
          × (after.count ≡ s.free.count)
          × (after.items 0 ≡ record { begin = begin + page_size; end = end })
          × ((k : ℕ) → 0 < k → after.items k ≡ s.free.items k))

  allocate_page-After : After
  unfolding allocate_page
  allocate_page-After =
      let r = room in
      elim (ℕ_discrete (begin + page_size) end) [
        | yes e ↦ inl (
          e,
          ground arith,
          λ k h. ground (
            arith,
            close_gap_lem
                (update s.free.items 0
                  (record { begin = (begin + page_size) % u64_mod; end = end }))
                1 (s.free.count - 1) k (omega arith),
          ),
        )
        | no ne ↦ inr (omega arith, ground arith, ground arith, λ k h. ground arith)
      ]

  allocate_page-page : (allocate_page s).0 ≡ begin
  unfolding allocate_page
  allocate_page-page = ground arith

  after-IsSorted : IsSorted after
  after-IsSorted = elim allocate_page-After [
    | inl (e, c, at) ↦ record {
      nonempty = λ j h. rw (at j h) (sorted.nonempty (j + 1) (omega arith));
      apart = λ i j h k.
          rw (at i (omega arith), at j k)
            (sorted.apart (i + 1) (j + 1) (omega arith) (omega arith));
    }
    | inr (l, c, z, at) ↦ record {
      nonempty = λ j h. elim (ℕ_discrete j 0) [
        | yes e ↦ rw (e, z) l
        | no ne ↦ rw (at j (omega arith)) (sorted.nonempty j (omega arith))
      ];
      apart = λ i j h k. rw (at j (omega arith)) (elim (ℕ_discrete i 0) [
        | yes e ↦ rw (e, z) (sorted.apart 0 j (omega arith) (omega arith))
        | no ne ↦ rw (at i (omega arith)) (sorted.apart i j h (omega arith))
      ]);
    }
  ]

  -- Every extent left is an old one, or the first one from its second page on.
  after-each :
      (P : Extent → Type 0)
      → ((j : ℕ) → j < s.free.count → P (s.free.items j))
      → P (record { begin = begin + page_size; end = end })
      → (k : ℕ) → k < after.count
      → P (after.items k)
  after-each P old new k h = elim allocate_page-After [
    | inl (e, c, at) ↦ rw (at k h) (old (k + 1) (omega arith))
    | inr (l, c, z, at) ↦ elim (ℕ_discrete k 0) [
      | yes e ↦ rw (e, z) new
      | no ne ↦ rw (at k (omega arith)) (old k (omega arith))
    ]
  ]

  after-IsPaged : IsPaged after
  after-IsPaged = record {
    begin_aligned =
        after-each (λ c. c.begin % page_size ≡ 0) paged.begin_aligned (omega (arith, room));
    end_aligned =
        after-each (λ c. c.end % page_size ≡ 0) paged.end_aligned (paged.end_aligned 0 some_left);
    positive = after-each (λ c. 0 < c.begin) paged.positive (omega arith);
    in_range = after-each (λ c. c.end < u64_mod) paged.in_range (paged.in_range 0 some_left);
  }

  after-Covers-sound : (a : ℕ) → Covers after a → Covers s.free a × ¬ Holds (page_at begin) a
  after-Covers-sound a (k, h, held) = elim allocate_page-After [
    | inl (e, c, at) ↦
        let held' : Holds (s.free.items (k + 1)) a = (rw (at k h) at held) in
        let gap = sorted.apart 0 (k + 1) (omega arith) (omega arith) in
        ((k + 1, omega arith, held'), λ out. omega arith)
    | inr (l, c, z, at) ↦ elim (ℕ_discrete k 0) [
      | yes e ↦
          let low : begin + page_size ≤ a = (rw (e, z) at held.0) in
          let high : a < end = (rw (e, z) at held.1) in
          ((0, some_left, (omega arith, high)), λ out. omega arith)
      | no ne ↦
          let held' : Holds (s.free.items k) a = (rw (at k (omega arith)) at held) in
          let gap = sorted.apart 0 k (omega arith) (omega arith) in
          ((k, omega arith, held'), λ out. omega arith)
    ]
  ]

  after-Covers-complete : (a : ℕ) → Covers s.free a → ¬ Holds (page_at begin) a → Covers after a
  after-Covers-complete a (k, h, held) out = elim allocate_page-After [
    | inl (e, c, at) ↦ elim (ℕ_discrete k 0) [
      | yes q ↦
          let held' : Holds (s.free.items 0) a = (rw q at held) in
          absurd (out (held'.0, omega arith))
      | no ne ↦
          let q : k - 1 + 1 ≡ k = omega arith in
          (k - 1, omega arith, (rw (at (k - 1) (omega arith), q) held))
    ]
    | inr (l, c, z, at) ↦ elim (ℕ_discrete k 0) [
      | yes q ↦
          let held' : Holds (s.free.items 0) a = (rw q at held) in
          elim (dec_lt a (begin + page_size)) [
            | yes low ↦ absurd (out (held'.0, low))
            | no high ↦ (0, omega arith, ((rw z (omega arith)), (rw z held'.1)))
          ]
      | no ne ↦ (k, omega arith, (rw (at k (omega arith)) held))
    ]
  ]

  begin-Covers : (a : ℕ) → Holds (page_at begin) a → Covers s.free a
  begin-Covers a held = (0, some_left, (held.0, omega (arith, room)))

managed-allocate_page : (s : Allocator) → (allocate_page s).1.managed ≡ s.managed
unfolding allocate_page
managed-allocate_page s = ground arith

-- `allocate_page` with free pages left returns the address of one whole page, aligned and not 0,
-- all of which was free; afterwards exactly the other free addresses are free, the free extents are
-- again sorted and paged, and the managed extents are as before.
pub allocate_page-exact :
    (s : Allocator)
    → IsSorted s.free
    → IsPaged s.free
    → 0 < s.free.count
    → let (page, t) = allocate_page s in
      (page % page_size ≡ 0)
      × (0 < page)
      × ((a : ℕ) → Holds (page_at page) a → Covers s.free a)
      × ((a : ℕ) → Covers t.free a ↔ (Covers s.free a × ¬ Holds (page_at page) a))
      × IsSorted t.free
      × IsPaged t.free
      × (t.managed ≡ s.managed)
allocate_page-exact s sorted paged left =
    let page = allocate_page-page s sorted paged left in
    let r = room s sorted paged left in
    rw page (
      r.2,
      r.3,
      begin-Covers s sorted paged left,
      λ a. (
        after-Covers-sound s sorted paged left a,
        λ (c, out). after-Covers-complete s sorted paged left a c out,
      ),
      after-IsSorted s sorted paged left,
      after-IsPaged s sorted paged left,
      managed-allocate_page s,
    )

-- Without free pages it returns 0 and changes nothing.
pub allocate_page-empty : (s : Allocator) → s.free.count ≡ 0 → allocate_page s ≡ (0, s)
unfolding allocate_page
allocate_page-empty s e = ground arith
