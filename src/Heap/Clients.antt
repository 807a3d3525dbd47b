-- ===== src/Heap/Clients.antt =====
-- kernel/memory/heap.cpp as its clients see it: which blocks are live.
use shirleys_os.Heap.{Heap, allocate, free}
use shirleys_os.Heap.Chain.{Piece, IsValid, Live, Live-IsSize}
use shirleys_os.Heap.Allocate.{allocate-IsNew}
use shirleys_os.Heap.Free.{free-Outcome}
use shirleys_os.Prelude.{ℕ, ◌+◌, ◌≡◌, ◌≢◌, ◌⊎◌, ◌↔◌, inl, inr, List, arith, refl, sym, ◌∙◌, false}

-- A well-formed heap whose live blocks are the blocks of `n` bytes at `x` with `L x n`.
abbrev pub Holding : Heap → (ℕ → ℕ → Type 0) → Type 0
Holding s L = (bs : List Piece) × IsValid s bs × ((x n : ℕ) → Live s.heap_begin bs x n ↔ L x n)

-- One block more, and one less.
abbrev pub With : (ℕ → ℕ → Type 0) → ℕ → ℕ → ℕ → ℕ → Type 0
With L x k y m = L y m ⊎ ((y ≡ x) × (m ≡ k))

abbrev pub Without : (ℕ → ℕ → Type 0) → ℕ → ℕ → ℕ → Type 0
Without L x y m = L y m × (y ≢ x)

pub Holding_map :
    (s : Heap) (L M : ℕ → ℕ → Type 0) → ((x n : ℕ) → L x n ↔ M x n) → Holding s L → Holding s M
Holding_map s L M same (bs, v, live) =
    (bs, v, λ x n. (λ l. (same x n).0 ((live x n).0 l), λ m. (live x n).1 ((same x n).1 m)))

-- A null pointer with the heap as it was, or a block where none was.
abbrev pub Got : Heap → (ℕ → ℕ → Type 0) → ℕ × Heap → Type 0
Got s L r =
    (r ≡ (0, s))
    ⊎ ((x : ℕ) × (k : ℕ) × (r.0 ≡ x + 16) × Holding r.1 (With L x k) × ((n : ℕ) → ¬ L x n))

pub allocate-Got :
    (s : Heap) (L : ℕ → ℕ → Type 0) (bytes alignment : ℕ)
    → Holding s L
    → Got s L (allocate s bytes alignment)
allocate-Got s L bytes alignment (bs, v, live) = elim (allocate-IsNew s bs bytes alignment v) [
  | inl e ↦ inl e
  | inr new ↦ inr (
    new.x,
    new.k,
    new.at,
    (
      new.blocks,
      new.valid,
      λ y m. (
        λ l. elim ((new.live y m).0 l) [ inl i ↦ inl ((live y m).0 i) | inr i ↦ inr i ],
        λ l. (new.live y m).1 (elim l [ inl i ↦ inl ((live y m).1 i) | inr i ↦ inr i ]),
      ),
    ),
    λ n l.
        let i = (live new.x n).1 l in
        let ((big, mult), even) = Live-IsSize false s.heap_begin bs new.x n v.tidy v.even i in
        let (some_bytes, own) =
          Live-IsSize false _ new.blocks new.x new.k new.valid.tidy new.valid.even
            ((new.live new.x new.k).1 (inr (refl, refl))) in
        let (large, mult2) = some_bytes in
        elim (new.fresh new.x n i) [ inl h ↦ absurd (omega arith) | inr h ↦ absurd (omega arith) ],
  )
]

pub free-Holding :
    (s : Heap) (L : ℕ → ℕ → Type 0) (x n : ℕ)
    → Holding s L
    → L x n
    → Holding (free s (x + 16)) (Without L x)
free-Holding s L x n (bs, v, live) l = elim (free-Outcome s bs v (x + 16)) [
  | inl (y, m, at, i, released) ↦
      let same : y ≡ x = omega arith in
      (
        released.blocks,
        released.valid,
        λ z q. (
          λ k. let (a, b) = (released.live z q).0 k in ((live z q).0 a, λ e. b (e ∙ sym same)),
          λ (k, ne). (released.live z q).1 ((live z q).1 k, λ e. ne (e ∙ same)),
        ),
      )
  | inr (stranger, same) ↦ absurd (stranger x n ((live x n).1 l) refl)
]

pub free-null : (s : Heap) → free s 0 ≡ s
unfolding free
free-null s = refl
