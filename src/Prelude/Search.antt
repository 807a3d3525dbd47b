-- ===== src/Prelude/Search.antt =====
-- Linear searches over the indices of a table.
use Prim.Native.Nat.{ℕ, ◌+◌, ◌≤◌, ◌<◌}
use mathlib.Core.Option.{Option, none, some}
use native.Mathlib.Omega.{arith}
use native.Mathlib.Decide.{ℕ_discrete}

-- What a search from index `i` up to `stop` gives: the first index with the property, if any.
abbrev pub Found {ℓ} : (ℕ → Type ℓ) → ℕ → ℕ → Option ℕ → Type ℓ
Found P i stop none = (k : ℕ) → i ≤ k → k < stop → ¬ P k
Found P i stop (some j) = (i ≤ j) × (j < stop) × P j × ((k : ℕ) → i ≤ k → k < j → ¬ P k)

module _ {ℓ} (P : ℕ → Type ℓ) (i stop : ℕ) where
  pub Found-here : P i → i < stop → Found P i stop (some i)
  Found-here p h = (omega arith, h, p, λ k l m. absurd (omega arith))

  pub Found-later : ¬ P i → (o : Option ℕ) → Found P (i + 1) stop o → Found P i stop o
  Found-later out none f =
      λ k h l. elim (ℕ_discrete k i) [ yes e ↦ rw e out | no ne ↦ f k (omega arith) l ]
  Found-later out (some j) (h, l, p, before) = (
    omega arith,
    l,
    p,
    λ k m n. elim (ℕ_discrete k i) [ yes e ↦ rw e out | no ne ↦ before k (omega arith) n ],
  )

pub Found-none {ℓ} : (P : ℕ → Type ℓ) (i stop : ℕ) → stop ≤ i → Found P i stop none
Found-none P i stop h = λ k l m. absurd (omega arith)
