-- ===== src/Integers.antt =====
-- The C++ `int` of status codes, as far as the code uses it: no arithmetic, only small constants.
use shirleys_os.Prelude.{refl, inr, inl, ◌⊎◌, ◌≡◌, ℕ}

pub data ℤ : Type 0 where
  pos : ℕ → ℤ
  negsuc : ℕ → ℤ

pub ℤ-cases : (i : ℤ) → ((n : ℕ) × (i ≡ pos n)) ⊎ ((n : ℕ) × (i ≡ negsuc n))
ℤ-cases (pos n) = inl (n, refl)
ℤ-cases (negsuc n) = inr (n, refl)
