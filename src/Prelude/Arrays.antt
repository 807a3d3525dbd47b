-- ===== src/Prelude/Arrays.antt =====
-- A fixed array as a function of its index; the code that uses one keeps its indices in range.
use Prim.Native.Nat.{ℕ, zero, suc, ◌+◌, ◌<◌, ◌≤◌}
use mathlib.Core.Path.{◌≡◌, refl, ◌∙◌}
use mathlib.Core.Logic.{◌≢◌, ◌⊎◌, inl}
use mathlib.Core.List.{List, [], ◌∷◌}
use native.Mathlib.Decide.{ℕ_discrete}
use shirleys_os.Prelude.Lists.{length}
use native.Mathlib.Omega.{arith}
use shirleys_os.Prelude.Tests.{◌==◌, if◌then◌else◌}

module _ {ℓ} {A : Type ℓ} where
  abbrev pub update : (ℕ → A) → ℕ → A → ℕ → A
  update f i v j = if j == i then v else f j

  pub update_self : (f : ℕ → A) (i : ℕ) (v : A) → update f i v i ≡ v
  update_self f i v = ground arith

  pub update_ne : (f : ℕ → A) (i : ℕ) (v : A) (j : ℕ) → j ≢ i → update f i v j ≡ f j
  update_ne f i v j h = ground arith

  -- `n` elements from index `i` on.
  abbrev pub slice : (ℕ → A) → ℕ → ℕ → List A
  slice f i zero = []
  slice f i (suc n) = f i ∷ slice f (i + 1) n

  pub length-slice : (f : ℕ → A) (i n : ℕ) → length (slice f i n) ≡ n
  length-slice f i zero = refl
  length-slice f i (suc n) = omega (arith, length-slice f (i + 1) n)

  -- Arrays that agree on a stretch have the same elements there, wherever it lies in each.
  pub slice_ext :
      (f g : ℕ → A) (i j n : ℕ)
      → ((k : ℕ) → k < n → f (i + k) ≡ g (j + k))
      → slice f i n ≡ slice g j n
  slice_ext f g i j zero h = refl
  slice_ext f g i j (suc n) h =
      let first : f i ≡ g j = (let e = h 0 (omega arith) in ground arith) in
      let rest =
        slice_ext f g (i + 1) (j + 1) n
          (λ k l. (let e = h (k + 1) (omega arith) in ground arith)) in
      rw (first, rest) refl

  -- `for (i = 0; i < count; ++i) out[i] = in[i]` with `out` at index `at` of an array and `left` rounds
  -- to go.
  unfoldable pub copy_bytes : (ℕ → A) → ℕ → (ℕ → A) → ℕ → ℕ → ℕ → A
  copy_bytes target at source zero i = target
  copy_bytes target at source (suc left) i =
      copy_bytes (update target (at + i) (source i)) at source left (i + 1)

  copy_bytes_outside :
      (target source : ℕ → A) (at left i a : ℕ)
      → (a < at + i) ⊎ (at + i + left ≤ a)
      → copy_bytes target at source left i a ≡ target a
  unfolding copy_bytes
  copy_bytes_outside target source at zero i a out = refl
  copy_bytes_outside target source at (suc left) i a out =
      let rest =
        copy_bytes_outside (update target (at + i) (source i)) source at left (i + 1) a
          (ground arith) in
      rest ∙ update_ne target (at + i) (source i) a (ground arith)

  copy_bytes_inside :
      (target source : ℕ → A) (at left i k : ℕ)
      → i ≤ k
      → k < i + left
      → copy_bytes target at source left i (at + k) ≡ source k
  unfolding copy_bytes
  copy_bytes_inside target source at zero i k h l = absurd (omega arith)
  copy_bytes_inside target source at (suc left) i k h l = elim (ℕ_discrete k i) [
    | yes e ↦
        (let rest =
            copy_bytes_outside (update target (at + i) (source i)) source at left (i + 1) (at + k)
              (inl (omega arith)) in
          rest ∙ (rw e (update_self target (at + i) (source i))))
    | no ne ↦
        copy_bytes_inside (update target (at + i) (source i)) source at left (i + 1) k (omega arith)
          (omega arith)
  ]

  -- A copy of a whole buffer: what it changes, and what it leaves.
  pub copy_bytes_at :
      (target source : ℕ → A) (at n k : ℕ)
      → k < n
      → copy_bytes target at source n 0 (at + k) ≡ source k
  copy_bytes_at target source at n k l =
      copy_bytes_inside target source at n 0 k (omega arith) (omega arith)

  pub copy_bytes_elsewhere :
      (target source : ℕ → A) (at n a : ℕ)
      → (a < at) ⊎ (at + n ≤ a)
      → copy_bytes target at source n 0 a ≡ target a
  copy_bytes_elsewhere target source at n a out =
      copy_bytes_outside target source at n 0 a (ground arith)
