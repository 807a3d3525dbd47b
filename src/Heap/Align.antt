-- ===== src/Heap/Align.antt =====
-- kernel/memory/heap.cpp: powers of two, and where a block is cut out of a free block.
use shirleys_os.Checksum.Bits.{masked_lowest}
use shirleys_os.Heap.{align_up, payload_in, cut_from}
use Prim.Native.Nat.{bit_and}
use native.Mathlib.Nat.{mul_assoc, mod-add-div', mod-lt, mul-mod_left}
use shirleys_os.Prelude.{
  ℕ, zero, suc, ◌+◌, ◌-◌, ◌*◌, ◌/◌, ◌%◌, ◌≤◌, ◌<◌, ◌≡◌, ◌⊎◌, inl, inr, Bool-cases, not, ◌&&◌, ◌||◌,
  ◌==◌, ltb, leb, if◌then◌else◌, none, some, u64_mod, sub64, arith, if_cases, ap, ◌∙◌,
}

bit_and_self : (n a : ℕ) → a ≤ n → bit_and a a ≡ a
bit_and_self zero zero h = omega (arith, masked_lowest 0 0)
bit_and_self zero (suc a) h = absurd (omega arith)
bit_and_self (suc n) zero h = omega (arith, masked_lowest 0 0)
bit_and_self (suc n) (suc a) h =
    omega (arith, masked_lowest (suc a) (suc a), bit_and_self n (suc a / 2) (omega arith))

-- A power of two above one is even, and half of it is a power of two.
power_half :
    (a : ℕ) → 1 < a → bit_and a (a - 1) ≡ 0 → (a % 2 ≡ 0) × (bit_and (a / 2) (a / 2 - 1) ≡ 0)
power_half a h e = elim (Bool-cases (a % 2 == 0)) [
  | inl even ↦
      let z : a % 2 ≡ 0 = ground arith in
      let half : (a - 1) / 2 ≡ a / 2 - 1 = omega arith in
      let low = masked_lowest a (a - 1) in (z, (let m = (rw half at low) in omega arith))
  | inr odd ↦
      let z : a % 2 ≡ 1 = ground arith in
      let half : (a - 1) / 2 ≡ a / 2 = omega arith in
      let low = masked_lowest a (a - 1) in
      absurd (let m = (rw half at low) in omega (arith, bit_and_self a (a / 2) (omega arith)))
]

pub power_multiple : (a : ℕ) → 16 ≤ a → bit_and a (a - 1) ≡ 0 → a % 16 ≡ 0
power_multiple a h e =
    let (one, e1) = power_half a (omega arith) e in
    let (two, e2) = power_half (a / 2) (omega arith) e1 in
    let (three, e3) = power_half (a / 2 / 2) (omega arith) e2 in
    let (four, e4) = power_half (a / 2 / 2 / 2) (omega arith) e3 in omega arith

module _ (value alignment : ℕ) (positive : 0 < alignment) where
  pub align_up-multiple : align_up value alignment % alignment ≡ 0
  unfolding align_up
  align_up-multiple = mul-mod_left ((value + alignment - 1) % u64_mod / alignment) alignment

  pub align_up-bounds :
      value + alignment ≤ u64_mod
      → (value ≤ align_up value alignment) × (align_up value alignment < value + alignment)
  unfolding align_up
  align_up-bounds h =
      let m = value + alignment - 1 in
      let whole : m % u64_mod ≡ m = omega arith in
      let split = mod-add-div' m alignment in
      let small = mod-lt m positive in rw (whole) (omega arith, omega arith)

  align_up-16 : alignment % 16 ≡ 0 → align_up value alignment % 16 ≡ 0
  unfolding align_up
  align_up-16 h =
      let q = (value + alignment - 1) % u64_mod / alignment in
      let a : alignment / 16 * 16 ≡ alignment = omega arith in
      let e : q * (alignment / 16) * 16 ≡ q * alignment =
        (mul_assoc q (alignment / 16) 16 ∙ ap (λ (x : ℕ). q * x) a) in
      let f = mul-mod_left (q * (alignment / 16)) 16 in rw e at f

-- A payload in the free block at `start`: the block in front of it is empty or large enough.
record IsPayload (start alignment payload : ℕ) : Type 0 where
  front : (payload ≡ start + 16) ⊎ (start + 48 ≤ payload)
  even : payload % 16 ≡ 0
  aligned : payload % alignment ≡ 0
  below : payload < start + 48 + alignment

-- The block from `block_start` to `block_end` in the free block from `start` to `end`.
pub record IsCut (start end alignment wanted block_start block_end : ℕ) : Type 0 where
  pub front : (block_start ≡ start) ⊎ (start + 32 ≤ block_start)
  pub even_start : block_start % 16 ≡ 0
  pub aligned : (block_start + 16) % alignment ≡ 0
  pub room : block_start + 16 + wanted ≤ block_end
  pub back : (block_end ≡ end) ⊎ (block_end + 32 ≤ end)
  pub even_end : block_end % 16 ≡ 0

-- The end of the block with the payload `p`, which takes in a tail that is too small.
abbrev stop : ℕ → ℕ → ℕ → ℕ
stop p end wanted = let q = (p + wanted) % u64_mod in if ltb (sub64 end q) 32 then end else q

some_pair : (q r : ℕ × ℕ) → some q ≡ some r → (q.0 ≡ r.0) × (q.1 ≡ r.1)
some_pair q r e =
    let same : q ≡ r = cc in (ap (λ (x : ℕ × ℕ). x.0) same, ap (λ (x : ℕ × ℕ). x.1) same)

-- Where addresses do not wrap around.
module _ (start alignment : ℕ) (large : 16 ≤ alignment) (even : alignment % 16 ≡ 0)
    (start_even : start % 16 ≡ 0) (low : start + alignment + 64 ≤ u64_mod) where
  payload_in-IsPayload : IsPayload start alignment (payload_in start alignment)
  unfolding payload_in
  payload_in-IsPayload =
      let positive : 0 < alignment = omega arith in
      let near : (start + 16) % u64_mod ≡ start + 16 = omega arith in
      let far : (start + 32 + 16) % u64_mod ≡ start + 48 = omega arith in
      let p = align_up (start + 16) alignment in
      let q = align_up (start + 48) alignment in
      let (a, b) = align_up-bounds (start + 16) alignment positive (omega arith) in
      let (c, d) = align_up-bounds (start + 48) alignment positive (omega arith) in
      let p16 = align_up-16 (start + 16) alignment positive even in
      let q16 = align_up-16 (start + 48) alignment positive even in
      rw (payload_in, near, far)
        (if_cases (IsPayload start alignment)
          (not (sub64 p 16 == start) && ltb (sub64 (sub64 p 16) start) 32) q p
          (λ e. record {
            front = inr (omega arith);
            even = q16;
            aligned = align_up-multiple (start + 48) alignment positive;
            below = omega arith;
          })
          (λ e. record {
            front = ground arith;
            even = p16;
            aligned = align_up-multiple (start + 16) alignment positive;
            below = omega arith;
          }))

  -- With `end` and `wanted` in sight.
  pub cut_from-IsCut :
      (end wanted b e : ℕ)
      → end % 16 ≡ 0
      → start + 32 ≤ end
      → end + alignment + 64 ≤ u64_mod
      → wanted % 16 ≡ 0
      → 0 < wanted
      → cut_from start end alignment wanted ≡ some (b, e)
      → IsCut start end alignment wanted b e
  unfolding cut_from
  cut_from-IsCut end wanted b e end_even long below wanted_even some_wanted h =
      let p = payload_in start alignment in
      let i = payload_in-IsPayload in
      let front = i.front in
      let p16 = i.even in
      let near = i.below in
      elim (Bool-cases (leb end (sub64 p 16) || ltb (sub64 end p) wanted)) [
        | inl bad ↦ absurd (let z : none ≡ some (b, e) = (rw (cut_from, bad) at h) in cc)
        | inr good ↦
            let (first, last) =
              some_pair (sub64 p 16, stop p end wanted) (b, e) (rw (cut_from, good) at h) in
            let start_of : b + 16 ≡ p = omega arith in
            let fits : p + wanted ≤ end = ground arith in
            record {
              front = ground arith;
              even_start = omega arith;
              aligned = rw start_of i.aligned;
              room = ground arith;
              back = ground arith;
              even_end = ground arith;
            }
      ]
