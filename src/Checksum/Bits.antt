-- ===== src/Checksum/Bits.antt =====
-- Exclusive or and masks of binary numbers, by their lowest digits.
use shirleys_os.Prelude.{
  ℕ, ◌+◌, ◌*◌, ◌/◌, ◌%◌, ◌^◌, ◌≤◌, ◌<◌, ◌≡◌, zero, suc, refl, arith, sym, ◌∙◌, ap,
}
use native.Mathlib.Nat.{mul_assoc}
use Prim.Native.Nat.{
  bitwise, min, bit_and, bit_xor, digits, differ, bit_and-bitwise, bit_xor-bitwise,
}

-- Both operations run over their digits on as many rounds as the first number; more change nothing.
module _ (z : ℕ → ℕ) (f : ℕ → ℕ → ℕ) where
  digits_rounds : (n m a b : ℕ) → a ≤ n → a ≤ m → digits z f n a b ≡ digits z f m a b
  digits_rounds n m zero b p q = digits_zero n b ∙ sym (digits_zero m b)
    where
      digits_zero : (k c : ℕ) → digits z f k 0 c ≡ z c
      digits_zero zero c = refl
      digits_zero (suc k) c = refl
  digits_rounds zero m (suc a) b p q = absurd (omega arith)
  digits_rounds (suc n) zero (suc a) b p q = absurd (omega arith)
  digits_rounds (suc n) (suc m) (suc a) b p q =
      ap (λ (x : ℕ). x * 2 + f (suc a % 2) (b % 2))
        (digits_rounds n m (suc a / 2) (b / 2) (omega arith) (omega arith))

  -- The law of the lowest digit, for an operation that has it once the first number has run out.
  bitwise_lowest :
      ((c : ℕ) → z c ≡ z (c / 2) * 2 + f 0 (c % 2))
      → (a b : ℕ) → bitwise z f a b ≡ bitwise z f (a / 2) (b / 2) * 2 + f (a % 2) (b % 2)
  bitwise_lowest law zero b = law b
  bitwise_lowest law (suc a) b =
      ap (λ (x : ℕ). x * 2 + f (suc a % 2) (b % 2))
        (digits_rounds a (suc a / 2) (suc a / 2) (b / 2) (omega arith) (omega arith))

differ_digits : (x y : ℕ) → x < 2 → y < 2 → differ x y ≡ (x + y) % 2
differ_digits zero y p q = omega arith
differ_digits (suc zero) zero p q = refl
differ_digits (suc zero) (suc zero) p q = refl
differ_digits (suc zero) (suc (suc y)) p q = absurd (omega arith)
differ_digits (suc (suc x)) y p q = absurd (omega arith)

pub bit_xor_step : (a b : ℕ) → bit_xor a b ≡ bit_xor (a / 2) (b / 2) * 2 + (a % 2 + b % 2) % 2
bit_xor_step a b = omega (
  arith,
  bit_xor-bitwise a b,
  bit_xor-bitwise (a / 2) (b / 2),
  bitwise_lowest (λ c. c) differ
      (λ c. omega (arith, differ_digits 0 (c % 2) (omega arith) (omega arith))) a b,
  differ_digits (a % 2) (b % 2) (omega arith) (omega arith),
)

pub masked_lowest : (a b : ℕ) → bit_and a b ≡ bit_and (a / 2) (b / 2) * 2 + min (a % 2) (b % 2)
masked_lowest a b = omega (
  arith,
  bit_and-bitwise a b,
  bit_and-bitwise (a / 2) (b / 2),
  bitwise_lowest (λ c. 0) min (λ c. omega arith) a b,
)

pub bit_xor_half : (a b : ℕ) → bit_xor a b / 2 ≡ bit_xor (a / 2) (b / 2)
bit_xor_half a b = omega (arith, bit_xor_step a b)

pub bit_xor_lowest : (a b : ℕ) → bit_xor a b % 2 ≡ (a % 2 + b % 2) % 2
bit_xor_lowest a b = omega (arith, bit_xor_step a b)

assoc_rounds :
    (n a b c : ℕ) → a ≤ n → b ≤ n → c ≤ n → bit_xor (bit_xor a b) c ≡ bit_xor a (bit_xor b c)
assoc_rounds zero a b c p q r =
    let x : a ≡ 0 = omega arith in
    let y : b ≡ 0 = omega arith in let w : c ≡ 0 = omega arith in rw (x, y, w) refl
assoc_rounds (suc n) a b c p q r = omega (
  arith,
  bit_xor_step (bit_xor a b) c,
  bit_xor_step a (bit_xor b c),
  bit_xor_lowest a b,
  bit_xor_lowest b c,
  ap (λ (x : ℕ). bit_xor x (c / 2)) (bit_xor_half a b),
  ap (bit_xor (a / 2)) (bit_xor_half b c),
  assoc_rounds n (a / 2) (b / 2) (c / 2) (omega arith) (omega arith) (omega arith),
)

pub bit_xor_assoc : (a b c : ℕ) → bit_xor (bit_xor a b) c ≡ bit_xor a (bit_xor b c)
bit_xor_assoc a b c = assoc_rounds (a + b + c) a b c (omega arith) (omega arith) (omega arith)

comm_rounds : (n a b : ℕ) → a ≤ n → b ≤ n → bit_xor a b ≡ bit_xor b a
comm_rounds zero a b p q =
    let x : a ≡ 0 = omega arith in let y : b ≡ 0 = omega arith in rw (x, y) refl
comm_rounds (suc n) a b p q = omega (
  arith,
  bit_xor_step a b,
  bit_xor_step b a,
  comm_rounds n (a / 2) (b / 2) (omega arith) (omega arith),
)

pub bit_xor_comm : (a b : ℕ) → bit_xor a b ≡ bit_xor b a
bit_xor_comm a b = comm_rounds (a + b) a b (omega arith) (omega arith)

self_rounds : (n a : ℕ) → a ≤ n → bit_xor a a ≡ 0
self_rounds zero a p = let x : a ≡ 0 = omega arith in rw x refl
self_rounds (suc n) a p = omega (arith, bit_xor_step a a, self_rounds n (a / 2) (omega arith))

-- The same number twice is no change.
pub bit_xor_twice : (p a : ℕ) → bit_xor p (bit_xor p a) ≡ a
bit_xor_twice p a =
    sym (bit_xor_assoc p p a)
    ∙ ap (λ (x : ℕ). bit_xor x a) (self_rounds p p (omega arith))
    ∙ bit_xor-bitwise 0 a

pub bit_xor_small : (k a b : ℕ) → a < 2 ^ k → b < 2 ^ k → bit_xor a b < 2 ^ k
bit_xor_small zero a b p q =
    let x : a ≡ 0 = omega arith in let y : b ≡ 0 = omega arith in rw (x, y) (omega arith)
bit_xor_small (suc k) a b p q =
    omega (arith, bit_xor_step a b, bit_xor_small k (a / 2) (b / 2) (omega arith) (omega arith))

-- Digits apart from each other add up.
pub bit_xor_apart : (k low high : ℕ) → low < 2 ^ k → bit_xor low (high * 2 ^ k) ≡ low + high * 2 ^ k
bit_xor_apart zero low high p =
    let x : low ≡ 0 = omega arith in
    let e = bit_xor-bitwise 0 (high * 2 ^ 0) in rw x (omega (arith, e))
bit_xor_apart (suc k) low high p =
    let power : 2 ^ suc k ≡ 2 ^ k * 2 = omega arith in
    let twice : high * 2 ^ suc k ≡ high * 2 ^ k * 2 = (rw power (sym (mul_assoc high (2 ^ k) 2))) in
    let half : high * 2 ^ suc k / 2 ≡ high * 2 ^ k = omega (arith, twice) in
    omega (
      arith,
      twice,
      bit_xor_step low (high * 2 ^ suc k),
      ap (bit_xor (low / 2)) half,
      bit_xor_apart k (low / 2) high (omega arith),
    )

mask_zero_rounds : (n a : ℕ) → a ≤ n → bit_and a 0 ≡ 0
mask_zero_rounds zero a p = let x : a ≡ 0 = omega arith in rw x refl
mask_zero_rounds (suc n) a p =
    omega (arith, masked_lowest a 0, mask_zero_rounds n (a / 2) (omega arith))

-- One more one in the mask is one more digit.
mask_longer :
    (a m w : ℕ)
    → bit_and (a / 2) m ≡ a / 2 % w
    → 0 < w
    → bit_and a (m * 2 + 1) ≡ a / 2 % w * 2 + a % 2
mask_longer a m w e p =
    let half : (m * 2 + 1) / 2 ≡ m = omega arith in
    omega (arith, masked_lowest a (m * 2 + 1), ap (bit_and (a / 2)) half, e)

-- The mask of the lowest byte.
pub bit_and_byte : (a : ℕ) → bit_and a 0xFF ≡ a % 256
bit_and_byte a =
    let m1 = λ (x : ℕ).
      mask_longer x 0 1 (omega (arith, mask_zero_rounds (x / 2) (x / 2) (omega arith)))
        (omega arith) in
    let m2 = λ (x : ℕ). mask_longer x 1 2 (omega (arith, m1 (x / 2))) (omega arith) in
    let m3 = λ (x : ℕ). mask_longer x 3 4 (omega (arith, m2 (x / 2))) (omega arith) in
    let m4 = λ (x : ℕ). mask_longer x 7 8 (omega (arith, m3 (x / 2))) (omega arith) in
    let m5 = λ (x : ℕ). mask_longer x 15 16 (omega (arith, m4 (x / 2))) (omega arith) in
    let m6 = λ (x : ℕ). mask_longer x 31 32 (omega (arith, m5 (x / 2))) (omega arith) in
    let m7 = λ (x : ℕ). mask_longer x 63 64 (omega (arith, m6 (x / 2))) (omega arith) in
    let m8 = mask_longer a 127 128 (omega (arith, m7 (a / 2))) (omega arith) in omega (arith, m8)
