-- ===== src/Shrfs/Bytes.antt =====
-- kernel/fs/shrfs.cpp: read_bytes puts the bytes of the device together, whatever the size of its blocks.
use shirleys_os.Shrfs.{bounce_bytes, Shrfs, read_bytes, bytes_from}
use shirleys_os.Io.{succeeded, BlockDevice}
use shirleys_os.Prelude.{
  ◌||◌, subst, sym, leb, ◌==◌, ltb, if◌then◌else◌, refl, ap, zero, suc, arith, u64_mod, ◌-◌, drop,
  take, ◌<◌, Option, ◌≡◌, ◌++◌, List, ◌≤◌, ℕ, ◌∷◌, some, true, false, ◌+◌, ◌*◌, ◌/◌, ◌%◌, slice,
}
use native.Mathlib.Nat.{div-add-mod', mod-lt, div-lt_iff_lt-mul, mod-eq_of_lt}

-- A device that holds `content` in `blocks` blocks of `block` bytes, in every state that it comes to
-- while it is read. A state that `Holds` describes is one in which the device works.
pub record IsStorage {W : Type 0} (disk : BlockDevice W) (Holds : W → Type 0) (content : ℕ → ℕ)
    (blocks block : ℕ) : Type 0 where
  pub size_of : (w : W) → Holds w → disk.block_size w ≡ block
  pub count_of : (w : W) → Holds w → disk.block_count w ≡ blocks
  pub works :
      (w : W) (index : ℕ)
      → Holds w
      → index < blocks
      → succeeded (disk.read_blocks w index 1 true).0 ≡ true
  pub reads :
      (w : W) (index : ℕ)
      → Holds w
      → index < blocks
      → (disk.read_blocks w index 1 true).1 ≡ slice content (index * block) block
  pub keeps :
      (w : W) (index : ℕ) → Holds w → index < blocks → Holds (disk.read_blocks w index 1 true).2

take-slice : (f : ℕ → ℕ) (i n m : ℕ) → m ≤ n → take m (slice f i n) ≡ slice f i m
take-slice f i n zero l = refl
take-slice f i zero (suc m) l = absurd (omega arith)
take-slice f i (suc n) (suc m) l =
    ap (λ (x : List ℕ). f i ∷ x) (take-slice f (i + 1) n m (omega arith))

drop-slice : (f : ℕ → ℕ) (i n k : ℕ) → k ≤ n → drop k (slice f i n) ≡ slice f (i + k) (n - k)
drop-slice f i n zero l =
    let a : i + 0 ≡ i = omega arith in let b : n - 0 ≡ n = omega arith in rw (a, b) refl
drop-slice f i zero (suc k) l = absurd (omega arith)
drop-slice f i (suc n) (suc k) l =
    let a : i + suc k ≡ i + 1 + k = omega arith in
    let b : suc n - suc k ≡ n - k = omega arith in
    rw (a, b) (drop-slice f (i + 1) n k (omega arith))

slice-append : (f : ℕ → ℕ) (i m n : ℕ) → slice f i m ++ slice f (i + m) n ≡ slice f i (m + n)
slice-append f i zero n =
    let a : i + 0 ≡ i = omega arith in let b : 0 + n ≡ n = omega arith in rw (a, b) refl
slice-append f i (suc m) n =
    let a : i + suc m ≡ i + 1 + m = omega arith in
    let b : suc m + n ≡ suc (m + n) = omega arith in
    rw (a, b) (ap (λ (x : List ℕ). f i ∷ x) (slice-append f (i + 1) m n))

-- A result that is these bytes, and a state in which the device works.
abbrev pub Gives : {W : Type 0} → (W → Type 0) → List ℕ → Option (List ℕ) × W → Type 0
Gives Holds bytes r = (r.0 ≡ some bytes) × Holds r.1

module _ {W : Type 0} (disk : BlockDevice W) (Holds : W → Type 0) (content : ℕ → ℕ)
    (blocks block : ℕ) (v : IsStorage disk Holds content blocks block) (positive : 0 < block)
    (fits : blocks * block < u64_mod) where
  bytes_from-Gives :
      (left offset size : ℕ) (w : W)
      → size ≤ left
      → offset + size ≤ blocks * block
      → Holds w
      → Gives Holds (slice content offset size) (bytes_from disk block left offset size w)
  unfolding bytes_from
  bytes_from-Gives zero offset size w l inside h = let e : size ≡ 0 = omega arith in rw e (refl, h)
  bytes_from-Gives (suc left) offset zero w l inside h = (refl, h)
  bytes_from-Gives (suc left) offset (suc size) w l inside h =
      let index = offset / block in
      let within = offset % block in
      let amount = if ltb (suc size) (block - within) then suc size else block - within in
      let place : offset ≡ index * block + within = sym (div-add-mod' offset block) in
      let below : within < block = mod-lt offset positive in
      let there : index < blocks = (div-lt_iff_lt-mul positive).1 (omega arith) in
      let some_bytes : (0 < amount) × (amount ≤ suc size) × (within + amount ≤ block) =
        (ground arith, ground arith, ground arith) in
      let more : (suc size == 0) ≡ false = ground arith in
      let in_range : leb (disk.block_count w) index ≡ false =
        (let c = v.count_of w h in ground arith) in
      let exact : (offset + amount) % u64_mod ≡ offset + amount = mod-eq_of_lt (omega arith) in
      let w' = (disk.read_blocks w index 1 true).2 in
      let (found, held) =
        subst
          (λ (o : ℕ).
            Gives Holds (slice content (offset + amount) (suc size - amount))
              (bytes_from disk block left o (suc size - amount) w'))
          (sym exact)
          (bytes_from-Gives left (offset + amount) (suc size - amount) w' (omega arith)
            (omega arith) (v.keeps w index h there)) in
      let front : take amount (drop within (slice content (index * block) block))
          ≡ slice content offset amount =
        (let inner = drop-slice content (index * block) block within (omega arith) in
          let outer = take-slice content offset (block - within) amount (omega arith) in
          rw (inner, sym place) outer) in
      let whole : slice content offset amount ++ slice content (offset + amount) (suc size - amount)
          ≡ slice content offset (suc size) =
        (let sum : amount + (suc size - amount) ≡ suc size = omega arith in
          subst
            (λ (n : ℕ).
              slice content offset amount ++ slice content (offset + amount) (suc size - amount)
              ≡ slice content offset n)
            sum (slice-append content offset amount (suc size - amount))) in
      rw
        (
          more,
          bytes_from,
          in_range,
          v.works w index h there,
          found,
          v.reads w index h there,
          front,
          whole,
        )
        (refl, held)

  -- `read_bytes` on a range inside the device succeeds and gives the bytes of that range, for every size of
  -- the device's blocks up to the bounce buffer's.
  pub read_bytes-Gives :
      (s : Shrfs W) (offset size : ℕ) (w : W)
      → s.device ≡ some disk
      → block ≤ bounce_bytes
      → offset + size ≤ blocks * block
      → Holds w
      → Gives Holds (slice content offset size) (read_bytes s offset size w)
  unfolding read_bytes
  read_bytes-Gives s offset size w on small inside h =
      let same = v.size_of w h in
      let ok : (block == 0 || ltb bounce_bytes block) ≡ false = ground arith in
      rw (on, read_bytes, same, ok) (bytes_from-Gives size offset size w (omega arith) inside h)
