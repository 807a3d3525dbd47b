-- ===== src/Blocks/RamDisk/Laws.antt =====
-- drivers/block/ram_disk.cpp: what a write changes and what a read gives.
use native.Mathlib.Nat.{mul-le-mul_right}
use shirleys_os.Prelude.{
  Option, ap, ℕ, ◌+◌, ◌*◌, ◌≤◌, ◌<◌, ◌≡◌, ◌⊎◌, inl, inr, true, false, some, arith, refl, slice,
  slice_ext, copy_bytes, copy_bytes_at, copy_bytes_elsewhere, ◌==◌, not, ◌&&◌,
}
use shirleys_os.Blocks.RamDisk.{
  RamDisk, block_count, out_of_range, read_blocks, write_blocks, is_null,
}
use shirleys_os.Blocks.RamDisk.Bounds.{IsDisk, range-IsInside}
use shirleys_os.Io.{Error, Result}

-- The disk with the content that a write leaves.
abbrev pub written : RamDisk → (ℕ → ℕ) → ℕ → ℕ → (ℕ → ℕ) → RamDisk
written d storage first count source = record d {
  storage = some (copy_bytes storage (first * d.block_bytes) source (count * d.block_bytes) 0);
}

abbrev pub whole : RamDisk → ℕ → Result
whole d count = record { transferred = count * d.block_bytes; error = Error.none }

module _ (d : RamDisk) (storage : ℕ → ℕ) (v : IsDisk d storage) where
  apart_in_bytes :
      (first count other n k : ℕ)
      → (other + n ≤ first) ⊎ (first + count ≤ other)
      → k < n * d.block_bytes
      → (other * d.block_bytes + k < first * d.block_bytes)
        ⊎ (first * d.block_bytes + count * d.block_bytes ≤ other * d.block_bytes + k)
  apart_in_bytes first count other n k (inl h) l =
      inl (let m = mul-le-mul_right d.block_bytes h in omega arith)
  apart_in_bytes first count other n k (inr h) l =
      inr (let m = mul-le-mul_right d.block_bytes h in omega arith)

  pub read_blocks-slice :
      (first count : ℕ)
      → out_of_range (block_count d) d.block_bytes first count ≡ false
      → read_blocks d first count true
        ≡ (whole d count, slice storage (first * d.block_bytes) (count * d.block_bytes), d)
  unfolding read_blocks
  read_blocks-slice first count e =
      let i = range-IsInside d storage first count v e in
      let n : (d.block_bytes == 0) ≡ false = (let b = v.blocky in ground arith) in
      let g : (not (count == 0) && not true) ≡ false = ground arith in
      rw (g, n, v.there, e, i.offset_exact, i.bytes_exact)
        (ap
          (λ (o : Option (ℕ → ℕ)). (
            whole d count,
            slice storage (first * d.block_bytes) (count * d.block_bytes),
            record d { storage = o },
          ))
          v.there)

  pub write_blocks-written :
      (first count : ℕ) (source : ℕ → ℕ)
      → out_of_range (block_count d) d.block_bytes first count ≡ false
      → write_blocks d first count (some source)
        ≡ (whole d count, written d storage first count source)
  unfolding write_blocks is_null
  write_blocks-written first count source e =
      let i = range-IsInside d storage first count v e in
      let n : (d.block_bytes == 0) ≡ false = (let b = v.blocky in ground arith) in
      let g : (not (count == 0) && false) ≡ false = ground arith in
      rw (g, n, v.there, e, i.offset_exact, i.bytes_exact) refl

  written-IsDisk :
      (first count : ℕ) (source : ℕ → ℕ)
      → IsDisk
          (written d storage first count source)
          (copy_bytes storage (first * d.block_bytes) source (count * d.block_bytes) 0)
  written-IsDisk first count source = record { there = refl; blocky = v.blocky; small = v.small }

  written_block_count :
      (first count : ℕ) (source : ℕ → ℕ)
      → block_count (written d storage first count source) ≡ block_count d
  unfolding block_count is_null
  written_block_count first count source = (let t = v.there in rw t refl)

module _ (d : RamDisk) (storage : ℕ → ℕ) (v : IsDisk d storage) where
  pub record IsRoundTrip (first count other n : ℕ) (source : ℕ → ℕ) : Type 0 where
    pub complete : (write_blocks d first count (some source)).0 ≡ whole d count
    pub read_back :
        (read_blocks (write_blocks d first count (some source)).1 first count true).1
        ≡ slice source 0 (count * d.block_bytes)
    pub elsewhere :
        (read_blocks (write_blocks d first count (some source)).1 other n true).1
        ≡ (read_blocks d other n true).1

  -- A write in range is complete, a read of the same blocks gives what was written, and a read of
  -- blocks apart from them gives what it gave before.
  pub read_blocks-write_blocks :
      (first count other n : ℕ) (source : ℕ → ℕ)
      → out_of_range (block_count d) d.block_bytes first count ≡ false
      → out_of_range (block_count d) d.block_bytes other n ≡ false
      → (other + n ≤ first) ⊎ (first + count ≤ other)
      → IsRoundTrip first count other n source
  read_blocks-write_blocks first count other n source e f apart =
      let w = write_blocks-written d storage v first count source e in
      let d' = written d storage first count source in
      let v' = written-IsDisk d storage v first count source in
      let same = written_block_count d storage v first count source in
      let s = copy_bytes storage (first * d.block_bytes) source (count * d.block_bytes) 0 in
      let here = read_blocks-slice d' s v' first count (rw same e) in
      let there = read_blocks-slice d' s v' other n (rw same f) in
      let before = read_blocks-slice d storage v other n f in
      record {
        complete = rw w refl;
        read_back =
            rw (w, here)
              (slice_ext s source (first * d.block_bytes) 0 (count * d.block_bytes) (λ k l.
                (let z : 0 + k ≡ k = omega arith in
                  rw z (
                    copy_bytes_at storage source (first * d.block_bytes) (count * d.block_bytes) k
                      l))));
        elsewhere =
            rw (w, there, before)
              (slice_ext s storage (other * d.block_bytes) (other * d.block_bytes)
                (n * d.block_bytes)
                (λ k l.
                  copy_bytes_elsewhere storage source (first * d.block_bytes)
                    (count * d.block_bytes) (other * d.block_bytes + k)
                    (apart_in_bytes d storage v first count other n k apart l)));
      }
