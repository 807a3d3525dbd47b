-- ===== src/Blocks/RamDisk/Bounds.antt =====
-- drivers/block/ram_disk.cpp: the range test keeps every access inside the storage.
use native.Mathlib.Nat.{
  mul-le-mul_left, le-div_iff_mul-le, mul-le-mul_right, div-mul-le_self, mod-eq_of_lt,
}
use shirleys_os.Prelude.{
  ◌-◌, ℕ, ◌+◌, ◌*◌, ◌/◌, ◌%◌, ◌≤◌, ◌<◌, ◌≡◌, ◌≢◌, false, some, arith, u64_mod,
}
use shirleys_os.Blocks.RamDisk.{RamDisk, block_count, out_of_range, is_null}

pub record IsDisk (d : RamDisk) (storage : ℕ → ℕ) : Type 0 where
  pub there : d.storage ≡ some storage
  pub blocky : d.block_bytes ≢ 0
  -- The size is a 64-bit number.
  pub small : d.bytes < u64_mod

block_count_of :
    (d : RamDisk) (storage : ℕ → ℕ) → IsDisk d storage → block_count d ≡ d.bytes / d.block_bytes
unfolding block_count is_null
block_count_of d storage v = let t = v.there in let b = v.blocky in ground arith

-- The product of a number of blocks that fits is the product of the machine, and fits.
pub blocks_fit :
    (d : RamDisk) (storage : ℕ → ℕ) (n : ℕ)
    → IsDisk d storage
    → n ≤ block_count d
    → n * d.block_bytes ≤ d.bytes
blocks_fit d storage n v l =
    let e = block_count_of d storage v in
    let a : n * d.block_bytes ≤ d.bytes / d.block_bytes * d.block_bytes =
      mul-le-mul_right d.block_bytes (omega arith) in
    omega (arith, a, div-mul-le_self d.bytes d.block_bytes)

in_range :
    (d : RamDisk) (first count : ℕ)
    → out_of_range (block_count d) d.block_bytes first count ≡ false
    → first + count ≤ block_count d
unfolding out_of_range
in_range d first count e = ground arith

pub record IsInside (d : RamDisk) (first count : ℕ) : Type 0 where
  pub offset_exact : first * d.block_bytes % u64_mod ≡ first * d.block_bytes
  pub bytes_exact : count * d.block_bytes % u64_mod ≡ count * d.block_bytes
  pub inside : first * d.block_bytes + count * d.block_bytes ≤ d.bytes

pub range-IsInside :
    (d : RamDisk) (storage : ℕ → ℕ) (first count : ℕ)
    → IsDisk d storage
    → out_of_range (block_count d) d.block_bytes first count ≡ false
    → IsInside d first count
range-IsInside d storage first count v e =
    let l = in_range d first count e in
    let all : (first + count) * d.block_bytes ≤ d.bytes =
      blocks_fit d storage (first + count) v l in
    let s = v.small in
    let apart : (first + count) * d.block_bytes ≡ first * d.block_bytes + count * d.block_bytes =
      omega arith in
    record {
      offset_exact = mod-eq_of_lt (omega arith);
      bytes_exact = mod-eq_of_lt (omega arith);
      inside = omega arith;
    }

module _ (d : RamDisk) (storage : ℕ → ℕ) (v : IsDisk d storage) where
  pub small_count : (n : ℕ) → n ≤ block_count d → n < u64_mod
  small_count n l =
      let b = v.blocky in
      let s = v.small in
      let h = blocks_fit d storage n v l in
      let k : n * 1 ≤ n * d.block_bytes = mul-le-mul_left n (omega arith) in omega arith

  -- A range inside the disk passes the range test.
  pub accepted :
      (first n : ℕ)
      → first + n ≤ block_count d
      → out_of_range (block_count d) d.block_bytes first n ≡ false
  unfolding out_of_range
  accepted first n l =
      let b = v.blocky in
      let s = v.small in
      let fits = blocks_fit d storage n v (omega arith) in
      let positive : 0 < d.block_bytes = omega arith in
      let product : n ≤ (u64_mod - 1) / d.block_bytes =
        (le-div_iff_mul-le positive).1 (omega arith) in
      ground arith
