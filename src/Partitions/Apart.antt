-- ===== src/Partitions/Apart.antt =====
-- kernel/fs/partition.cpp over drivers/block/ram_disk.cpp: two partitions of one disk.
use shirleys_os.Devices.{given}
use shirleys_os.Blocks.RamDisk.Laws.{read_blocks-write_blocks, whole}
use shirleys_os.Blocks.RamDisk.Bounds.{IsDisk}
use shirleys_os.Blocks.RamDisk.{RamDisk, block_count, out_of_range, block_device}
use shirleys_os.Partitions.Window.{Partition, read_blocks, write_blocks}
use shirleys_os.Blocks.RamDisk
use shirleys_os.Blocks.RamDisk.Bounds.{small_count, accepted}
use shirleys_os.Prelude.{
  refl, ltb, ◌&&◌, inr, ◌==◌, inl, not, ◌-◌, u64_mod, arith, ◌%◌, slice, ◌⊎◌, ◌≤◌, ◌≡◌, ℕ, some,
  true, false, ◌*◌, ◌+◌, ◌||◌,
}
use native.Mathlib.Nat.{mod-eq_of_lt}

-- A partition of the disk `d`.
pub record IsPartition (d : RamDisk) (p : Partition RamDisk) : Type 0 where
  pub on : p.disk ≡ some block_device
  pub inside : p.first + p.count ≤ block_count d

module _ (d : RamDisk) (storage : ℕ → ℕ) (v : IsDisk d storage) where
  module _ (p : Partition RamDisk) (part : IsPartition d p) where
    write-window :
        (first n : ℕ) (source : ℕ → ℕ)
        → first + n ≤ p.count
        → write_blocks p d first n (some source)
          ≡ RamDisk.write_blocks d (p.first + first) n (some source)
    unfolding write_blocks given
    write-window first n source l =
        let i = part.inside in
        let exact : (p.first + first) % u64_mod ≡ p.first + first =
          mod-eq_of_lt (small_count d storage v (p.first + first) (omega arith)) in
        let given_ok : (not (n == 0) && not true) ≡ false = ground arith in
        let ok : (ltb p.count first || ltb (p.count - first) n) ≡ false = ground arith in
        rw (given_ok, part.on, ok, exact) refl

    read-window :
        (e : RamDisk) (first n : ℕ)
        → first + n ≤ p.count
        → read_blocks p e first n true ≡ RamDisk.read_blocks e (p.first + first) n true
    unfolding read_blocks
    read-window e first n l =
        let i = part.inside in
        let exact : (p.first + first) % u64_mod ≡ p.first + first =
          mod-eq_of_lt (small_count d storage v (p.first + first) (omega arith)) in
        let given_ok : (not (n == 0) && not true) ≡ false = ground arith in
        let ok : (ltb p.count first || ltb (p.count - first) n) ≡ false = ground arith in
        rw (given_ok, part.on, ok, exact) refl

  -- What a write of `n` blocks at `first` through `p` does, seen through `p` and through `q`.
  pub record IsApart (p q : Partition RamDisk) (first n other m : ℕ) (source : ℕ → ℕ) : Type 0 where
    pub complete : (write_blocks p d first n (some source)).0 ≡ whole d n
    pub read_back :
        (read_blocks p (write_blocks p d first n (some source)).1 first n true).1
        ≡ slice source 0 (n * d.block_bytes)
    pub elsewhere :
        (read_blocks q (write_blocks p d first n (some source)).1 other m true).1
        ≡ (read_blocks q d other m true).1

  -- For two partitions of one RAM disk that has storage, with ranges that do not overlap: a write within
  -- one of them is complete and is read back through it, and what the other holds stays as it was.
  pub write_blocks-IsApart :
      (p q : Partition RamDisk) (first n other m : ℕ) (source : ℕ → ℕ)
      → IsPartition d p
      → IsPartition d q
      → (q.first + q.count ≤ p.first) ⊎ (p.first + p.count ≤ q.first)
      → first + n ≤ p.count
      → other + m ≤ q.count
      → IsApart p q first n other m source
  write_blocks-IsApart p q first n other m source on_p on_q apart l k =
      let i = on_p.inside in
      let j = on_q.inside in
      let r =
        read_blocks-write_blocks d storage v (p.first + first) n (q.first + other) m source
          (accepted d storage v (p.first + first) n (omega arith))
          (accepted d storage v (q.first + other) m (omega arith))
          (elim apart [ inl a ↦ inl (omega arith) | inr a ↦ inr (omega arith) ]) in
      let w = write-window p on_p first n source l in
      record {
        complete = rw w (r.complete);
        read_back = rw (w, read-window p on_p _ first n l) (r.read_back);
        elsewhere =
            rw (w, read-window q on_q _ other m k, read-window q on_q d other m k) (r.elsewhere);
      }
