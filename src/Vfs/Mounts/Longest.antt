-- ===== src/Vfs/Mounts/Longest.antt =====
-- kernel/fs/vfs.cpp: the mount that answers for a path.
use shirleys_os.Vfs.{Vfs, Mount}
use shirleys_os.Vfs.Paths.{path_starts_with}
use shirleys_os.Vfs.Mounts.{mount_for, mount_from}
use shirleys_os.Prelude.{
  inl, inr, ℕ, zero, suc, ◌+◌, ◌≤◌, ◌<◌, ◌≡◌, true, false, some, none, arith, refl, Option,
  Bool-cases, leb, ℕ_discrete, List, length,
}

module _ (mounts : ℕ → Mount) (path : List ℕ) where
  -- Of the mounts below `stop`: none covers the path, or this one does and has the longest path.
  abbrev pub Longest : ℕ → Option ℕ → Type 0
  Longest stop none = (k : ℕ) → k < stop → path_starts_with path (mounts k).path ≡ false
  Longest stop (some j) =
      (j < stop)
      × (path_starts_with path (mounts j).path ≡ true)
      × ((k : ℕ)
          → k < stop
          → path_starts_with path (mounts k).path ≡ true
          → length (mounts k).path ≤ length (mounts j).path)

  -- `best_length` is the length of the best path.
  abbrev Measured : Option ℕ → ℕ → Type 0
  Measured none n = Unit
  Measured (some j) n = n ≡ length (mounts j).path

  skip-Longest :
      (i : ℕ) (best : Option ℕ)
      → path_starts_with path (mounts i).path ≡ false
      → Longest i best
      → Longest (i + 1) best
  skip-Longest i none out h =
      λ k l. elim (ℕ_discrete k i) [ yes e ↦ rw e out | no ne ↦ h k (omega arith) ]
  skip-Longest i (some j) out (l, s, h) = (
    omega arith,
    s,
    λ k m t. elim (ℕ_discrete k i) [ yes e ↦ absurd (ground arith) | no ne ↦ h k (omega arith) t ],
  )

  shorter-Longest :
      (i j n : ℕ)
      → n ≡ length (mounts j).path
      → leb (length (mounts i).path) n ≡ true
      → Longest i (some j)
      → Longest (i + 1) (some j)
  shorter-Longest i j n e short (l, s, h) = (
    omega arith,
    s,
    λ k m t. elim (ℕ_discrete k i) [
      | yes same ↦ rw same (ground arith)
      | no ne ↦ h k (omega arith) t
    ],
  )

  take-Longest :
      (i : ℕ) (best : Option ℕ) (n : ℕ)
      → path_starts_with path (mounts i).path ≡ true
      → elim best [ none ↦ false | some j ↦ leb (length (mounts i).path) n ] ≡ false
      → Measured best n
      → Longest i best
      → Longest (i + 1) (some i)
  take-Longest i none n s longer m h = (
    omega arith,
    s,
    λ k l t. elim (ℕ_discrete k i) [
      | yes same ↦ rw same (omega arith)
      | no ne ↦ absurd (let z = h k (omega arith) in cc)
    ],
  )
  take-Longest i (some j) n s longer m (l, t, h) = (
    omega arith,
    s,
    λ k o u. elim (ℕ_discrete k i) [
      | yes same ↦ rw same (omega arith)
      | no ne ↦
          (let below = h k (omega arith) u in
            let above : n < length (mounts i).path = ground arith in omega arith)
    ],
  )

  mount_from-Longest :
      (left i stop : ℕ) (best : Option ℕ) (n : ℕ)
      → i + left ≡ stop
      → Measured best n
      → Longest i best
      → Longest stop (mount_from mounts path left i best n)
  unfolding mount_from
  mount_from-Longest zero i stop best n e m h = let same : stop ≡ i = omega arith in rw same h
  mount_from-Longest (suc left) i stop none n e m h =
      elim (Bool-cases (path_starts_with path (mounts i).path)) [
        | inr out ↦ rw out (
            mount_from-Longest left (i + 1) stop none n (omega arith) m (skip-Longest i none out h))
        | inl covers ↦ rw covers (
            mount_from-Longest left (i + 1) stop (some i) (length (mounts i).path) (omega arith)
              refl (take-Longest i none n covers refl m h))
      ]
  mount_from-Longest (suc left) i stop (some j) n e m h =
      elim (Bool-cases (path_starts_with path (mounts i).path)) [
        | inr out ↦ rw out (
            mount_from-Longest left (i + 1) stop (some j) n (omega arith) m
              (skip-Longest i (some j) out h))
        | inl covers ↦ elim (Bool-cases (leb (length (mounts i).path) n)) [
          | inl short ↦
              rw (covers, short)
                (mount_from-Longest left (i + 1) stop (some j) n (omega arith) m
                  (shorter-Longest i j n m short h))
          | inr longer ↦
              rw (covers, longer)
                (mount_from-Longest left (i + 1) stop (some i) (length (mounts i).path)
                  (omega arith) refl (take-Longest i (some j) n covers longer m h))
        ]
      ]

-- `mount_for` gives the mount whose path is the longest of those that cover the path, and none only if
-- none covers it.
pub mount_for-Longest :
    {S : Type 0} (v : Vfs S) (path : List ℕ)
    → Longest v.mounts path v.mount_total (mount_for v path)
unfolding mount_for
mount_for-Longest v path =
    mount_from-Longest v.mounts path v.mount_total 0 v.mount_total none 0 (omega arith) tt
      (λ k l. absurd (omega arith))
