-- ===== src/Vfs/Names/Busy.antt =====
-- kernel/fs/vfs.cpp: nothing that is mounted or open is taken away.
use shirleys_os.Vfs.{
  Vfs, Mount, Node, OpenFile, FileSystem, max_path_length, max_name_length, max_open_files,
  is_directory,
}
use shirleys_os.Vfs.Paths.{normalize, path_starts_with, slash, copied, remove_last_component}
use shirleys_os.Vfs.Mounts.{stat}
use shirleys_os.Vfs.Mounts.Table.{IsSame, IsSame-storage}
use shirleys_os.Vfs.Names.{
  Parent, parent_of, remove, remove_node, covers_mount, covers_open_file, covers_mount_from,
  covers_file_from, leaf_from,
}
use shirleys_os.Text.{equals}
use shirleys_os.Io.{Error}
use shirleys_os.Prelude.{
  subst, Sum-cases, ℕ, zero, suc, ◌+◌, ◌≤◌, ◌<◌, ◌≡◌, ◌≢◌, ◌⊎◌, inl, inr, false, some, none, arith,
  refl, Option, Bool-cases, Option-cases, ℕ_discrete, ◌||◌, ◌&&◌, ◌==◌, List, [], ◌∷◌,
}

-- No mount and no open file lies at a path or beneath it.
pub record IsQuiet {S : Type 0} (v : Vfs S) (path : List ℕ) : Type 0 where
  pub no_mount : (i : ℕ) → i < v.mount_total → path_starts_with (v.mounts i).path path ≡ false
  pub no_file :
      (i : ℕ)
      → i < max_open_files
      → ((v.files i).used && path_starts_with (v.files i).node.path path) ≡ false

covers_mount_from-false :
    (mounts : ℕ → Mount) (path : List ℕ) (left i : ℕ)
    → covers_mount_from mounts path left i ≡ false
    → (k : ℕ) → i ≤ k
    → k < i + left
    → path_starts_with (mounts k).path path ≡ false
unfolding covers_mount_from
covers_mount_from-false mounts path zero i e k h l = absurd (omega arith)
covers_mount_from-false mounts path (suc left) i e k h l =
    elim (Bool-cases (path_starts_with (mounts i).path path)) [
      | inl t ↦ absurd (ground arith)
      | inr f ↦ elim (ℕ_discrete k i) [
        | yes same ↦ rw same f
        | no ne ↦
            covers_mount_from-false mounts path left (i + 1) (ground arith) k (omega arith)
              (omega arith)
      ]
    ]

covers_file_from-false :
    (files : ℕ → OpenFile) (path : List ℕ) (left i : ℕ)
    → covers_file_from files path left i ≡ false
    → (k : ℕ) → i ≤ k
    → k < i + left
    → ((files k).used && path_starts_with (files k).node.path path) ≡ false
unfolding covers_file_from
covers_file_from-false files path zero i e k h l = absurd (omega arith)
covers_file_from-false files path (suc left) i e k h l =
    elim (Bool-cases ((files i).used && path_starts_with (files i).node.path path)) [
      | inl t ↦ absurd (ground arith)
      | inr f ↦ elim (ℕ_discrete k i) [
        | yes same ↦ rw same f
        | no ne ↦
            covers_file_from-false files path left (i + 1) (ground arith) k (omega arith)
              (omega arith)
      ]
    ]

module _ {S : Type 0} where
  pub covers-IsQuiet :
      (v : Vfs S) (path : List ℕ)
      → (covers_mount v path || covers_open_file v path) ≡ false
      → IsQuiet v path
  unfolding covers_mount covers_open_file
  covers-IsQuiet v path e = record {
    no_mount = λ i l.
        covers_mount_from-false v.mounts path v.mount_total 0 (ground arith) i (omega arith)
          (omega arith);
    no_file = λ i l.
        covers_file_from-false v.files path max_open_files 0 (ground arith) i (omega arith)
          (omega arith);
  }

  pub IsQuiet-IsSame : (v w : Vfs S) (path : List ℕ) → IsSame v w → IsQuiet v path → IsQuiet w path
  IsQuiet-IsSame v w path s q = record {
    no_mount = λ i l. rw s.mounts (q.no_mount i (rw s.mount_total at l));
    no_file = λ i l. rw s.files (q.no_file i l);
  }

module _ {S : Type 0} (systems : ℕ → FileSystem S) where
  -- What `parent_of` finds belongs to the normalized path, and it leaves the tables alone.
  abbrev pub Found : List ℕ → Error ⊎ Parent → Type 0
  Found p (inl e) = e ≢ Error.none
  Found p (inr f) = f.normalized ≡ p

  pub parent_of-Found :
      (v : Vfs S) (path : List ℕ) (base : Option (List ℕ)) (p : List ℕ)
      → normalize path base max_path_length ≡ some p
      → Found p (parent_of systems v (some path) base).0
  unfolding parent_of
  parent_of-Found v path base p e = elim (Bool-cases (equals p (slash ∷ []))) [
    | inl root ↦ rw (e, parent_of, root) (λ h. cc)
    | inr below ↦ elim (Option-cases (copied (max_name_length + 1) (leaf_from p p))) [
      | inl f ↦ rw (e, parent_of, below, f) (λ h. cc)
      | inr (leaf, f) ↦ elim (Option-cases (copied max_path_length p)) [
        | inl g ↦ rw (e, parent_of, below, f, g) (λ h. cc)
        | inr (whole, g) ↦
            elim (Option-cases (stat systems v (some (remove_last_component whole)) none).0) [
              | inl h ↦ rw (e, parent_of, below, f, g, h) (λ k. cc)
              | inr (parent, h) ↦ elim (Bool-cases (is_directory parent)) [
                | inr other ↦ rw (e, parent_of, below, f, g, h, other) (λ k. cc)
                | inl dir ↦ rw (e, parent_of, below, f, g, h, dir) refl
              ]
            ]
      ]
    ]
  ]

  remove_node-IsQuiet :
      (v : Vfs S) (f : Parent) (node : Node)
      → (remove_node systems v f node).0 ≡ Error.none
      → IsQuiet (remove_node systems v f node).1 f.normalized
  unfolding remove_node
  remove_node-IsQuiet v f node h =
      elim (Bool-cases (covers_mount v f.normalized || covers_open_file v f.normalized)) [
        | inl busy ↦ (let z : Error.busy ≡ Error.none = (rw busy at h) in absurd cc)
        | inr quiet ↦ elim (Bool-cases (node.filesystem == f.parent.filesystem)) [
          | inr other ↦ (let z : Error.busy ≡ Error.none = (rw (quiet, other) at h) in absurd cc)
          | inl same ↦
              elim (Bool-cases ((systems f.parent.filesystem).writable v.storage f.parent)) [
                | inr fixed ↦
                    (let z : Error.read_only ≡ Error.none = (rw (quiet, same, fixed) at h) in
                      absurd cc)
                | inl open_to ↦
                    rw (quiet, same, open_to)
                      (IsQuiet-IsSame v _ f.normalized (IsSame-storage v _)
                        (covers-IsQuiet v f.normalized quiet))
              ]
        ]
      ]

  -- If `remove` says that it has removed what a path names, no mount and no open file lies at that path
  -- or beneath it, so none is left without its node.
  pub remove-IsQuiet :
      (v : Vfs S) (path : List ℕ) (base : Option (List ℕ)) (p : List ℕ)
      → normalize path base max_path_length ≡ some p
      → (remove systems v (some path) base).0 ≡ Error.none
      → IsQuiet (remove systems v (some path) base).1 p
  unfolding remove
  remove-IsQuiet v path base p e h =
      let found = parent_of-Found v path base p e in
      elim (Sum-cases (parent_of systems v (some path) base).0) [
        | inl (x, f) ↦
            (let ne : x ≢ Error.none = (rw f at found) in
              let z : x ≡ Error.none = (rw (f, remove) at h) in absurd (ne z))
        | inr (q, f) ↦
            (let same : q.normalized ≡ p = (rw f at found) in
              let v1 = (parent_of systems v (some path) base).1 in
              let v2 = (stat systems v1 (some q.normalized) none).1 in
              elim (Option-cases (stat systems v1 (some q.normalized) none).0) [
                | inl g ↦
                    (let z : Error.not_found ≡ Error.none = (rw (f, remove, g) at h) in absurd cc)
                | inr (node, g) ↦
                    (let z : (remove_node systems v2 q node).0 ≡ Error.none =
                        (rw (f, remove, g) at h) in
                      rw (f, remove, g)
                        (subst (IsQuiet (remove_node systems v2 q node).1) same
                          (remove_node-IsQuiet v2 q node z)))
              ])
      ]
