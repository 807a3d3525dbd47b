-- ===== src/Vfs/Names/Move.antt =====
-- kernel/fs/vfs.cpp: `rename`.
use shirleys_os.Vfs.{Vfs, Node, FileSystem, max_path_length}
use shirleys_os.Vfs.Paths.{normalize, path_starts_with}
use shirleys_os.Vfs.Mounts.{stat}
use shirleys_os.Vfs.Mounts.Table.{IsSame-storage}
use shirleys_os.Vfs.Names.{
  Parent, parent_of, rename, rename_between, rename_node, covers_mount, covers_open_file,
}
use shirleys_os.Vfs.Names.Busy.{IsQuiet, IsQuiet-IsSame, covers-IsQuiet, parent_of-Found}
use shirleys_os.Text.{equals}
use shirleys_os.Io.{Error}
use shirleys_os.Prelude.{
  refl, ℕ, ◌≡◌, ◌≢◌, ◌⊎◌, inl, inr, true, false, some, none, Option, Bool-cases, Option-cases,
  Sum-cases, not, ◌||◌, ◌==◌, List,
}

module _ {S : Type 0} (systems : ℕ → FileSystem S) where
  -- The old path is quiet, and the new one is not beneath it.
  abbrev Moved : Vfs S → List ℕ → List ℕ → Type 0
  Moved v p q = IsQuiet v p × (path_starts_with q p ≡ false)

  rename_node-Moved :
      (v : Vfs S) (f t : Parent) (node : Node)
      → (rename_node systems v f t node).0 ≡ Error.none
      → Moved (rename_node systems v f t node).1 f.normalized t.normalized
  unfolding rename_node
  rename_node-Moved v f t node h =
      elim (Bool-cases (covers_mount v f.normalized || covers_open_file v f.normalized)) [
        | inl busy ↦ (let z : Error.busy ≡ Error.none = (rw busy at h) in absurd cc)
        | inr quiet ↦
            elim (Bool-cases (
              not (node.filesystem == f.parent.filesystem)
              || not (t.parent.filesystem == f.parent.filesystem))) [
                | inl other ↦
                    (let z : Error.unsupported ≡ Error.none = (rw (quiet, other) at h) in absurd cc)
                | inr same ↦ elim (Bool-cases (path_starts_with t.normalized f.normalized)) [
                  | inl inside ↦
                      (let z : Error.invalid_argument ≡ Error.none =
                          (rw (quiet, same, inside) at h) in
                        absurd cc)
                  | inr outside ↦
                      elim (Bool-cases
                        ((systems f.parent.filesystem).writable v.storage f.parent)) [
                          | inr fixed ↦
                              (let z : Error.read_only ≡ Error.none =
                                  (rw (quiet, same, outside, fixed) at h) in
                                absurd cc)
                          | inl open_to ↦
                              rw (quiet, same, outside, open_to)
                                (
                                  IsQuiet-IsSame v _ f.normalized (IsSame-storage v _)
                                      (covers-IsQuiet v f.normalized quiet),
                                  refl,
                                )
                        ]
                ]
              ]
      ]

  rename_between-Moved :
      (v : Vfs S) (f t : Parent)
      → (rename_between systems v f t).0 ≡ Error.none
      → (equals f.normalized t.normalized ≡ true)
        ⊎ Moved (rename_between systems v f t).1 f.normalized t.normalized
  unfolding rename_between
  rename_between-Moved v f t h =
      let v1 = (stat systems v (some f.normalized) none).1 in
      let v2 = (stat systems v1 (some t.normalized) none).1 in
      elim (Option-cases (stat systems v (some f.normalized) none).0) [
        | inl g ↦
            (let z : Error.not_found ≡ Error.none = (rw (g, rename_between) at h) in absurd cc)
        | inr (node, g) ↦ elim (Bool-cases (equals f.normalized t.normalized)) [
          | inl same ↦ inl same
          | inr differs ↦ elim (Option-cases (stat systems v1 (some t.normalized) none).0) [
            | inr (other, k) ↦
                (let z : Error.already_exists ≡ Error.none =
                    (rw (g, rename_between, differs, k) at h) in
                  absurd cc)
            | inl k ↦
                (let z : (rename_node systems v2 f t node).0 ≡ Error.none =
                    (rw (g, rename_between, differs, k) at h) in
                  rw (g, rename_between, differs, k) (inr (rename_node-Moved v2 f t node z)))
          ]
        ]
      ]

  -- If `rename` says that it is done, the two paths are the same, or else no mount and no open file lies
  -- at the old path or beneath it, and the new path is not beneath the old one.
  pub rename-IsQuiet :
      (v : Vfs S) (from to : List ℕ) (base : Option (List ℕ)) (p q : List ℕ)
      → normalize from base max_path_length ≡ some p
      → normalize to base max_path_length ≡ some q
      → (rename systems v (some from) (some to) base).0 ≡ Error.none
      → (equals p q ≡ true)
        ⊎ (IsQuiet (rename systems v (some from) (some to) base).1 p
            × (path_starts_with q p ≡ false))
  unfolding rename
  rename-IsQuiet v from to base p q e e' h =
      let v1 = (parent_of systems v (some from) base).1 in
      let v2 = (parent_of systems v1 (some to) base).1 in
      let found = parent_of-Found systems v from base p e in
      let found' = parent_of-Found systems v1 to base q e' in
      elim (Sum-cases (parent_of systems v (some from) base).0) [
        | inl (x, f) ↦
            (let ne : x ≢ Error.none = (rw f at found) in
              let z : x ≡ Error.none = (rw (f, rename) at h) in absurd (ne z))
        | inr (source, f) ↦
            (let same : source.normalized ≡ p = (rw f at found) in
              elim (Sum-cases (parent_of systems v1 (some to) base).0) [
                | inl (x, g) ↦
                    (let ne : x ≢ Error.none = (rw g at found') in
                      let z : x ≡ Error.none = (rw (f, rename, g) at h) in absurd (ne z))
                | inr (target, g) ↦
                    (let same' : target.normalized ≡ q = (rw g at found') in
                      let z : (rename_between systems v2 source target).0 ≡ Error.none =
                        (rw (f, rename, g) at h) in
                      rw (f, rename, g)
                        (rw⁻¹ (same, same') (rename_between-Moved v2 source target z)))
              ])
      ]
