-- ===== src/Vfs/Mounts/Table.antt =====
-- kernel/fs/vfs.cpp: what resolving a path leaves alone.
use shirleys_os.Vfs.{Vfs, FileSystem, max_path_length}
use shirleys_os.Vfs.Paths.{normalize}
use shirleys_os.Vfs.Mounts.{stat, mount_for}
use shirleys_os.Prelude.{ℕ, ◌≡◌, refl, List, Option, none, some, inl, inr, Option-cases, ◌∙◌}

-- The tables are the same; the state of the file systems may have changed.
pub record IsSame {S : Type 0} (v v' : Vfs S) : Type 0 where
  pub mounts : v'.mounts ≡ v.mounts
  pub mount_total : v'.mount_total ≡ v.mount_total
  pub files : v'.files ≡ v.files

pub IsSame-refl : {S : Type 0} → (v : Vfs S) → IsSame v v
IsSame-refl v = record { mounts = refl; mount_total = refl; files = refl }

pub IsSame-trans : {S : Type 0} → (v w u : Vfs S) → IsSame v w → IsSame w u → IsSame v u
IsSame-trans v w u a b = record {
  mounts = b.mounts ∙ a.mounts;
  mount_total = b.mount_total ∙ a.mount_total;
  files = b.files ∙ a.files;
}

pub IsSame-storage : {S : Type 0} → (v : Vfs S) (s : S) → IsSame v (record v { storage = s })
IsSame-storage v s = record { mounts = refl; mount_total = refl; files = refl }

pub stat-IsSame :
    {S : Type 0} (systems : ℕ → FileSystem S) (v : Vfs S) (path base : Option (List ℕ))
    → IsSame v (stat systems v path base).1
unfolding stat
stat-IsSame systems v none base = IsSame-refl v
stat-IsSame systems v (some path) base = elim (Option-cases (normalize path base max_path_length)) [
  | inl e ↦ rw (e, stat) (IsSame-refl v)
  | inr (p, e) ↦ elim (Option-cases (mount_for v p)) [
    | inl f ↦ rw (e, stat, f) (IsSame-refl v)
    | inr (i, f) ↦ rw (e, stat, f) (IsSame-storage v _)
  ]
]
