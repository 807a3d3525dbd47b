-- ===== src/Vfs.antt =====
-- include/shirley/vfs.hpp and kernel/fs/vfs.cpp: the virtual file system. A path is its text, a file
-- system its address, 0 for a null pointer, and `S` the state that the file systems share.
pub mod Paths
pub mod Mounts
pub mod Files
pub mod Names
pub mod Listing
mod Tests
use shirleys_os.Io.{Error, Result}
use shirleys_os.Process.{OpenFlags}
use shirleys_os.Prelude.{ℕ, Bool, true, false, List, [], Option, none, some}

abbrev pub max_path_length : ℕ
max_path_length = 512

abbrev pub max_name_length : ℕ
max_name_length = 255

abbrev pub max_mounts : ℕ
max_mounts = 4

abbrev pub max_open_files : ℕ
max_open_files = 16

pub data NodeType : Type 0 where
  regular directory character_device block_device : NodeType

-- `device` is the address of a device object, 0 for a null pointer.
pub record Node : Type 0 where
  pub filesystem : ℕ
  pub id : ℕ
  pub device : ℕ
  pub type : NodeType
  pub size : ℕ
  pub name : List ℕ
  pub path : List ℕ

unfoldable pub is_directory : Node → Bool
is_directory n = elim n.type [ directory ↦ true | _ ↦ false ]

unfoldable pub is_regular : Node → Bool
is_regular n = elim n.type [ regular ↦ true | _ ↦ false ]

-- The virtual functions of a file system.
pub record FileSystem (S : Type 0) : Type 0 where
  pub root : S → Option Node × S
  pub lookup : S → Node → List ℕ → Option Node × S
  pub list : S → Node → ℕ → Option Node × S
  pub read : S → Node → ℕ → Bool → ℕ → Result × List ℕ × S
  pub write : S → Node → ℕ → Option (ℕ → ℕ) → ℕ → Result × S
  pub writable : S → Node → Bool
  pub create : S → Node → List ℕ → NodeType → Error × Node × S
  pub remove : S → Node → List ℕ → Error × S
  pub rename : S → Node → List ℕ → Node → List ℕ → Error × S
  pub truncate : S → Node → ℕ → Error × S
  pub sync : S → Error × S

pub record Mount : Type 0 where
  pub path : List ℕ
  pub filesystem : ℕ

pub record OpenFile : Type 0 where
  pub used : Bool
  pub node : Node
  pub position : ℕ
  pub flags : OpenFlags

abbrev pub no_node : Node
no_node = record {
  filesystem = 0;
  id = 0;
  device = 0;
  type = regular;
  size = 0;
  name = [];
  path = [];
}

abbrev pub no_file : OpenFile
no_file = record {
  used = false;
  node = no_node;
  position = 0;
  flags = record { reads = true; writes = false; creates = false; truncates = false };
}

abbrev pub no_mount : Mount
no_mount = record { path = []; filesystem = 0 }

-- The file's static variables, and the state of the file systems.
pub record Vfs (S : Type 0) : Type 0 where
  pub mounts : ℕ → Mount
  pub mount_total : ℕ
  pub files : ℕ → OpenFile
  pub storage : S

unfoldable pub initialize : {S : Type 0} → Vfs S → Vfs S
initialize v = record v { mounts = λ i. no_mount; mount_total = 0; files = λ i. no_file }
