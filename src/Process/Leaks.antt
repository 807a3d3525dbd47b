-- ===== src/Process/Leaks.antt =====
-- kernel/process/process.cpp: the descriptors of the file system that the table holds.
pub mod Open
pub mod Close
pub mod Run
use shirleys_os.Integers.{ℤ, pos, negsuc}
use shirleys_os.Prelude.{ℕ, ◌<◌, ◌≡◌, ◌≢◌, ◌⊎◌, ◌↔◌, List}
use shirleys_os.Process.{Services, Process, Entry, OpenFlags, file, max_open_files}

module _ {W : Type 0} (s : Services W) (IsOpen : W → ℕ → Type 0) where
  -- What the table relies on: a descriptor of the file system is open from the call of `open` that
  -- returns it to the call of `close` that gets it, whatever else is called.
  pub record Laws : Type 0 where
    pub open_new :
        (v v' : W) (path : List ℕ) (access : OpenFlags) (b : ℕ)
        → s.vfs_open v path access ≡ (pos b, v')
        → ¬ IsOpen v b
    pub open_adds :
        (v v' : W) (path : List ℕ) (access : OpenFlags) (b : ℕ)
        → s.vfs_open v path access ≡ (pos b, v')
        → (c : ℕ) → IsOpen v' c ↔ (IsOpen v c ⊎ (c ≡ b))
    pub open_fails :
        (v v' : W) (path : List ℕ) (access : OpenFlags) (n : ℕ)
        → s.vfs_open v path access ≡ (negsuc n, v')
        → (c : ℕ) → IsOpen v' c ↔ IsOpen v c
    pub close_removes : (v : W) (b c : ℕ) → IsOpen (s.vfs_close v b) c ↔ (IsOpen v c × (c ≢ b))
    pub read_keeps : (v : W) (b n c : ℕ) → IsOpen (s.vfs_read v b n).2 c ↔ IsOpen v c
    pub write_keeps :
        (v : W) (b : ℕ) (bytes : ℕ → ℕ) (n c : ℕ)
        → IsOpen (s.vfs_write v b bytes n).1 c ↔ IsOpen v c
    pub input_keeps : (v : W) (n c : ℕ) → IsOpen (s.read_standard_input v n).2 c ↔ IsOpen v c
    pub console_keeps :
        (v : W) (bytes : ℕ → ℕ) (n c : ℕ) → IsOpen (s.console_write v bytes n) c ↔ IsOpen v c

abbrev pub Held : {W : Type 0} → Process W → ℕ → Type 0
Held p b = (d : ℕ) × (d < max_open_files) × (p.table d ≡ file b)

-- The open descriptors of the file system are those of others and those in the table, each once.
pub record Balanced {W : Type 0} (IsOpen : W → ℕ → Type 0) (Outside : ℕ → Type 0) (p : Process W)
    : Type 0 where
  pub open_iff : (b : ℕ) → IsOpen p.services b ↔ (Outside b ⊎ Held p b)
  pub apart : (b : ℕ) → Outside b → ¬ Held p b
  pub once :
      (d e b : ℕ)
      → d < max_open_files
      → e < max_open_files
      → p.table d ≡ file b
      → p.table e ≡ file b
      → d ≡ e
