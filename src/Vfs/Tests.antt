-- ===== src/Vfs/Tests.antt =====
-- kernel/fs/vfs.cpp over a file system with one directory, whose state is the names in it.
use shirleys_os.Vfs.Paths.Normal.{start}
use shirleys_os.Vfs.Paths.Pieces.{split, follow}
use shirleys_os.Vfs.Paths.Normal.{normalize-print, IsBase}
use shirleys_os.Vfs.Paths.Stack.{print, IsPlain}
use mathlib.Core.Option
use shirleys_os.Vfs.Paths.{is_separator, char_at}
use shirleys_os.Vfs.Mounts.{stat}
use shirleys_os.Vfs.{is_directory}
use shirleys_os.Vfs.Names.{parent_of}
use shirleys_os.Io.{is_none}
use shirleys_os.Vfs.Names.Move.{rename-IsQuiet}
use shirleys_os.Integers.{pos}
use shirleys_os.Vfs.Files.Contract.{services-Laws, IsOpen, services}
use shirleys_os.Process.Leaks.{Laws}
use shirleys_os.Vfs.Names.Busy.{remove-IsQuiet, IsQuiet}
use shirleys_os.Text.{equals}
use shirleys_os.Vfs.Files.{open_path}
use shirleys_os.Vfs.Paths.{path_starts_with, normalize}
use shirleys_os.Vfs.Mounts.{mount_for}
use shirleys_os.Process.{OpenFlags}
use shirleys_os.Vfs.{no_file, max_path_length, directory, no_mount, no_node, Node, FileSystem, Vfs}
use shirleys_os.Io.{Error, Result}
use shirleys_os.Vfs.Mounts.Longest.{mount_for-Longest, Longest}
use shirleys_os.Vfs.Names.{remove, rename}
use shirleys_os.Prelude.{
  arith, zero, suc, ◌⊎◌, true, if◌then◌else◌, refl, some, update, Bool, false, [], ◌∷◌, ◌≡◌, none,
  List, ◌+◌, ℕ,
}

-- `/`, `/a` and `/b`, and the names of the last two.
abbrev root_path : List ℕ
root_path = 0x2f ∷ []

abbrev a_path : List ℕ
a_path = 0x2f ∷ 0x61 ∷ []

abbrev b_path : List ℕ
b_path = 0x2f ∷ 0x62 ∷ []

abbrev dev_path : List ℕ
dev_path = 0x2f ∷ 0x64 ∷ 0x65 ∷ 0x76 ∷ []

abbrev name_of : List ℕ → Node
name_of name = record no_node { name = name }

abbrev top : Node
top = record no_node { type = directory }

unfoldable has : List (List ℕ) → List ℕ → Bool
has [] name = false
has (x ∷ xs) name = let rest = has xs name in if equals x name then true else rest

unfoldable without : List (List ℕ) → List ℕ → List (List ℕ)
without [] name = []
without (x ∷ xs) name = let rest = without xs name in if equals x name then rest else x ∷ rest

abbrev done : Result
done = record { transferred = 0; error = Error.none }

unfoldable flat : FileSystem (List (List ℕ))
unfolding has without
flat = record {
  root = λ s. (some top, s);
  lookup = λ s d name. (if has s name then some (name_of name) else none, s);
  list = λ s d i. (none, s);
  read = λ s n offset room len. (done, [], s);
  write = λ s n offset bytes len. (done, s);
  writable = λ s n. true;
  create = λ s d name kind. (Error.none, name_of name, name ∷ s);
  remove = λ s d name. (Error.none, without s name);
  rename = λ s d name e other. (Error.none, other ∷ without s name);
  truncate = λ s n size. (Error.none, s);
  sync = λ s. (Error.none, s);
}

abbrev flats : ℕ → FileSystem (List (List ℕ))
flats i = flat

abbrev mounted : Vfs (List (List ℕ))
mounted = record {
  mounts =
      update (update (λ i. no_mount) 0 (record { path = root_path; filesystem = 1 })) 1
        (record { path = dev_path; filesystem = 2 });
  mount_total = 2;
  files = λ i. no_file;
  storage = (0x61 ∷ []) ∷ [];
}

abbrev saving : OpenFlags
saving = record { reads = false; writes = true; creates = true; truncates = true }

a_path_normal : normalize a_path none max_path_length ≡ some a_path
unfolding normalize equals
a_path_normal = refl

b_path_normal : normalize b_path none max_path_length ≡ some b_path
unfolding normalize equals
b_path_normal = refl

-- `/./x/../a//` is `/a`.
dots_normal :
    normalize
      (0x2f ∷ 0x2e ∷ 0x2f ∷ 0x78 ∷ 0x2f ∷ 0x2e ∷ 0x2e ∷ 0x2f ∷ 0x61 ∷ 0x2f ∷ 0x2f ∷ [])
      none
      max_path_length
    ≡ some a_path
unfolding normalize equals
dots_normal = refl

-- `/dev/k` is answered by the second mount, `/devices` by the first.
dev_mount : mount_for mounted (0x2f ∷ 0x64 ∷ 0x65 ∷ 0x76 ∷ 0x2f ∷ 0x6b ∷ []) ≡ some 1
unfolding mount_for path_starts_with
dev_mount = refl

devices_mount : mount_for mounted (0x2f ∷ 0x64 ∷ 0x65 ∷ 0x76 ∷ 0x69 ∷ []) ≡ some 0
unfolding mount_for path_starts_with
devices_mount = refl

removed : (remove flats mounted (some a_path) none).0 ≡ Error.none
unfolding remove flat normalize equals stat mount_for path_starts_with is_directory
removed = refl

renamed : (rename flats mounted (some a_path) (some b_path) none).0 ≡ Error.none
unfolding rename flat normalize equals stat mount_for path_starts_with is_directory
renamed = refl

created : (open_path flats mounted (some b_path) saving none).0 ≡ pos 0
unfolding open_path flat stat normalize equals mount_for path_starts_with is_directory parent_of
    is_none
created = refl

mount_for-Longest_example :
    Longest mounted.mounts a_path mounted.mount_total (mount_for mounted a_path)
mount_for-Longest_example = mount_for-Longest mounted a_path

remove-IsQuiet_example : IsQuiet (remove flats mounted (some a_path) none).1 a_path
remove-IsQuiet_example = remove-IsQuiet flats mounted a_path none a_path a_path_normal removed

rename-IsQuiet_example :
    (equals a_path b_path ≡ true)
    ⊎ (IsQuiet (rename flats mounted (some a_path) (some b_path) none).1 a_path
        × (path_starts_with b_path a_path ≡ false))
rename-IsQuiet_example =
    rename-IsQuiet flats mounted a_path b_path none a_path b_path a_path_normal b_path_normal
      renamed

-- A terminal that has nothing to read and counts what is written.
abbrev no_input : ℕ → ℕ → Result × List ℕ × ℕ
no_input c n = (done, [], c)

abbrev counted : ℕ → (ℕ → ℕ) → ℕ → ℕ
counted c bytes n = c + n

services-Laws_example : Laws (services flats no_input counted) IsOpen
services-Laws_example = services-Laws flats no_input counted

b_IsPlain : IsPlain (0x62 ∷ [])
unfolding is_separator char_at
b_IsPlain zero = refl
b_IsPlain (suc j) = refl

b_IsBase : IsBase 8 (some ((0x62 ∷ []) ∷ []))
unfolding print
b_IsBase = ((b_IsPlain, omega arith, tt), omega arith)

-- From `/b`, in a buffer of 8 characters: `../a` is `/a`.
normalize-print_example :
    normalize (0x2e ∷ 0x2e ∷ 0x2f ∷ 0x61 ∷ []) (Option.map print (some ((0x62 ∷ []) ∷ []))) 8
    ≡ Option.map print (
        follow 8
          (start (0x2e ∷ 0x2e ∷ 0x2f ∷ 0x61 ∷ []) (some ((0x62 ∷ []) ∷ [])))
          (split (0x2e ∷ 0x2e ∷ 0x2f ∷ 0x61 ∷ [])))
normalize-print_example =
    normalize-print 8 (0x2e ∷ 0x2e ∷ 0x2f ∷ 0x61 ∷ []) (some ((0x62 ∷ []) ∷ [])) (omega arith)
      b_IsBase
