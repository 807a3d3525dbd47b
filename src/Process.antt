-- ===== src/Process.antt =====
-- include/shirley/process.hpp and kernel/process/process.cpp: the file descriptors of the process that
-- runs. The file system, the standard input and the console are the record `Services`, over the state
-- `W` that they share.
pub mod Opening
pub mod Leaks
mod Tests
use shirleys_os.Integers.{ℤ, pos, negsuc}
use shirleys_os.Io.{Result, succeeded}
use shirleys_os.Prelude.{
  ℕ, zero, suc, ◌+◌, ◌-◌, ◌*◌, ◌/◌, ◌%◌, ◌^◌, Bool, true, false, not, ◌||◌, ◌&&◌, ◌==◌, ltb,
  if◌then◌else◌, List, [], Option, none, some, update, u64_mod,
}

abbrev pub max_open_files : ℕ
max_open_files = 16

-- The flags of include/shirley/vfs.hpp, whose `|` joins them.
pub record OpenFlags : Type 0 where
  pub reads : Bool
  pub writes : Bool
  pub creates : Bool
  pub truncates : Bool

-- The calls of the other parts; a path is its text.
pub record Services (W : Type 0) : Type 0 where
  pub vfs_open : W → List ℕ → OpenFlags → ℤ × W
  pub vfs_close : W → ℕ → W
  pub vfs_read : W → ℕ → ℕ → Result × List ℕ × W
  pub vfs_write : W → ℕ → (ℕ → ℕ) → ℕ → Result × W
  pub read_standard_input : W → ℕ → Result × List ℕ × W
  pub console_write : W → (ℕ → ℕ) → ℕ → W

-- What a descriptor is; `backing` is in use for a file only, and not negative there.
pub data Entry : Type 0 where
  unused standard_input standard_output : Entry
  file : (backing : ℕ) → Entry

pub record Process (W : Type 0) : Type 0 where
  pub table : ℕ → Entry
  pub services : W

unfoldable pub reset : {W : Type 0} → Process W → Process W
reset p = record p {
  table = λ i.
      if i == 0
      then standard_input
      else if i == 1
      then standard_output
      else if i == 2
      then standard_output
      else unused;
}

-- `static_cast<long long>` of an unsigned number of 64 bits.
unfoldable pub as_long : ℕ → ℤ
as_long n = if ltb n (2 ^ 63) then pos n else negsuc (u64_mod - 1 - n)

abbrev pub minus_one : ℤ
minus_one = negsuc 0

unfoldable pub bit : ℕ → ℕ → Bool
bit flags weight = flags / weight % 2 == 1

-- The bits 3, 0100 and 01000 are the known ones.
unfoldable pub known : ℕ → Bool
known flags = flags == flags % 4 + flags / 64 % 2 * 64 + flags / 512 % 2 * 512

-- The access that the two lowest bits ask for, `none` for 3.
unfoldable pub access_of : ℕ → Option OpenFlags
access_of flags =
    let mode = flags % 4 in
    let creates = bit flags 64 in
    let truncates = bit flags 512 in
    if mode == 1
    then some (record { reads = false; writes = true; creates = creates; truncates = truncates })
    else if mode == 2
    then some (record { reads = true; writes = true; creates = creates; truncates = truncates })
    else if not (mode == 0)
    then none
    else some (record { reads = true; writes = false; creates = creates; truncates = truncates })

unfoldable pub is_unused : Entry → Bool
is_unused unused = true
is_unused standard_input = false
is_unused standard_output = false
is_unused (file backing) = false

-- The loop of `open`: the first unused descriptor.
unfoldable pub free_descriptor : (ℕ → Entry) → ℕ → ℕ → Option ℕ
free_descriptor table zero i = none
free_descriptor table (suc left) i =
    let rest = free_descriptor table left (i + 1) in
    if not (is_unused (table i)) then rest else some i

module _ {W : Type 0} (s : Services W) where
  unfoldable pub release : W → Entry → W
  release v unused = v
  release v standard_input = v
  release v standard_output = v
  release v (file backing) = s.vfs_close v backing

  unfoldable pub teardown_from : ℕ → ℕ → Process W → Process W
  unfolding release
  teardown_from zero i p = p
  teardown_from (suc left) i p =
      teardown_from left (i + 1)
        (record { table = update p.table i unused; services = release p.services (p.table i) })

  unfoldable pub teardown : Process W → Process W
  unfolding teardown_from
  teardown p = teardown_from max_open_files 0 p

  unfoldable pub open_file : Process W → Option (List ℕ) → ℕ → ℤ × Process W
  unfolding free_descriptor
  open_file p none flags = (minus_one, p)
  open_file p (some path) flags =
      if not (known flags) then (minus_one, p) else elim (access_of flags) [
        | none ↦ (minus_one, p)
        | some access ↦
            let (backing, v) = s.vfs_open p.services path access in
            elim backing [
              | negsuc n ↦ (negsuc n, record p { services = v })
              | pos b ↦ elim (free_descriptor p.table (max_open_files - 3) 3) [
                | none ↦ (minus_one, record p { services = s.vfs_close v b })
                | some d ↦ (pos d, record { table = update p.table d (file b); services = v })
              ]
            ]
      ]

  unfoldable pub close_file : Process W → ℤ → ℤ × Process W
  unfolding release is_unused
  close_file p (negsuc n) = (minus_one, p)
  close_file p (pos d) =
      if not (ltb d max_open_files) || is_unused (p.table d) then (minus_one, p) else (
        pos 0,
        record { table = update p.table d unused; services = release p.services (p.table d) },
      )

  -- The count that a call answers with.
  unfoldable pub answer : Result → ℤ
  answer r = if succeeded r then as_long r.transferred else minus_one

  -- The answer, what stands in the buffer, and the state.
  unfoldable pub read_entry : Process W → Entry → ℕ → ℤ × List ℕ × Process W
  unfolding answer
  read_entry p standard_input len =
      let (r, out, v) = s.read_standard_input p.services len in
      (answer r, out, record p { services = v })
  read_entry p (file backing) len =
      let (r, out, v) = s.vfs_read p.services backing len in
      (answer r, out, record p { services = v })
  read_entry p unused len = (minus_one, [], p)
  read_entry p standard_output len = (minus_one, [], p)

  unfoldable pub read : Process W → ℤ → Bool → ℕ → ℤ × List ℕ × Process W
  unfolding read_entry
  read p (negsuc n) room len = (minus_one, [], p)
  read p (pos d) room len =
      if not (ltb d max_open_files)
      then (minus_one, [], p)
      else if len == 0
      then (pos 0, [], p)
      else if not room
      then (minus_one, [], p)
      else read_entry p (p.table d) len

  unfoldable pub write_entry : Process W → Entry → (ℕ → ℕ) → ℕ → ℤ × Process W
  unfolding answer
  write_entry p standard_output bytes len =
      (as_long len, record p { services = s.console_write p.services bytes len })
  write_entry p (file backing) bytes len =
      let (r, v) = s.vfs_write p.services backing bytes len in (answer r, record p { services = v })
  write_entry p unused bytes len = (minus_one, p)
  write_entry p standard_input bytes len = (minus_one, p)

  unfoldable pub write : Process W → ℤ → Option (ℕ → ℕ) → ℕ → ℤ × Process W
  unfolding write_entry
  write p (negsuc n) buffer len = (minus_one, p)
  write p (pos d) buffer len =
      if not (ltb d max_open_files)
      then (minus_one, p)
      else if len == 0
      then (pos 0, p)
      else elim buffer [ none ↦ (minus_one, p) | some bytes ↦ write_entry p (p.table d) bytes len ]
