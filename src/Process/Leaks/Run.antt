-- ===== src/Process/Leaks/Run.antt =====
-- kernel/process/process.cpp: a whole life of a process, from `reset` to `teardown`.
use shirleys_os.Prelude.{
  ℕ, zero, suc, ◌+◌, ◌<◌, ◌≡◌, ◌≢◌, ◌↔◌, inl, inr, arith, update_self, update_ne, ℕ_discrete, sym,
  ◌∙◌, Bool-cases, Option-cases, List, Option, [], ◌∷◌, Bool, ltb, not, ◌||◌, ◌==◌,
}
use shirleys_os.Integers.{ℤ, pos, negsuc}
use shirleys_os.Process.{
  standard_output, standard_input, Services, Process, Entry, file, unused, max_open_files,
  open_file, close_file, read, write, reset, teardown, teardown_from, read_entry, write_entry,
  is_unused,
}
use shirleys_os.Process.Leaks.{Laws, Balanced}
use shirleys_os.Process.Leaks.Open.{open_file-Balanced, rebased}
use shirleys_os.Process.Leaks.Close.{cleared, cleared-Balanced}

-- The calls of a program.
pub data Call : Type 0 where
  opens : Option (List ℕ) → ℕ → Call
  closes : ℤ → Call
  reads : ℤ → Bool → ℕ → Call
  writes : ℤ → Option (ℕ → ℕ) → ℕ → Call

module _ {W : Type 0} (s : Services W) where
  unfoldable pub serve : Process W → Call → Process W
  serve p (opens path flags) = (open_file s p path flags).1
  serve p (closes d) = (close_file s p d).1
  serve p (reads d room n) = (read s p d room n).2
  serve p (writes d bytes n) = (write s p d bytes n).1

  unfoldable pub serve_all : Process W → List Call → Process W
  unfolding serve
  serve_all p [] = p
  serve_all p (c ∷ calls) = serve_all (serve p c) calls

module _ {W : Type 0} (s : Services W) (IsOpen : W → ℕ → Type 0) (Outside : ℕ → Type 0)
    (laws : Laws s IsOpen) where
  close_file-Balanced :
      (p : Process W) (d : ℤ)
      → Balanced IsOpen Outside p
      → Balanced IsOpen Outside (close_file s p d).1
  unfolding close_file
  close_file-Balanced p (negsuc n) v = v
  close_file-Balanced p (pos d) v =
      elim (Bool-cases (not (ltb d max_open_files) || is_unused (p.table d))) [
        | inl e ↦ rw e v
        | inr e ↦ rw e (cleared-Balanced s IsOpen Outside laws p v d (ground arith))
      ]

  read_entry-Balanced :
      (p : Process W) (x : Entry) (n : ℕ)
      → Balanced IsOpen Outside p
      → Balanced IsOpen Outside (read_entry s p x n).2
  unfolding read_entry
  read_entry-Balanced p standard_input n v =
      rebased s IsOpen Outside p (s.read_standard_input p.services n).2 v
        (laws.input_keeps p.services n)
  read_entry-Balanced p (file b) n v =
      rebased s IsOpen Outside p (s.vfs_read p.services b n).2 v (laws.read_keeps p.services b n)
  read_entry-Balanced p unused n v = v
  read_entry-Balanced p standard_output n v = v

  write_entry-Balanced :
      (p : Process W) (x : Entry) (bytes : ℕ → ℕ) (n : ℕ)
      → Balanced IsOpen Outside p
      → Balanced IsOpen Outside (write_entry s p x bytes n).1
  unfolding write_entry
  write_entry-Balanced p standard_output bytes n v =
      rebased s IsOpen Outside p (s.console_write p.services bytes n) v
        (laws.console_keeps p.services bytes n)
  write_entry-Balanced p (file b) bytes n v =
      rebased s IsOpen Outside p (s.vfs_write p.services b bytes n).1 v
        (laws.write_keeps p.services b bytes n)
  write_entry-Balanced p unused bytes n v = v
  write_entry-Balanced p standard_input bytes n v = v

  read-Balanced :
      (p : Process W) (d : ℤ) (room : Bool) (n : ℕ)
      → Balanced IsOpen Outside p
      → Balanced IsOpen Outside (read s p d room n).2
  unfolding read
  read-Balanced p (negsuc m) room n v = v
  read-Balanced p (pos d) room n v = elim (Bool-cases (not (ltb d max_open_files))) [
    | inl e ↦ rw e v
    | inr e ↦ elim (Bool-cases (n == 0)) [
      | inl z ↦ rw (e, z) v
      | inr z ↦ elim (Bool-cases (not room)) [
        | inl r ↦ rw (e, z, r) v
        | inr r ↦ rw (e, z, r) (read_entry-Balanced p (p.table d) n v)
      ]
    ]
  ]

  write-Balanced :
      (p : Process W) (d : ℤ) (bytes : Option (ℕ → ℕ)) (n : ℕ)
      → Balanced IsOpen Outside p
      → Balanced IsOpen Outside (write s p d bytes n).1
  unfolding write
  write-Balanced p (negsuc m) bytes n v = v
  write-Balanced p (pos d) bytes n v = elim (Bool-cases (not (ltb d max_open_files))) [
    | inl e ↦ rw e v
    | inr e ↦ elim (Bool-cases (n == 0)) [
      | inl z ↦ rw (e, z) v
      | inr z ↦ elim (Option-cases bytes) [
        | inl r ↦ rw (e, z, r) v
        | inr (source, r) ↦ rw (e, z, r) (write_entry-Balanced p (p.table d) source n v)
      ]
    ]
  ]

  serve-Balanced :
      (p : Process W) (c : Call) → Balanced IsOpen Outside p → Balanced IsOpen Outside (serve s p c)
  unfolding serve
  serve-Balanced p (opens path flags) v = open_file-Balanced s IsOpen Outside laws p v path flags
  serve-Balanced p (closes d) v = close_file-Balanced p d v
  serve-Balanced p (reads d room n) v = read-Balanced p d room n v
  serve-Balanced p (writes d bytes n) v = write-Balanced p d bytes n v

  serve_all-Balanced :
      (p : Process W) (calls : List Call)
      → Balanced IsOpen Outside p
      → Balanced IsOpen Outside (serve_all s p calls)
  unfolding serve_all
  serve_all-Balanced p [] v = v
  serve_all-Balanced p (c ∷ calls) v = serve_all-Balanced (serve s p c) calls (serve-Balanced p c v)

  -- The loop of `teardown` empties the entries in turn.
  teardown_from-Balanced :
      (left i : ℕ) (p : Process W)
      → i + left ≡ max_open_files
      → ((k : ℕ) → k < i → p.table k ≡ unused)
      → Balanced IsOpen Outside p
      → Balanced IsOpen Outside (teardown_from s left i p)
        × ((k : ℕ) → k < max_open_files → (teardown_from s left i p).table k ≡ unused)
  unfolding teardown_from
  teardown_from-Balanced zero i p e empty v = (v, λ k l. empty k (omega arith))
  teardown_from-Balanced (suc left) i p e empty v =
      teardown_from-Balanced left (i + 1) (cleared s p i) (omega arith)
        (λ k l. elim (ℕ_discrete k i) [
          | yes same ↦ rw same (update_self p.table i unused)
          | no ne ↦ update_ne p.table i unused k ne ∙ empty k (omega arith)
        ])
        (cleared-Balanced s IsOpen Outside laws p v i (omega arith))

module _ {W : Type 0} (s : Services W) (IsOpen : W → ℕ → Type 0) where
  no_file : (p : Process W) (d b : ℕ) → (reset p).table d ≢ file b
  unfolding reset
  no_file p d b at = ground arith

  reset-Balanced : (p : Process W) → Balanced IsOpen (IsOpen p.services) (reset p)
  unfolding reset
  reset-Balanced p = record {
    open_iff =
        λ b. (λ o. inl o, λ h. elim h [ inl o ↦ o | inr (d, l, at) ↦ absurd (no_file p d b at) ]);
    apart = λ b o (d, l, at). no_file p d b at;
    once = λ d e b l m at at'. absurd (no_file p d b at);
  }

  -- Whatever a program calls between `reset` and `teardown`, in whatever order and with whatever
  -- arguments, the file system then has the descriptors open that it had before: none of the program's
  -- leaks, on the path of a full table neither, and none of another's is closed.
  pub teardown_leakless :
      Laws s IsOpen
      → (p : Process W) (calls : List Call) (b : ℕ)
      → IsOpen (teardown s (serve_all s (reset p) calls)).services b ↔ IsOpen p.services b
  unfolding teardown
  teardown_leakless laws p calls b =
      let q = serve_all s (reset p) calls in
      let v =
        serve_all-Balanced s IsOpen (IsOpen p.services) laws (reset p) calls (reset-Balanced p) in
      let (w, empty) =
        teardown_from-Balanced s IsOpen (IsOpen p.services) laws max_open_files 0 q (omega arith)
          (λ k l. absurd (omega arith)) v in
      (
        λ o. elim ((w.open_iff b).0 o) [
          | inl before ↦ before
          | inr (d, l, at) ↦ (let z : unused ≡ file b = sym (empty d l) ∙ at in absurd cc)
        ],
        λ o. (w.open_iff b).1 (inl o),
      )
