-- ===== src/Process/Opening.antt =====
-- kernel/process/process.cpp: the descriptor that `open` takes.
use shirleys_os.Integers.{negsuc, ℤ-cases, pos}
use shirleys_os.Prelude.{
  ◌-◌, update, none, Option-cases, ◌<◌, ◌≤◌, some, Option, List, ℕ, zero, suc, ◌+◌, ◌≡◌, ◌≢◌, inl,
  inr, true, false, arith, refl, Found, Found-here, Found-later, Found-none, Bool-cases,
}
use shirleys_os.Process.{
  max_open_files, access_of, known, OpenFlags, open_file, ℤ, Services, Process, standard_output,
  standard_input, file, Entry, free_descriptor, is_unused, unused,
}

pub is_unused-true : (e : Entry) → is_unused e ≡ true → e ≡ unused
unfolding is_unused
is_unused-true unused h = refl
is_unused-true standard_input h = cc
is_unused-true standard_output h = cc
is_unused-true (file b) h = cc

pub is_unused-false : (e : Entry) → is_unused e ≡ false → e ≢ unused
unfolding is_unused
is_unused-false e h same = (let z : is_unused unused ≡ false = rw same at h in cc)

pub free_descriptor-Found :
    (table : ℕ → Entry) (left i stop : ℕ)
    → i + left ≡ stop
    → Found (λ d. table d ≡ unused) i stop (free_descriptor table left i)
unfolding free_descriptor
free_descriptor-Found table zero i stop e = Found-none _ i stop (omega arith)
free_descriptor-Found table (suc left) i stop e = elim (Bool-cases (is_unused (table i))) [
  | inl u ↦ rw u (Found-here _ i stop (is_unused-true (table i) u) (omega arith))
  | inr u ↦ rw u (
      Found-later _ i stop (is_unused-false (table i) u) (free_descriptor table left (i + 1))
        (free_descriptor-Found table left (i + 1) stop (omega arith)))
]

-- What `open` answers and the table it leaves.
abbrev pub Opened : {W : Type 0} → Process W → ℤ → Process W → Type 0
Opened p (pos d) q =
    (p.table d ≡ unused)
    × (3 ≤ d)
    × (d < max_open_files)
    × ((k : ℕ) → ¬ ((3 ≤ k) × (k < d) × (p.table k ≡ unused)))
    × ((b : ℕ) × (q.table ≡ update p.table d (file b)))
Opened p (negsuc n) q = q.table ≡ p.table

module _ {W : Type 0} (s : Services W) (p : Process W) where
  given_access :
      (path : List ℕ) (flags : ℕ) (access : OpenFlags)
      → known flags ≡ true
      → access_of flags ≡ some access
      → Opened p (open_file s p (some path) flags).0 (open_file s p (some path) flags).1
  unfolding open_file
  given_access path flags access k a = elim (ℤ-cases (s.vfs_open p.services path access).0) [
    | inr (n, e) ↦ rw (k, a, e) refl
    | inl (b, e) ↦ elim (Option-cases (free_descriptor p.table (max_open_files - 3) 3)) [
      | inl full ↦ rw (k, a, e, full) refl
      | inr (d, found) ↦
          (let f =
              free_descriptor-Found p.table (max_open_files - 3) 3 max_open_files (omega arith) in
            let (h, l, free, before) : Found (λ d. p.table d ≡ unused) 3 max_open_files (some d) =
              (rw found at f) in
            rw (k, a, e, found) (free, h, l, λ j (m, n, at). before j m n at, (b, refl)))
    ]
  ]

  -- `open` takes the lowest unused descriptor from 3 on for a file and leaves the others alone; where
  -- it answers with a negative number the table is as it was.
  open_file-Opened :
      (path : Option (List ℕ)) (flags : ℕ)
      → Opened p (open_file s p path flags).0 (open_file s p path flags).1
  unfolding open_file
  open_file-Opened none flags = refl
  open_file-Opened (some path) flags = elim (Bool-cases (known flags)) [
    | inr k ↦ rw k refl
    | inl k ↦ elim (Option-cases (access_of flags)) [
      | inl a ↦ rw (k, a) refl
      | inr (access, a) ↦ given_access path flags access k a
    ]
  ]
