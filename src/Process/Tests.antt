-- ===== src/Process/Tests.antt =====
-- kernel/process/process.cpp on a file system that numbers its descriptors.
use shirleys_os.Prelude.{
  subst, ap, ℕ, ◌+◌, ◌<◌, ◌≡◌, ◌⊎◌, ◌↔◌, inl, inr, true, false, some, arith, update, ℕ_discrete,
  List, [], ◌∷◌, Bool,
}
use shirleys_os.Integers.{ℤ, pos, negsuc}
use shirleys_os.Io.{Result, Error}
use shirleys_os.Process.{Services, Process, unused, reset, teardown}
use shirleys_os.Process.Leaks.{Laws}
use shirleys_os.Process.Leaks.Run.{Call, serve_all, teardown_leakless}

record Numbering : Type 0 where
  next : ℕ
  opened : ℕ → Bool

abbrev IsOpen : Numbering → ℕ → Type 0
IsOpen v b = (b < v.next) × (v.opened b ≡ true)

abbrev done : Result
done = record { transferred = 0; error = Error.none }

abbrev numbered : Services Numbering
numbered = record {
  vfs_open = λ v path access.
      (pos v.next, record { next = v.next + 1; opened = update v.opened v.next true });
  vfs_close = λ v b. record v { opened = update v.opened b false };
  vfs_read = λ v b n. (done, [], v);
  vfs_write = λ v b bytes n. (done, v);
  read_standard_input = λ v n. (done, [], v);
  console_write = λ v bytes n. v;
}

abbrev opened_next : Numbering → Numbering
opened_next v = record { next = v.next + 1; opened = update v.opened v.next true }

opened_next-IsOpen :
    (v : Numbering) (c : ℕ) → IsOpen (opened_next v) c ↔ (IsOpen v c ⊎ (c ≡ v.next))
opened_next-IsOpen v c = elim (ℕ_discrete c v.next) [
  | yes e ↦ (λ o. inr e, λ h. (omega arith, ground arith))
  | no ne ↦ (
    λ o. inl (omega arith, ground arith),
    λ h. elim h [ inl (l, o) ↦ (omega arith, ground arith) | inr e ↦ absurd (ne e) ],
  )
]

numbered_adds :
    (v v' : Numbering) (b c : ℕ)
    → pos v.next ≡ pos b
    → opened_next v ≡ v'
    → IsOpen v' c ↔ (IsOpen v c ⊎ (c ≡ b))
numbered_adds v v' b c number state =
    let same : v.next ≡ b = cc in
    subst (λ (u : Numbering). IsOpen u c ↔ (IsOpen v c ⊎ (c ≡ b))) state
      (subst (λ (n : ℕ). IsOpen (opened_next v) c ↔ (IsOpen v c ⊎ (c ≡ n))) same
        (opened_next-IsOpen v c))

numbered_laws : Laws numbered IsOpen
numbered_laws = record {
  open_new = λ v v' path access b e (l, o).
      (let z : pos v.next ≡ pos b = ap (λ (x : ℤ × Numbering). x.0) e in
        let y : v.next ≡ b = cc in omega arith);
  open_adds = λ v v' path access b e c.
      numbered_adds v v' b c (ap (λ (x : ℤ × Numbering). x.0) e)
        (ap (λ (x : ℤ × Numbering). x.1) e);
  open_fails = λ v v' path access n e c.
      (let z : pos v.next ≡ negsuc n = ap (λ (x : ℤ × Numbering). x.0) e in absurd cc);
  close_removes = λ v b c. ground arith;
  read_keeps = λ v b n c. (λ o. o, λ o. o);
  write_keeps = λ v b bytes n c. (λ o. o, λ o. o);
  input_keeps = λ v n c. (λ o. o, λ o. o);
  console_keeps = λ v bytes n c. (λ o. o, λ o. o);
}

abbrev before : Process Numbering
before = record { table = λ d. unused; services = record { next = 2; opened = λ b. true } }

abbrev program : List Call
program =
    Call.opens (some (0x61 ∷ [])) 64 ∷ Call.opens (some (0x62 ∷ [])) 0 ∷ Call.closes (pos 3) ∷ []

teardown_leakless_example :
    IsOpen (teardown numbered (serve_all numbered (reset before) program)).services 1
    ↔ IsOpen before.services 1
teardown_leakless_example = teardown_leakless numbered IsOpen numbered_laws before program 1
