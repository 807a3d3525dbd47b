-- ===== src/Vfs/Files/Contract.antt =====
-- kernel/fs/vfs.cpp under kernel/process/process.cpp: the table of open files keeps the contract that the
-- descriptor table of a process relies on.
use shirleys_os.Vfs.{Vfs, OpenFile, FileSystem, max_open_files, no_file}
use shirleys_os.Vfs.Files.{
  write_at, read_at, open_path, close, read, write, file_of, set_file, moved, grown,
}
use shirleys_os.Vfs.Files.Descriptors.{Opened, open_path-Opened}
use shirleys_os.Process.{OpenFlags, Services}
use shirleys_os.Process.Leaks.{Laws}
use shirleys_os.Integers.{ℤ, pos, negsuc}
use shirleys_os.Io.{failed, Error, Result, succeeded}
use shirleys_os.Devices.{given}
use shirleys_os.Prelude.{
  [], ℕ, ◌<◌, ◌≡◌, ◌≢◌, ◌⊎◌, ◌↔◌, inl, inr, true, some, none, arith, refl, Option, Bool-cases, not,
  ℕ_discrete, leb, ◌&&◌, ◌==◌, List, sym, ◌∙◌, ap, update, if_both, subst,
}

module _ {S C : Type 0} (systems : ℕ → FileSystem S) (input : C → ℕ → Result × List ℕ × C)
    (output : C → (ℕ → ℕ) → ℕ → C) where
  -- The services of a process: this file's calls, and the terminal's of state `C`.
  abbrev pub services : Services (Vfs S × C)
  services = record {
    vfs_open = λ (v, c) path access. (
      (open_path systems v (some path) access none).0,
      ((open_path systems v (some path) access none).1, c),
    );
    vfs_close = λ (v, c) b. ((close v (pos b)).1, c);
    vfs_read = λ (v, c) b n. (
      (read systems v (pos b) true n).0,
      (read systems v (pos b) true n).1,
      ((read systems v (pos b) true n).2, c),
    );
    vfs_write = λ (v, c) b bytes n. (
      (write systems v (pos b) (some bytes) n).0,
      ((write systems v (pos b) (some bytes) n).1, c),
    );
    read_standard_input = λ (v, c) n. ((input c n).0, (input c n).1, (v, (input c n).2));
    console_write = λ (v, c) bytes n. (v, output c bytes n);
  }

abbrev pub IsOpen : {S C : Type 0} → Vfs S × C → ℕ → Type 0
IsOpen w b = (b < max_open_files) × ((w.0.files b).used ≡ true)

-- The descriptors that a table has in use.
abbrev pub Used : (ℕ → OpenFile) → ℕ → Type 0
Used files b = (b < max_open_files) × ((files b).used ≡ true)

pub Opened-adds :
    (before after : ℕ → OpenFile) (b c : ℕ)
    → Opened before (pos b) after
    → Used after c ↔ (Used before c ⊎ (c ≡ b))
Opened-adds before after b c (l, free, (f, u, e)) =
    subst (λ (t : ℕ → OpenFile). Used t c ↔ (Used before c ⊎ (c ≡ b))) (sym e)
      (elim (ℕ_discrete c b) [
        | yes same ↦ (λ o. inr same, λ h. (omega arith, ground arith))
        | no ne ↦ (
          λ (k, o). inl (k, ground arith),
          λ h. elim h [ inl (k, o) ↦ (k, ground arith) | inr same ↦ absurd (ne same) ],
        )
      ])

-- Replacing an open file by one that is open too.
set-Used :
    (files : ℕ → OpenFile) (i c : ℕ) (f : OpenFile)
    → f.used ≡ (files i).used
    → Used (update files i f) c ↔ Used files c
set-Used files i c f e = elim (ℕ_discrete c i) [
  | yes same ↦ (λ (k, o). (k, ground arith), λ (k, o). (k, ground arith))
  | no ne ↦ (λ (k, o). (k, ground arith), λ (k, o). (k, ground arith))
]

free-Used :
    (files : ℕ → OpenFile) (b c : ℕ) → Used (update files b no_file) c ↔ (Used files c × (c ≢ b))
free-Used files b c = elim (ℕ_discrete c b) [
  | yes same ↦ (λ (k, o). absurd (ground arith), λ (o, ne). absurd (ne same))
  | no ne ↦ (λ (k, o). ((k, ground arith), ne), λ ((k, o), n). (k, ground arith))
]

module _ {S : Type 0} where
  file_of-Used :
      (v : Vfs S) (b : ℕ)
      → ((file_of v (pos b) ≡ none) × ¬ Used v.files b)
        ⊎ ((file_of v (pos b) ≡ some b) × Used v.files b)
  unfolding file_of
  file_of-Used v b = elim (Bool-cases (leb max_open_files b)) [
    | inl big ↦ inl (rw big refl, λ (k, o). ground arith)
    | inr small ↦ elim (Bool-cases (v.files b).used) [
      | inr free ↦ inl (rw (small, free) refl, λ (k, o). cc)
      | inl used ↦ inr (rw (small, used) refl, (ground arith, used))
    ]
  ]

  pub close-Used :
      (v : Vfs S) (b c : ℕ) → Used (close v (pos b)).1.files c ↔ (Used v.files c × (c ≢ b))
  unfolding close set_file
  close-Used v b c = elim (file_of-Used v b) [
    | inl (e, out) ↦ rw (e, close) (λ o. (o, λ s. out (rw s at o)), λ h. h.0)
    | inr (e, o) ↦ rw (e, close) (free-Used v.files b c)
  ]

module _ {S : Type 0} (systems : ℕ → FileSystem S) where
  moved_used : (r : Result) (f : OpenFile) → (moved r f).used ≡ f.used
  unfolding moved
  moved_used r f = if_both (λ (g : OpenFile). g.used ≡ f.used) (succeeded r) _ f refl refl

  grown_used : (f : OpenFile) → (grown f).used ≡ f.used
  unfolding grown
  grown_used f = if_both (λ (g : OpenFile). g.used ≡ f.used) _ _ f refl refl

  read_at-Used :
      (v : Vfs S) (b n c : ℕ) → Used (read_at systems v b true n).2.files c ↔ Used v.files c
  unfolding read_at set_file
  read_at-Used v b n c =
      if_both (λ (r : Result × List ℕ × Vfs S). Used r.2.files c ↔ Used v.files c)
        (not (v.files b).flags.reads) (failed Error.unsupported, [], v) _ (λ o. o, λ o. o)
        (set-Used v.files b c _ (moved_used _ (v.files b)))

  pub read-Used :
      (v : Vfs S) (b n c : ℕ) → Used (read systems v (pos b) true n).2.files c ↔ Used v.files c
  unfolding read
  read-Used v b n c =
      if_both (λ (r : Result × List ℕ × Vfs S). Used r.2.files c ↔ Used v.files c)
        (not (n == 0) && not true) (failed Error.invalid_argument, [], v) _ (λ o. o, λ o. o)
        (elim (file_of-Used v b) [
          | inl (e, out) ↦ rw e (λ o. o, λ o. o)
          | inr (e, _) ↦ rw e (read_at-Used v b n c)
        ])

  write_at-Used :
      (v : Vfs S) (b : ℕ) (bytes : Option (ℕ → ℕ)) (n c : ℕ)
      → Used (write_at systems v b bytes n).1.files c ↔ Used v.files c
  unfolding write_at set_file
  write_at-Used v b bytes n c =
      if_both (λ (r : Result × Vfs S). Used r.1.files c ↔ Used v.files c)
        (not (v.files b).flags.writes) (failed Error.unsupported, v) _ (λ o. o, λ o. o)
        (set-Used v.files b c _ (grown_used _ ∙ moved_used _ (v.files b)))

  write-Used :
      (v : Vfs S) (b : ℕ) (bytes : Option (ℕ → ℕ)) (n c : ℕ)
      → Used (write systems v (pos b) bytes n).1.files c ↔ Used v.files c
  unfolding write
  write-Used v b bytes n c =
      if_both (λ (r : Result × Vfs S). Used r.1.files c ↔ Used v.files c)
        (not (n == 0) && not (given bytes)) (failed Error.invalid_argument, v) _ (λ o. o, λ o. o)
        (elim (file_of-Used v b) [
          | inl (e, out) ↦ rw e (λ o. o, λ o. o)
          | inr (e, _) ↦ rw e (write_at-Used v b bytes n c)
        ])

module _ {S C : Type 0} (systems : ℕ → FileSystem S) (input : C → ℕ → Result × List ℕ × C)
    (output : C → (ℕ → ℕ) → ℕ → C) where
  Opened-as :
      (v v' : Vfs S) (c c' : C) (path : List ℕ) (access : OpenFlags) (r : ℤ)
      → (services systems input output).vfs_open (v, c) path access ≡ (r, (v', c'))
      → Opened v.files r v'.files
  Opened-as v v' c c' path access r e =
      let a : (open_path systems v (some path) access none).0 ≡ r =
        ap (λ (x : ℤ × (Vfs S × C)). x.0) e in
      let b : (open_path systems v (some path) access none).1 ≡ v' =
        ap (λ (x : ℤ × (Vfs S × C)). x.1.0) e in
      let o = open_path-Opened systems v (some path) none access in
      subst (λ (x : ℤ). Opened v.files x v'.files) a
        (subst
          (λ (u : Vfs S). Opened v.files (open_path systems v (some path) access none).0 u.files) b
          o)

  -- The table of open files keeps the contract of `Process.Leaks`: `open` returns a descriptor that was
  -- not in use and takes that one only, `close` gives back that one only, and reads, writes and failing
  -- calls of `open` change none, whatever the file systems do.
  pub services-Laws : Laws (services systems input output) IsOpen
  services-Laws = record {
    open_new = λ (v, c) (v', c') path access b e (l, o).
        (let (_, free, _) = Opened-as v v' c c' path access (pos b) e in cc);
    open_adds = λ (v, c) (v', c') path access b e i.
        Opened-adds v.files v'.files b i (Opened-as v v' c c' path access (pos b) e);
    open_fails = λ (v, c) (v', c') path access n e i.
        (let same : v'.files ≡ v.files = Opened-as v v' c c' path access (negsuc n) e in
          subst (λ (t : ℕ → OpenFile). Used t i ↔ Used v.files i) (sym same) (λ o. o, λ o. o));
    close_removes = λ (v, c) b i. close-Used v b i;
    read_keeps = λ (v, c) b n i. read-Used systems v b n i;
    write_keeps = λ (v, c) b bytes n i. write-Used systems v b (some bytes) n i;
    input_keeps = λ (v, c) n i. (λ o. o, λ o. o);
    console_keeps = λ (v, c) bytes n i. (λ o. o, λ o. o);
  }
