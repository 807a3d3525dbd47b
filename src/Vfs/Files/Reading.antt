-- ===== src/Vfs/Files/Reading.antt =====
-- kernel/fs/vfs.cpp: read_file.
use shirleys_os.Process.{OpenFlags}
use shirleys_os.Io.{succeeded, Result}
use shirleys_os.Vfs.Files.Contract.{close-Used, read-Used, Opened-adds, Used}
use shirleys_os.Prelude.{
  zero, ◌||◌, Option-cases, arith, ◌&&◌, ltb, ◌≡◌, ◌==◌, Bool-cases, not, inr, inl, suc, if_both,
  List, Option, Bool, ℕ, [], none, true, false, ◌+◌, ◌-◌, ◌≢◌, ◌↔◌, take, ◌++◌, ◌≤◌, sym, subst,
}
use shirleys_os.Vfs.{Vfs, FileSystem, Node, OpenFile}
use shirleys_os.Vfs.Files.{read, read_at, close, open_path, file_of}
use shirleys_os.Vfs.Files.Whole.{read_file, fill_from}
use shirleys_os.Vfs.Files.Descriptors.{Opened, open_path-Opened}
use shirleys_os.Integers.{ℤ, pos, ℤ-cases}

-- The same descriptors are in use.
abbrev pub SameUsed : (ℕ → OpenFile) → (ℕ → OpenFile) → Type 0
SameUsed before after = (c : ℕ) → Used after c ↔ Used before c

SameUsed-trans : (a b c : ℕ → OpenFile) → SameUsed a b → SameUsed b c → SameUsed a c
SameUsed-trans a b c f g i = (λ u. (f i).0 ((g i).0 u), λ u. (g i).1 ((f i).1 u))

-- A descriptor that was opened and is closed again leaves the same ones in use.
SameUsed-closed :
    (a b c e : ℕ → OpenFile) (d : ℕ)
    → Opened a (pos d) b
    → SameUsed b c
    → ((i : ℕ) → Used e i ↔ (Used c i × (i ≢ d)))
    → SameUsed a e
SameUsed-closed a b c e d opened same closed i =
    let adds = Opened-adds a b d i opened in
    let (l, free, rest) = opened in
    (
      λ u.
          (let (v, ne) = (closed i).0 u in
            elim (adds.0 ((same i).0 v)) [ inl w ↦ w | inr z ↦ absurd (ne z) ]),
      λ u. (closed i).1 (
        (same i).1 (adds.1 (inl u)),
        λ z. (let (k, o) = u in let p : (a d).used ≡ true = (rw z at o) in cc),
      ),
    )

-- At most as many bytes as the buffer has, and the same descriptors in use.
abbrev pub IsRead : {S : Type 0} → Vfs S → ℕ → ℕ × List ℕ × Vfs S → Type 0
IsRead v capacity r = (r.0 ≤ capacity) × SameUsed v.files r.2.files

abbrev to_read : OpenFlags
to_read = record { reads = true; writes = false; creates = false; truncates = false }

-- From the descriptor on that `read_file` has opened.
closed-IsRead :
    {S : Type 0} (v v1 w : Vfs S) (d capacity total : ℕ) (bytes : List ℕ)
    → Opened v.files (pos d) v1.files
    → SameUsed v1.files w.files
    → total ≤ capacity
    → IsRead v capacity (total, bytes, (close w (pos d)).1)
closed-IsRead v v1 w d capacity total bytes opened same l = (
  l,
  SameUsed-closed v.files v1.files w.files (close w (pos d)).1.files d opened same
      (λ i. close-Used w d i),
)

module _ {S : Type 0} (systems : ℕ → FileSystem S)
    (honest : (i : ℕ) (s : S) (n : Node) (offset : ℕ) (room : Bool) (size : ℕ)
      → ((systems i).read s n offset room size).0.transferred ≤ size) where
  read_transferred :
      (v : Vfs S) (d : ℤ) (size : ℕ) → (read systems v d true size).0.transferred ≤ size
  unfolding read read_at
  read_transferred v d size =
      let P = λ (r : Result × List ℕ × Vfs S). r.0.transferred ≤ size in
      if_both P (not (size == 0) && not true) _ _ (omega arith) (elim (Option-cases (file_of v d)) [
        | inl e ↦ rw e (omega arith)
        | inr (i, e) ↦ rw e (
            if_both P (not (v.files i).flags.reads) _ _ (omega arith)
              (honest _ v.storage (v.files i).node (v.files i).position true size))
      ])

  fill_from-IsRead :
      (left : ℕ) (v : Vfs S) (d capacity total : ℕ) (bytes : List ℕ)
      → total ≤ capacity
      → IsRead v capacity (fill_from systems left v (pos d) capacity total bytes)
  unfolding fill_from
  fill_from-IsRead zero v d capacity total bytes l = (l, λ c. (λ u. u, λ u. u))
  fill_from-IsRead (suc left) v d capacity total bytes l =
      let now = read systems v (pos d) true (capacity - total) in
      let some_bytes = read_transferred v (pos d) (capacity - total) in
      let same : SameUsed v.files now.2.files = λ c. read-Used systems v d (capacity - total) c in
      elim (Bool-cases (ltb total capacity)) [
        | inr full ↦ rw (full, fill_from) (l, λ c. (λ u. u, λ u. u))
        | inl room ↦ elim (Bool-cases (not (succeeded now.0) || now.0.transferred == 0)) [
          | inl stop ↦ rw (room, fill_from, stop) (l, same)
          | inr on ↦
              let (m, more) =
                fill_from-IsRead left now.2 d capacity (total + now.0.transferred)
                  (bytes ++ take now.0.transferred now.1) (omega arith) in
              rw (room, fill_from, on)
                (
                  m,
                  SameUsed-trans v.files now.2.files
                      (fill_from systems left now.2 (pos d) capacity (total + now.0.transferred)
                        (bytes ++ take now.0.transferred now.1)).2.files
                      same more,
                )
        ]
      ]

  -- `read_file` never reports more bytes than the buffer has, and it gives back the descriptor that it
  -- opens: the same ones are in use afterwards, on every path through it. The file systems are taken to
  -- transfer no more than they are asked for.
  pub read_file-IsRead :
      (v : Vfs S) (path : Option (List ℕ)) (room : Bool) (capacity : ℕ)
      → IsRead v capacity (read_file systems v path room capacity)
  unfolding read_file
  read_file-IsRead v path room capacity =
      let P = IsRead v capacity in
      let v1 = (open_path systems v path to_read none).1 in
      let opened = open_path-Opened systems v path none to_read in
      if_both P (not room || capacity == 0) _ _ (omega arith, λ c. (λ u. u, λ u. u))
        (elim (ℤ-cases (open_path systems v path to_read none).0) [
          | inr (n, e) ↦
              let same : v1.files ≡ v.files = (rw e at opened) in
              rw (e, read_file)
                (omega arith, subst (SameUsed v.files) (sym same) (λ c. (λ u. u, λ u. u)))
          | inl (d, e) ↦
              let there : Opened v.files (pos d) v1.files = (rw e at opened) in
              let filled = fill_from systems capacity v1 (pos d) capacity 0 [] in
              let (l, same) = fill_from-IsRead capacity v1 d capacity 0 [] (omega arith) in
              let more = read systems filled.2 (pos d) true 1 in
              let same' =
                SameUsed-trans v1.files filled.2.files more.2.files same
                  (λ c. read-Used systems filled.2 d 1 c) in
              rw (e, read_file)
                (if_both P (filled.0 == capacity) _ _
                  (closed-IsRead v v1 more.2 d capacity _ filled.1 there same' (
                    if_both (λ (t : ℕ). t ≤ capacity)
                      (succeeded more.0 && not (more.0.transferred == 0)) 0 filled.0 (omega arith)
                      l))
                  (closed-IsRead v v1 filled.2 d capacity filled.0 filled.1 there same l))
        ])
