-- ===== src/Vfs/Files/Descriptors.antt =====
-- kernel/fs/vfs.cpp: which descriptors `open` and `close` open and close, for the descriptor table of
-- kernel/process/process.cpp.
use shirleys_os.Vfs.{
  Vfs, Node, OpenFile, FileSystem, max_open_files, max_path_length, is_directory, regular,
}
use shirleys_os.Vfs.Paths.{copied, normalize, slash, remove_last_component}
use shirleys_os.Vfs.Mounts.{stat}
use shirleys_os.Vfs.Mounts.Table.{IsSame, IsSame-refl, IsSame-trans, IsSame-storage, stat-IsSame}
use shirleys_os.Vfs.Names.{parent_of, leaf_from}
use shirleys_os.Vfs.Files.{
  error_not_found, open_path, open_node, create_and_open, take_descriptor, open_error, free_from,
  set_file,
}
use shirleys_os.Process.{OpenFlags}
use shirleys_os.Integers.{ℤ, pos, negsuc}
use shirleys_os.Io.{Error, is_none}
use shirleys_os.Text.{equals}
use shirleys_os.Prelude.{
  if_both, ℕ, zero, suc, ◌+◌, ◌<◌, ◌≡◌, inl, inr, true, false, some, none, arith, refl, Option,
  Bool-cases, Option-cases, Sum-cases, not, ◌&&◌, ◌==◌, List, [], ◌∷◌, update, Found, Found-here,
  Found-later, Found-none, subst,
}

free_from-Found :
    (files : ℕ → OpenFile) (left i stop : ℕ)
    → i + left ≡ stop
    → Found (λ d. (files d).used ≡ false) i stop (free_from files left i)
unfolding free_from
free_from-Found files zero i stop e = Found-none _ i stop (omega arith)
free_from-Found files (suc left) i stop e = elim (Bool-cases (files i).used) [
  | inr u ↦ rw u (Found-here _ i stop u (omega arith))
  | inl u ↦ rw u (
      Found-later _ i stop (λ f. ground arith) (free_from files left (i + 1))
        (free_from-Found files left (i + 1) stop (omega arith)))
]

-- What `open` does to the table of open files.
abbrev pub Opened : (ℕ → OpenFile) → ℤ → (ℕ → OpenFile) → Type 0
Opened before (pos b) after =
    (b < max_open_files)
    × ((before b).used ≡ false)
    × ((f : OpenFile) × (f.used ≡ true) × (after ≡ update before b f))
Opened before (negsuc n) after = after ≡ before

failed-Opened : (e : Error) (files : ℕ → OpenFile) → Opened files (open_error e) files
unfolding open_error
failed-Opened Error.none files = refl
failed-Opened Error.unsupported files = refl
failed-Opened Error.invalid_argument files = refl
failed-Opened Error.out_of_range files = refl
failed-Opened Error.device_error files = refl
failed-Opened Error.not_found files = refl
failed-Opened Error.already_exists files = refl
failed-Opened Error.no_space files = refl
failed-Opened Error.not_empty files = refl
failed-Opened Error.busy files = refl
failed-Opened Error.read_only files = refl

module _ {S : Type 0} where
  take_descriptor-Opened :
      (v : Vfs S) (node : Node) (flags : OpenFlags)
      → Opened v.files (take_descriptor v node flags).0 (take_descriptor v node flags).1.files
  unfolding take_descriptor set_file
  take_descriptor-Opened v node flags =
      let found = free_from-Found v.files max_open_files 0 max_open_files (omega arith) in
      elim (Option-cases (free_from v.files max_open_files 0)) [
        | inl e ↦ rw (e, take_descriptor) refl
        | inr (i, e) ↦
            (let (h, l, free, before) : Found (λ d. (v.files d).used ≡ false) 0 max_open_files
                  (some i) =
                (rw e at found) in
              rw (e, take_descriptor)
                (
                  l,
                  free,
                  (record { used = true; node = node; position = 0; flags = flags }, refl, refl),
                ))
      ]

module _ {S : Type 0} (systems : ℕ → FileSystem S) where
  parent_of-IsSame :
      (v : Vfs S) (path : List ℕ) (base : Option (List ℕ))
      → IsSame v (parent_of systems v (some path) base).1
  unfolding parent_of
  parent_of-IsSame v path base = elim (Option-cases (normalize path base max_path_length)) [
    | inl e ↦ rw (e, parent_of) (IsSame-refl v)
    | inr (p, e) ↦ elim (Bool-cases (equals p (slash ∷ []))) [
      | inl root ↦ rw (e, parent_of, root) (IsSame-refl v)
      | inr below ↦ elim (Option-cases (copied 256 (leaf_from p p))) [
        | inl f ↦ rw (e, parent_of, below, f) (IsSame-refl v)
        | inr (leaf, f) ↦ elim (Option-cases (copied max_path_length p)) [
          | inl g ↦ rw (e, parent_of, below, f, g) (IsSame-refl v)
          | inr (whole, g) ↦
              (let same = stat-IsSame systems v (some (remove_last_component whole)) none in
                elim (Option-cases (stat systems v (some (remove_last_component whole)) none).0) [
                  | inl h ↦ rw (e, parent_of, below, f, g, h) same
                  | inr (parent, h) ↦ elim (Bool-cases (is_directory parent)) [
                    | inr other ↦ rw (e, parent_of, below, f, g, h, other) same
                    | inl dir ↦ rw (e, parent_of, below, f, g, h, dir) same
                  ]
                ])
        ]
      ]
    ]
  ]

  open_node-Opened :
      (v : Vfs S) (node : Node) (flags : OpenFlags)
      → Opened v.files (open_node systems v node flags).0 (open_node systems v node flags).1.files
  unfolding open_node
  open_node-Opened v node flags = elim (Bool-cases (is_directory node)) [
    | inl d ↦ rw d refl
    | inr d ↦
        elim (Bool-cases
          (flags.writes && not ((systems node.filesystem).writable v.storage node))) [
            | inl w ↦ rw (d, w) refl
            | inr w ↦
                elim (Bool-cases (not (flags.writes && flags.truncates && not (node.size == 0)))) [
                  | inl keep ↦ rw (d, w, keep) (take_descriptor-Opened v node flags)
                  | inr cut ↦
                      (let s = ((systems node.filesystem).truncate v.storage node 0).1 in
                        elim (Bool-cases
                          (is_none ((systems node.filesystem).truncate v.storage node 0).0)) [
                            | inr bad ↦
                                rw (d, w, cut, bad)
                                  (failed-Opened
                                    ((systems node.filesystem).truncate v.storage node 0).0 v.files)
                            | inl good ↦
                                rw (d, w, cut, good)
                                  (take_descriptor-Opened (record v { storage = s })
                                    (record node { size = 0 }) flags)
                          ])
                ]
          ]
  ]

  -- From a state with the same table.
  from-IsSame :
      (v w : Vfs S) (r : ℤ) (after : ℕ → OpenFile)
      → IsSame v w
      → Opened w.files r after
      → Opened v.files r after
  from-IsSame v w r after same o = subst (λ (f : ℕ → OpenFile). Opened f r after) same.files o

  create_and_open-Opened :
      (v : Vfs S) (path : List ℕ) (base : Option (List ℕ)) (flags : OpenFlags)
      → Opened v.files
          (create_and_open systems v path base flags).0
          (create_and_open systems v path base flags).1.files
  unfolding create_and_open
  create_and_open-Opened v path base flags =
      let v' = (parent_of systems v (some path) base).1 in
      let same = parent_of-IsSame v path base in
      elim (Sum-cases (parent_of systems v (some path) base).0) [
        | inl (x, e) ↦
            rw (e, create_and_open)
              (from-IsSame v v' (open_error x) v'.files same (failed-Opened x v'.files))
        | inr (q, e) ↦
            (let system = systems q.parent.filesystem in
              elim (Bool-cases (system.writable v'.storage q.parent)) [
                | inr fixed ↦ rw (e, create_and_open, fixed) same.files
                | inl open_to ↦
                    (let r = system.create v'.storage q.parent q.leaf regular in
                      let u : Vfs S = record v' { storage = r.2 } in
                      let same' = IsSame-trans v v' u same (IsSame-storage v' r.2) in
                      elim (Bool-cases (is_none r.0)) [
                        | inr bad ↦
                            rw (e, create_and_open, open_to, bad)
                              (from-IsSame v u (open_error r.0) u.files same'
                                (failed-Opened r.0 u.files))
                        | inl made ↦ elim (Option-cases (copied max_path_length q.normalized)) [
                          | inl long ↦ rw (e, create_and_open, open_to, made, long) same'.files
                          | inr (here, fits) ↦
                              (let node : Node = record r.1 {
                                filesystem = q.parent.filesystem;
                                path = here;
                              } in
                                rw (e, create_and_open, open_to, made, fits)
                                  (from-IsSame v u (open_node systems u node flags).0
                                    (open_node systems u node flags).1.files same'
                                    (open_node-Opened u node flags)))
                        ]
                      ])
              ])
      ]

  -- `open` takes one free descriptor and marks it, or, with an error, leaves the table as it was.
  pub open_path-Opened :
      (v : Vfs S) (path base : Option (List ℕ)) (flags : OpenFlags)
      → Opened v.files
          (open_path systems v path flags base).0
          (open_path systems v path flags base).1.files
  unfolding open_path
  open_path-Opened v none base flags = refl
  open_path-Opened v (some path) base flags =
      let v' = (stat systems v (some path) base).1 in
      let same = stat-IsSame systems v (some path) base in
      elim (Option-cases (stat systems v (some path) base).0) [
        | inr (node, e) ↦
            rw (e, open_path)
              (from-IsSame v v' (open_node systems v' node flags).0
                (open_node systems v' node flags).1.files same (open_node-Opened v' node flags))
        | inl e ↦
            rw (e, open_path)
              (if_both (λ (r : ℤ × Vfs S). Opened v.files r.0 r.1.files) (not flags.creates)
                (error_not_found, v') (create_and_open systems v' path base flags) same.files
                (from-IsSame v v' (create_and_open systems v' path base flags).0
                  (create_and_open systems v' path base flags).1.files same
                  (create_and_open-Opened v' path base flags)))
      ]
