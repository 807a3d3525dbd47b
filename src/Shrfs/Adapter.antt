-- ===== src/Shrfs/Adapter.antt =====
-- kernel/fs/shrfs_vfs.cpp: SHRFS as a file system of the virtual file system. The state is that of the
-- mounted image with that of its device.
use shirleys_os.Prelude.{
  leb, ◌&&◌, ◌==◌, if_both, u64_mod, ◌-◌, ltb, inr, zero, inl, ◌+◌, not, suc, Option-cases, ◌%◌,
  arith, List, Option, if◌then◌else◌, Bool, ℕ, [], none, some, true, false, u32_mod, ◌≤◌,
}
use shirleys_os.Shrfs.{read_bytes, data_offset_of, Shrfs, Node, entry, root, mounted}
use shirleys_os.Shrfs.Image.{read, list, delivered}
use shirleys_os.Vfs
use shirleys_os.Vfs.{FileSystem, no_node}
use shirleys_os.Text.{equals}
use shirleys_os.Io.{Result, Error, failed}

unfoldable pub to_vfs : Node → Vfs.Node
to_vfs n = record no_node {
  id = n.index;
  type = if n.directory then Vfs.directory else Vfs.regular;
  size = n.size;
  name = n.name;
}

module _ {W : Type 0} where
  unfoldable pub from_vfs : Shrfs W → Vfs.Node → W → Option Node × W
  unfolding entry
  from_vfs s node w = entry s (node.id % u32_mod) w

  -- A node for the virtual file system, with the state.
  unfoldable pub outward : Shrfs W → Option Node × W → Option Vfs.Node × (Shrfs W × W)
  unfolding to_vfs
  outward s (none, w) = (none, (s, w))
  outward s (some n, w) = (some (to_vfs n), (s, w))

  -- The loop of `lookup`: a directory has fewer children than the image has entries.
  unfoldable pub named_from : Shrfs W → Node → List ℕ → ℕ → ℕ → W → Option Node × W
  unfolding list
  named_from s parent name zero place w = (none, w)
  named_from s parent name (suc left) place w =
      let (found, w') = list s parent place w in
      elim found [
        | none ↦ (none, w')
        | some child ↦ elim (equals child.name name) [
          | true ↦ (some child, w')
          | false ↦ named_from s parent name left (place + 1) w'
        ]
      ]

  unfoldable pub lookup_name : Shrfs W → Vfs.Node → List ℕ → W → Option Node × W
  unfolding from_vfs named_from
  lookup_name s node name w =
      let (found, w') = from_vfs s node w in
      elim found [
        | none ↦ (none, w')
        | some parent ↦
            if not parent.directory
            then (none, w')
            else named_from s parent name (s.entries + 1) 0 w'
      ]

  unfoldable pub list_at : Shrfs W → Vfs.Node → ℕ → W → Option Node × W
  unfolding from_vfs list
  list_at s node place w =
      let (found, w') = from_vfs s node w in
      elim found [ none ↦ (none, w') | some parent ↦ list s parent place w' ]

  unfoldable pub read_node : Shrfs W → Vfs.Node → ℕ → Bool → ℕ → W → Result × List ℕ × W
  unfolding from_vfs read
  read_node s node offset room size w =
      let (found, w') = from_vfs s node w in
      elim found [
        | none ↦ (failed Error.invalid_argument, [], w')
        | some file ↦ read s file offset room size w'
      ]

  -- The operations that change the structure are those of a read-only file system.
  unfoldable pub shrfs_filesystem : FileSystem (Shrfs W × W)
  unfolding root outward lookup_name list_at read_node
  shrfs_filesystem = record {
    root = λ (s, w). outward s (root s w);
    lookup = λ (s, w) node name. outward s (lookup_name s node name w);
    list = λ (s, w) node place. outward s (list_at s node place w);
    read = λ (s, w) node offset room size. (
      (read_node s node offset room size w).0,
      (read_node s node offset room size w).1,
      (s, (read_node s node offset room size w).2),
    );
    write = λ s node offset bytes size. (failed Error.unsupported, s);
    writable = λ s node. false;
    create = λ s node name kind. (Error.unsupported, no_node, s);
    remove = λ s node name. (Error.unsupported, s);
    rename = λ s node name other target. (Error.unsupported, s);
    truncate = λ s node size. (Error.unsupported, s);
    sync = λ s. (Error.none, s);
  }

  delivered_transferred :
      (wanted : ℕ) (r : Option (List ℕ) × W) → (delivered wanted r).0.transferred ≤ wanted
  unfolding delivered
  delivered_transferred wanted (none, w) = omega arith
  delivered_transferred wanted (some bytes, w) = omega arith

  read_transferred :
      (s : Shrfs W) (file : Node) (offset : ℕ) (room : Bool) (size : ℕ) (w : W)
      → (read s file offset room size w).0.transferred ≤ size
  unfolding read
  read_transferred s file offset room size w =
      let P = λ (r : Result × List ℕ × W). r.0.transferred ≤ size in
      let wanted = if ltb (file.size - offset) size then file.size - offset else size in
      let no_more : wanted ≤ size = ground arith in
      let start = data_offset_of s file.index w in
      let bytes = read_bytes s ((start.0 + offset) % u64_mod) wanted start.1 in
      let given_out : (delivered wanted bytes).0.transferred ≤ size =
        omega (arith, delivered_transferred wanted bytes, no_more) in
      if_both P (not (mounted s)) _ _ (omega arith) (
        if_both P file.directory _ _ (omega arith) (
          if_both P (not (size == 0) && not room) _ _ (omega arith) (
            if_both P (leb s.entries file.index) _ _ (omega arith) (
              if_both P (leb file.size offset) _ _ (omega arith)
                (if_both P (start.0 == 0) _ _ (omega arith) given_out)))))

  read_node_transferred :
      (s : Shrfs W) (n : Vfs.Node) (offset : ℕ) (room : Bool) (size : ℕ) (w : W)
      → (read_node s n offset room size w).0.transferred ≤ size
  unfolding read_node
  read_node_transferred s n offset room size w = elim (Option-cases (from_vfs s n w).0) [
    | inl e ↦ rw (e, read_node) (omega arith)
    | inr (file, e) ↦
        rw (e, read_node) (read_transferred s file offset room size (from_vfs s n w).1)
  ]

  -- It transfers no more than it is asked for.
  pub shrfs_filesystem_transferred :
      (s : Shrfs W × W) (n : Vfs.Node) (offset : ℕ) (room : Bool) (size : ℕ)
      → (shrfs_filesystem.read s n offset room size).0.transferred ≤ size
  unfolding shrfs_filesystem
  shrfs_filesystem_transferred (s, w) n offset room size =
      read_node_transferred s n offset room size w
