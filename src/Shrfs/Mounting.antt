-- ===== src/Shrfs/Mounting.antt =====
-- kernel/fs/shrfs.cpp: what the tests of `mount` make sure of.
use shirleys_os.Shrfs.Bytes.{read_bytes-Gives, IsStorage}
use shirleys_os.Shrfs.Files.{IsImage}
use shirleys_os.Io.{BlockDevice}
use shirleys_os.Prelude.{
  inr, refl, inl, Option-cases, if_cases, if_both, arith, ltb, ◌||◌, ◌==◌, not, ◌<◌, ◌≤◌, List,
  Bool, ◌≡◌, ℕ, some, true, false, ◌+◌, ◌*◌, ◌%◌, slice, u64_mod,
}
use shirleys_os.Shrfs.{
  read_bytes, bounce_bytes, magic, header_bytes, supported_version, entry_bytes, Shrfs, read_entry,
  load_u32, load_u64, unmount,
}
use shirleys_os.Shrfs.Image.{mount, mount_header, entries_from, has_magic, bad_header}
use native.Mathlib.Nat.{mod-eq_of_lt}

bad_header-false :
    (version count table data_at size device_bytes : ℕ)
    → bad_header version count table data_at size device_bytes ≡ false
    → table ≤ size
    → device_bytes < u64_mod
    → (table + count * entry_bytes ≤ device_bytes)
      × (size ≤ device_bytes)
      × (table + count * entry_bytes ≤ data_at)
unfolding bad_header
bad_header-false version count table data_at size device_bytes e l small =
    let first : (not (version == supported_version) || count == 0 || ltb table header_bytes)
        ≡ false =
      ground arith in
    (ground arith, ground arith, ground arith)

module _ {W : Type 0} (disk : BlockDevice W) (device_bytes : ℕ) where
  -- What a call of `mount` ends with: the state before it is not looked at.
  abbrev Mounted : Bool × Shrfs W × W → Type 0
  Mounted r = r.0 ≡ true → r.1.table_offset ≤ r.1.image_bytes → IsImage disk device_bytes r.1

  mount_header-Mounted :
      (s : Shrfs W) (raw : List ℕ) (w : W)
      → disk.block_count w * disk.block_size w % u64_mod ≡ device_bytes
      → device_bytes < u64_mod
      → Mounted (mount_header s disk raw w)
  unfolding mount_header
  mount_header-Mounted s raw w e small =
      let table = load_u32 raw 16 in
      let size = load_u64 raw 24 in
      let bytes = disk.block_count w * disk.block_size w % u64_mod in
      let refused : (w' : W) → Mounted (false, unmount s, w') = λ w' h l. absurd cc in
      let s' : Shrfs W = record {
        device = some disk;
        entries = load_u32 raw 12;
        table_offset = table;
        data_offset = load_u32 raw 20;
        image_bytes = size;
        file_bytes = 0;
      } in
      let top = read_entry s' 0 w in
      if_both Mounted (not (has_magic raw 0 magic)) _ _ (refused w) (
        if_cases Mounted
          (bad_header (load_u32 raw 8) (load_u32 raw 12) table (load_u32 raw 20) size bytes) _ _
          (λ b. refused w)
          (λ good. elim (Option-cases top.0) [
            | inl f ↦ rw f (refused top.1)
            | inr (node, f) ↦
                let all = entries_from s' s'.entries 0 0 top.1 in
                rw f (
                  if_both Mounted (not node.directory) _ _ (refused top.1)
                    (elim (Option-cases all.0) [
                      | inl g ↦ rw g (refused all.1)
                      | inr (total, g) ↦ rw g (λ h l.
                          (let (inside, image, behind) =
                              bad_header-false (load_u32 raw 8) (load_u32 raw 12) table
                                (load_u32 raw 20) size device_bytes (rw e at good) l small in
                            record {
                              on = refl;
                              table_inside = inside;
                              image_inside = image;
                              data_behind = behind;
                            }))
                    ]))
          ]))

module _ {W : Type 0} (disk : BlockDevice W) (Holds : W → Type 0) (content : ℕ → ℕ)
    (blocks block : ℕ) (v : IsStorage disk Holds content blocks block) (positive : 0 < block)
    (small : block ≤ bounce_bytes) (fits : blocks * block < u64_mod) where
  -- A mount that succeeds leaves an image whose table and whose data lie inside the device, the data
  -- behind the end of the table, if the header does not say that the image ends before its table. The
  -- device has room for a header.
  pub mount-IsImage :
      (s : Shrfs W) (w : W)
      → Holds w
      → header_bytes ≤ blocks * block
      → (mount s disk w).0 ≡ true
      → (mount s disk w).1.table_offset ≤ (mount s disk w).1.image_bytes
      → IsImage disk (blocks * block) (mount s disk w).1
  unfolding mount
  mount-IsImage s w h room =
      let s' : Shrfs W = record (unmount s) { device = some disk } in
      let (found, held) =
        read_bytes-Gives disk Holds content blocks block v positive fits s' 0 header_bytes w refl
          small room h in
      let w' = (read_bytes s' 0 header_bytes w).1 in
      let count = v.count_of w' held in
      let size = v.size_of w' held in
      let bytes : disk.block_count w' * disk.block_size w' % u64_mod ≡ blocks * block =
        rw (count, size) (mod-eq_of_lt fits) in
      rw (found, mount)
        (mount_header-Mounted disk (blocks * block) s (slice content 0 header_bytes) w' bytes fits)
