-- ===== src/Shrfs/Files.antt =====
-- kernel/fs/shrfs.cpp: reading the files of a mounted image.
use shirleys_os.Blocks.RamDisk.{is_null}
use shirleys_os.Shrfs.Bytes.{read_bytes-Gives, Gives, IsStorage}
use shirleys_os.Io.{Error, BlockDevice}
use shirleys_os.Prelude.{
  ◌&&◌, ◌==◌, ◌∙◌, not, Bool, sym, if◌then◌else◌, ltb, ap, refl, Option, ◌||◌, inr, inl, leb,
  Bool-cases, arith, List, ◌-◌, u64_mod, min, ◌<◌, ◌≡◌, ◌≤◌, ℕ, none, some, true, false, ◌+◌, ◌*◌,
  ◌%◌, slice,
}
use shirleys_os.Shrfs.{
  name_bytes, load_u64, decoded, recorded, read_bytes, entry_ok, data_offset_of, decode,
  bounce_bytes, entry_bytes, Shrfs, Node, read_entry, entry, mounted,
}
use shirleys_os.Shrfs.Image.{delivered, read}
use native.Mathlib.Nat.{mod-eq_of_lt}

-- An image on a device of `device_bytes` bytes: its table and its data lie inside, the data behind the
-- end of the table.
pub record IsImage {W : Type 0} (disk : BlockDevice W) (device_bytes : ℕ) (s : Shrfs W)
    : Type 0 where
  pub on : s.device ≡ some disk
  pub table_inside : s.table_offset + s.entries * entry_bytes ≤ device_bytes
  pub image_inside : s.image_bytes ≤ device_bytes
  pub data_behind : s.table_offset + s.entries * entry_bytes ≤ s.data_offset

-- What `read` gives of `node`, from the place `start` on.
pub record Served {W : Type 0} (Holds : W → Type 0) (content : ℕ → ℕ) (s : Shrfs W) (node : Node)
    (start : ℕ) : Type 0 where
  pub in_data : s.data_offset ≤ start
  pub behind_table : s.table_offset + s.entries * entry_bytes ≤ start
  pub in_image : start + node.size ≤ s.image_bytes
  pub served :
      (offset size : ℕ) (w : W)
      → offset < node.size
      → Holds w
      → ((read s node offset true size w).0
          ≡ record { transferred = min size (node.size - offset); error = Error.none })
        × ((read s node offset true size w).1
            ≡ slice content (start + offset) (min size (node.size - offset)))

-- The bytes of an entry.
abbrev pub raw_of : {W : Type 0} → (ℕ → ℕ) → Shrfs W → ℕ → List ℕ
raw_of content s index = slice content (s.table_offset + index * entry_bytes) entry_bytes

below_entries : (b : Bool) (n i : ℕ) → (b || leb n i) ≡ false → i < n
below_entries b n i e = ground arith

decode_index : (raw : List ℕ) (index : ℕ) → (decode raw index).0.index ≡ index
unfolding decode
decode_index raw index = refl

entry_ok-file :
    {W : Type 0} (s : Shrfs W) (node : Node) (start : ℕ)
    → entry_ok s node start ≡ true
    → node.directory ≡ false
    → (s.data_offset ≤ start) × (start + node.size ≤ s.image_bytes)
unfolding entry_ok
entry_ok-file s node start e file =
    let data_side : (ltb start s.data_offset
          || ltb s.image_bytes start
          || ltb (s.image_bytes - start) node.size)
        ≡ false =
      ground arith in
    (ground arith, ground arith)

wanted_min : (a size : ℕ) → (if ltb a size then a else size) ≡ min size a
wanted_min a size = ground arith

room_given : (size : ℕ) → (not (size == 0) && not true) ≡ false
room_given size = ground arith

leb_above : (a b : ℕ) → a < b → leb b a ≡ false
leb_above a b l = ground arith

not_zero : (a : ℕ) → 0 < a → (a == 0) ≡ false
not_zero a l = ground arith

-- `read` past its tests.
read-delivered :
    {W : Type 0} (s : Shrfs W) (node : Node) (index start offset size : ℕ) (w : W)
    → mounted s ≡ true
    → node.directory ≡ false
    → node.index ≡ index
    → index < s.entries
    → offset < node.size
    → (data_offset_of s index w).0 ≡ start
    → 0 < start
    → read s node offset true size w
      ≡ delivered (min size (node.size - offset)) (
          read_bytes s
            ((start + offset) % u64_mod)
            (min size (node.size - offset))
            (data_offset_of s index w).1)
unfolding read
read-delivered s node index start offset size w ready file same l inside e positive_start =
    rw
      (
        wanted_min (node.size - offset) size,
        ready,
        file,
        room_given size,
        same,
        leb_above index s.entries l,
        leb_above offset node.size inside,
        e,
        not_zero start positive_start,
      )
      refl

module _ {W : Type 0} (disk : BlockDevice W) (Holds : W → Type 0) (content : ℕ → ℕ)
    (blocks block : ℕ) (v : IsStorage disk Holds content blocks block) (positive : 0 < block)
    (small : block ≤ bounce_bytes) (fits : blocks * block < u64_mod) where
  entry-Gives :
      (s : Shrfs W) (index : ℕ) (w : W)
      → IsImage disk (blocks * block) s
      → index < s.entries
      → Holds w
      → Gives Holds
          (raw_of content s index)
          (read_bytes s ((s.table_offset + index * entry_bytes) % u64_mod) entry_bytes w)
  entry-Gives s index w image l h =
      let table = image.table_inside in
      let exact : (s.table_offset + index * entry_bytes) % u64_mod
          ≡ s.table_offset + index * entry_bytes =
        mod-eq_of_lt (omega arith) in
      rw exact (
        read_bytes-Gives disk Holds content blocks block v positive fits s
          (s.table_offset + index * entry_bytes) entry_bytes w image.on small (omega arith) h)

  decoded-some :
      (s : Shrfs W) (index : ℕ) (r : Option (List ℕ) × W) (raw : List ℕ) (node : Node)
      → r.0 ≡ some raw
      → (decoded s index r).0 ≡ some node
      → ((decode raw index).0 ≡ node) × (entry_ok s node (decode raw index).1 ≡ true)
  unfolding decoded
  decoded-some s index (none, w) raw node e f = absurd cc
  decoded-some s index (some other, w) raw node e f =
      let same : other ≡ raw = cc in
      elim (Bool-cases (entry_ok s (decode other index).0 (decode other index).1)) [
        | inr bad ↦ absurd (let z : none ≡ some node = (rw bad at f) in cc)
        | inl good ↦
            let z : some (decode other index).0 ≡ some node = (rw good at f) in
            let there : (decode other index).0 ≡ node = cc in rw⁻¹ same (there, rw⁻¹ there good)
      ]

  -- A node that `read_entry` gives is the one that the entry describes, and has passed the tests.
  read_entry-decode :
      (s : Shrfs W) (index : ℕ) (w : W) (node : Node)
      → IsImage disk (blocks * block) s
      → Holds w
      → (read_entry s index w).0 ≡ some node
      → (index < s.entries)
        × ((decode (raw_of content s index) index).0 ≡ node)
        × (entry_ok s node (decode (raw_of content s index) index).1 ≡ true)
  unfolding read_entry
  read_entry-decode s index w node image h e =
      elim (Bool-cases (is_null s.device || leb s.entries index)) [
        | inl out ↦ absurd (let z : none ≡ some node = (rw out at e) in cc)
        | inr inside ↦
            let l = below_entries (is_null s.device) s.entries index inside in
            let (there, good) =
              decoded-some s index _ (raw_of content s index) node
                (entry-Gives s index w image l h).0 (rw inside at e) in
            (l, there, good)
      ]

  recorded-some :
      (r : Option (List ℕ) × W) (raw : List ℕ)
      → r.0 ≡ some raw
      → Holds r.1
      → ((recorded r).0 ≡ load_u64 raw (name_bytes + 8)) × Holds (recorded r).1
  unfolding recorded
  recorded-some (none, w) raw e h = absurd cc
  recorded-some (some other, w) raw e h =
      let same : other ≡ raw = cc in (ap (λ (x : List ℕ). load_u64 x (name_bytes + 8)) same, h)

  delivered-some :
      (wanted : ℕ) (r : Option (List ℕ) × W) (bytes : List ℕ)
      → r.0 ≡ some bytes
      → ((delivered wanted r).0 ≡ record { transferred = wanted; error = Error.none })
        × ((delivered wanted r).1 ≡ bytes)
  unfolding delivered
  delivered-some wanted (none, w) bytes e = absurd cc
  delivered-some wanted (some other, w) bytes e = (refl, cc)

  data_offset_of-decode :
      (s : Shrfs W) (index : ℕ) (w : W)
      → IsImage disk (blocks * block) s
      → index < s.entries
      → Holds w
      → ((data_offset_of s index w).0 ≡ (decode (raw_of content s index) index).1)
        × Holds (data_offset_of s index w).1
  unfolding data_offset_of decode
  data_offset_of-decode s index w image l h =
      let (found, held) = entry-Gives s index w image l h in
      recorded-some _ (raw_of content s index) found held

  -- Over a device that serves its blocks (IsStorage: whole blocks of at most 512 bytes each, all of them
  -- fewer than 2^64 bytes), a file of an image (IsImage) is read as its bytes lie there: from the place
  -- that its entry names on, which is at the start of the data or later, behind the last entry of the
  -- table, and from which the whole file fits into the image, as many bytes as are wanted and left.
  pub read-Served :
      (s : Shrfs W) (index : ℕ) (w : W) (node : Node)
      → IsImage disk (blocks * block) s
      → Holds w
      → (entry s index w).0 ≡ some node
      → node.directory ≡ false
      → Served Holds content s node (decode (raw_of content s index) index).1
  unfolding entry
  read-Served s index w node image h e file = elim (Bool-cases (mounted s)) [
    | inr out ↦ absurd (let z : none ≡ some node = (rw out at e) in cc)
    | inl ready ↦
        let start = (decode (raw_of content s index) index).1 in
        let (l, there, good) = read_entry-decode s index w node image h (rw ready at e) in
        let (behind, inside) = entry_ok-file s node start good file in
        let same : node.index ≡ index =
          sym (ap (λ (n : Node). n.index) there) ∙ decode_index (raw_of content s index) index in
        record {
          in_data = behind;
          behind_table = omega (arith, image.data_behind);
          in_image = inside;
          served = λ offset size w' past h'.
              (let (found, held) = data_offset_of-decode s index w' image l h' in
                let d = image.data_behind in
                let m = image.image_inside in
                let exact : (start + offset) % u64_mod ≡ start + offset =
                  mod-eq_of_lt (omega arith) in
                let bytes =
                  read_bytes-Gives disk Holds content blocks block v positive fits s
                    (start + offset) (min size (node.size - offset)) (data_offset_of s index w').1
                    image.on small (omega arith) held in
                rw
                  (
                    read-delivered s node index start offset size w' ready file same l past found
                        (omega arith),
                    exact,
                  )
                  (delivered-some _ _ _ bytes.0));
        }
  ]
