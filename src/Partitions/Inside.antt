-- ===== src/Partitions/Inside.antt =====
-- kernel/fs/partition.cpp: `read` as a whole.
use shirleys_os.Partitions.Bounds.{
  read_gpt-IsInside, add-IsInside, read_logical-IsInside, no_table-IsInside, le32_small, IsInside,
}
use shirleys_os.Partitions.Tables.{header_of, Header, array_from, read_copies, read_gpt, read}
use shirleys_os.Partitions.{
  mbr, file_system_boot_sector, has_signature, no_table, unpartitioned, mbr_type_protective,
  extended_type, le32, Table, mbr_entry_bytes, mbr_table, byte_at,
}
use shirleys_os.Partitions.Tables.{read_logical, primaries_from, check_from}
use shirleys_os.Io.{succeeded, BlockDevice}
use shirleys_os.Prelude.{
  refl, ◌∙◌, u64_mod, ◌-◌, ◌%◌, Option-cases, if_both, ℕ_discrete, inr, inl, ◌&&◌, zero, ◌==◌, not,
  if_cases, Bool-cases, suc, arith, ◌<◌, ◌⊎◌, ◌≤◌, ◌≡◌, Bool, List, ℕ, none, some, true, false, ltb,
  ◌||◌, ◌*◌, ◌+◌,
}

-- What `read` has made sure of about the entry `i` of the first sector.
abbrev IsSound : List ℕ → ℕ → ℕ → Type 0
IsSound block blocks i =
    (byte_at block (mbr_table + i * mbr_entry_bytes + 4) ≡ 0)
    ⊎ ((0 < le32 block (mbr_table + i * mbr_entry_bytes + 12))
        × (le32 block (mbr_table + i * mbr_entry_bytes + 8)
              + le32 block (mbr_table + i * mbr_entry_bytes + 12)
            ≤ blocks))

IsSound-from :
    (block : List ℕ) (blocks left i : ℕ)
    → IsSound block blocks i
    → ((k : ℕ) → i + 1 ≤ k → k < i + 1 + left → IsSound block blocks k)
    → (k : ℕ) → i ≤ k
    → k < i + suc left
    → IsSound block blocks k
IsSound-from block blocks left i here rest k h l = elim (ℕ_discrete k i) [
  | yes same ↦ rw same here
  | no ne ↦ rest k (omega arith) (omega arith)
]

check_from-IsSound :
    (block : List ℕ) (blocks left i : ℕ) (protective : Bool)
    → check_from block blocks left i protective ≡ some false
    → (protective ≡ false) × ((k : ℕ) → i ≤ k → k < i + left → IsSound block blocks k)
unfolding check_from
check_from-IsSound block blocks zero i protective e = (cc, λ k h l. absurd (omega arith))
check_from-IsSound block blocks (suc left) i protective e =
    let at = mbr_table + i * mbr_entry_bytes in
    let type = byte_at block (at + 4) in
    let start = le32 block (at + 8) in
    let count = le32 block (at + 12) in
    elim (Bool-cases (not (byte_at block at == 0) && not (byte_at block at == 0x80))) [
      | inl odd ↦ absurd (let z : none ≡ some false = (rw odd at e) in cc)
      | inr status ↦ elim (Bool-cases (type == 0)) [
        | inl unused ↦
            let tail : check_from block blocks left (i + 1)
                  (protective || type == mbr_type_protective)
                ≡ some false =
              (rw (status, unused) at e) in
            let (p, sound) = check_from-IsSound block blocks left (i + 1) _ tail in
            (ground arith, IsSound-from block blocks left i (inl (ground arith)) sound)
        | inr there ↦
            elim (Bool-cases (
              not (type == mbr_type_protective)
              && (start == 0 || count == 0 || ltb blocks (start + count)))) [
                | inl bad ↦
                    absurd (let z : none ≡ some false = (rw (status, there, bad) at e) in cc)
                | inr good ↦
                    let tail : check_from block blocks left (i + 1)
                          (protective || type == mbr_type_protective)
                        ≡ some false =
                      (rw (status, there, good) at e) in
                    let (p, sound) = check_from-IsSound block blocks left (i + 1) _ tail in
                    (
                      ground arith,
                      IsSound-from block blocks left i (inr (ground arith, ground arith)) sound,
                    )
              ]
      ]
    ]

module _ {W : Type 0} (disk : BlockDevice W) where
  primaries_from-IsInside :
      (blocks left : ℕ) (sector : List ℕ) (i : ℕ) (t : Table) (w : W)
      → ((k : ℕ) → i ≤ k → k < i + left → IsSound sector blocks k)
      → IsInside blocks t
      → IsInside blocks (primaries_from disk left sector i t w).1
  unfolding primaries_from
  primaries_from-IsInside blocks zero sector i t w sound v = v
  primaries_from-IsInside blocks (suc left) sector i t w sound v =
      let P = λ (r : Bool × Table × W). IsInside blocks r.1 in
      let at = mbr_table + i * mbr_entry_bytes in
      let type = byte_at sector (at + 4) in
      let start = le32 sector (at + 8) in
      let count = le32 sector (at + 12) in
      let start_small = le32_small sector (at + 8) in
      let count_small = le32_small sector (at + 12) in
      let chain = read_logical disk start count t w in
      if_cases P (type == 0) _ _
        (λ e.
          primaries_from-IsInside blocks left sector (i + 1) t w
            (λ k h l. sound k (omega arith) (omega arith)) v)
        (λ e.
          let (some_blocks, l) : (0 < count) × (start + count ≤ blocks) =
            elim (sound i (omega arith) (omega arith)) [
              | inl unused ↦ absurd (ground arith)
              | inr s ↦ s
            ] in
          let later =
            λ (k : ℕ) (h : i + 1 ≤ k) (m : k < i + 1 + left). sound k (omega arith) (omega arith) in
          if_cases P (extended_type type) _ _
            (λ f.
              if_cases P (not chain.0) _ _ (λ g. no_table-IsInside blocks unpartitioned)
                (λ g.
                  primaries_from-IsInside blocks left sector (i + 1) chain.1 chain.2 later (
                    read_logical-IsInside disk blocks start count t w start_small count_small l v)))
            (λ f.
              primaries_from-IsInside blocks left sector (i + 1) _ w later
                (add-IsInside blocks t (i + 1) start count type none v some_blocks l)))

module _ {W : Type 0} (disk : BlockDevice W)
    (keeps : (v : W) (first n : ℕ)
      → disk.block_count (disk.read_blocks v first n true).2 ≡ disk.block_count v) where
  array_from_keeps :
      (left : ℕ) (h : Header) (block_bytes blocks at crc remaining index : ℕ) (t : Table) (w : W)
      → disk.block_count (array_from disk left h block_bytes blocks at crc remaining index t w).2
        ≡ disk.block_count w
  unfolding array_from
  array_from_keeps zero h block_bytes blocks at crc remaining index t w = refl
  array_from_keeps (suc left) h block_bytes blocks at crc remaining index t w =
      let place = (h.array_lba + at) % u64_mod in
      if_both (λ (r : Bool × Table × W). disk.block_count r.2 ≡ disk.block_count w)
        (not (succeeded (disk.read_blocks w place 1 true).0)) _ _ (keeps w place 1)
        (array_from_keeps left h block_bytes blocks (at + 1) _ _ _ _
            (disk.read_blocks w place 1 true).2
          ∙ keeps w place 1)

  read_gpt_keeps :
      (lba : ℕ) (t : Table) (w : W)
      → disk.block_count (read_gpt disk lba t w).2 ≡ disk.block_count w
  unfolding read_gpt
  read_gpt_keeps lba t w =
      let read_at = disk.read_blocks w lba 1 true in
      if_both (λ (r : Bool × Table × W). disk.block_count r.2 ≡ disk.block_count w)
        (not (succeeded read_at.0)) _ _ (keeps w lba 1)
        (elim (Option-cases (header_of read_at.1 lba (disk.block_size w) (disk.block_count w))) [
          | inl f ↦ rw f (keeps w lba 1)
          | inr (h, f) ↦ rw f (array_from_keeps _ h _ _ 0 0 _ 0 _ read_at.2 ∙ keeps w lba 1)
        ])

  read_copies-IsInside :
      (blocks : ℕ) (w : W)
      → disk.block_count w ≡ blocks
      → IsInside blocks (read_copies disk blocks w).1
  unfolding read_copies
  read_copies-IsInside blocks w same =
      let P = λ (r : Bool × Table × W). IsInside blocks r.1 in
      let primary = read_gpt disk 1 no_table w in
      let v =
        read_gpt-IsInside disk blocks 1 no_table w same (no_table-IsInside blocks unpartitioned) in
      let v' =
        read_gpt-IsInside disk blocks (blocks - 1) primary.1 primary.2
          (read_gpt_keeps 1 no_table w ∙ same) v in
      if_both P primary.0 _ _ v (
        if_both P (read_gpt disk (blocks - 1) primary.1 primary.2).0 _ _
          (record { fits = v'.fits; inside = v'.inside }) (no_table-IsInside blocks unpartitioned))

  -- Whatever a disk holds, every entry of the table that is read from it is a partition of at least one
  -- block that lies inside the disk, and there are 16 at most. Reading is taken not to change the number
  -- of blocks of the disk.
  pub read-IsInside :
      (allocated : Bool) (w : W) → IsInside (disk.block_count w) (read disk allocated w).1
  unfolding read
  read-IsInside allocated w =
      let blocks = disk.block_count w in
      let P = λ (r : Bool × Table × W). IsInside blocks r.1 in
      let sector = disk.read_blocks w 0 1 true in
      let bare = no_table-IsInside blocks unpartitioned in
      if_both P (ltb (disk.block_size w) 512 || ltb 4096 (disk.block_size w)) _ _ bare (
        if_both P (ltb blocks 2) _ _ bare (
          if_both P (not allocated) _ _ bare (
            if_both P (not (succeeded sector.0)) _ _ bare (
              if_both P (not (has_signature sector.1) || file_system_boot_sector sector.1) _ _ bare
                (elim (Option-cases (check_from sector.1 blocks 4 0 false)) [
                  | inl f ↦ rw f bare
                  | inr (true, f) ↦ rw f (read_copies-IsInside blocks sector.2 (keeps w 0 1))
                  | inr (false, f) ↦ rw f (
                      primaries_from-IsInside disk blocks 4 sector.1 0 _ sector.2
                        (check_from-IsSound sector.1 blocks 4 0 false f).1
                        (no_table-IsInside blocks mbr))
                ])))))
