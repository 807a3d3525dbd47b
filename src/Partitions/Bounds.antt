-- ===== src/Partitions/Bounds.antt =====
-- kernel/fs/partition.cpp: every partition that is read lies inside the disk.
use shirleys_os.Io.{succeeded, BlockDevice}
use shirleys_os.Prelude.{
  Option-cases, ◌≡◌, if◌then◌else◌, u64_mod, ◌&&◌, drop, take, ◌-◌, leb, ◌||◌, ltb, u32_mod,
}
use shirleys_os.Partitions.Tables.{
  read_logical, header_of, Header, read_gpt, array_from, logical_from, any_nonzero, entries_from,
}
use shirleys_os.Partitions.{
  max_logical, gpt, extended_type, has_signature, mbr_entry_bytes, mbr_table, le64, max_entries,
  no_table, add, byte_at, le32, Table, Scheme,
}
use shirleys_os.Prelude.{
  ◌||◌, not, ◌%◌, inl, ℕ_discrete, inr, ◌==◌, Bool, ltb, Bool-cases, zero, if_cases, [], u32_mod,
  ◌+◌, arith, ◌<◌, suc, ◌≤◌, List, Option, ℕ, none, some, ◌∷◌, true,
}

-- At most 16 entries, each of at least one block, on a disk of `blocks` blocks.
pub record IsInside (blocks : ℕ) (t : Table) : Type 0 where
  pub fits : t.count ≤ max_entries
  pub inside :
      (i : ℕ)
      → i < t.count
      → (0 < (t.entries i).count) × ((t.entries i).first + (t.entries i).count ≤ blocks)

byte_at_small : (bytes : List ℕ) (i : ℕ) → byte_at bytes i < 256
unfolding byte_at
byte_at_small [] i = omega arith
byte_at_small (x ∷ xs) zero = omega arith
byte_at_small (x ∷ xs) (suc i) = byte_at_small xs i

pub le32_small : (bytes : List ℕ) (i : ℕ) → le32 bytes i < u32_mod
unfolding le32
le32_small bytes i =
    let a = byte_at_small bytes i in
    let b = byte_at_small bytes (i + 1) in
    let c = byte_at_small bytes (i + 2) in let d = byte_at_small bytes (i + 3) in omega arith

pub add-IsInside :
    (blocks : ℕ) (t : Table) (number first count mbr_type : ℕ) (guid : Option (List ℕ))
    → IsInside blocks t
    → 0 < count
    → first + count ≤ blocks
    → IsInside blocks (add t number first count mbr_type guid).1
unfolding add
add-IsInside blocks t number first count mbr_type guid v some_blocks l =
    if_cases (λ (r : Bool × Table). IsInside blocks r.1) (t.count == max_entries) _ _
      (λ e. record { fits = v.fits; inside = v.inside })
      (λ e. record {
        fits = (let f = v.fits in ground arith);
        inside = λ i h. elim (ℕ_discrete i t.count) [
          | yes same ↦ (ground arith, ground arith)
          | no ne ↦ (let k = v.inside i (ground arith) in (ground arith, ground arith))
        ];
      })

pub no_table-IsInside : (blocks : ℕ) (s : Scheme) → IsInside blocks (record no_table { scheme = s })
no_table-IsInside blocks s = record { fits = omega arith; inside = λ i h. absurd (omega arith) }

entries_from-IsInside :
    (left : ℕ) (block : List ℕ) (bytes entry_bytes blocks offset index : ℕ) (t : Table)
    → IsInside blocks t
    → IsInside blocks (entries_from left block bytes entry_bytes blocks offset index t).1
unfolding entries_from
entries_from-IsInside zero block bytes entry_bytes blocks offset index t v = v
entries_from-IsInside (suc left) block bytes entry_bytes blocks offset index t v =
    let first = le64 block (offset + 32) in
    let last = le64 block (offset + 40) in
    elim (Bool-cases (ltb offset bytes)) [
      | inr done ↦ rw (done, entries_from) v
      | inl more ↦
          rw (more, entries_from)
            (entries_from-IsInside left block bytes entry_bytes blocks (offset + entry_bytes)
              ((index + 1) % u32_mod) _
              (if_cases (IsInside blocks) (not (any_nonzero block offset 16)) t _ (λ e. v)
                (λ e.
                  if_cases (IsInside blocks) (ltb last first || leb blocks last) t _ (λ f. v)
                    (λ f.
                      add-IsInside blocks t ((index + 1) % u32_mod) first (last - first + 1) 0
                        (some (take 16 (drop offset block))) v (omega arith) (ground arith)))))
    ]

module _ {W : Type 0} (disk : BlockDevice W) where
  logical_from-IsInside :
      (blocks left base size ebr number : ℕ) (t : Table) (w : W)
      → base < u32_mod
      → size < u32_mod
      → base + size ≤ blocks
      → ebr ≤ base + size
      → IsInside blocks t
      → IsInside blocks (logical_from disk left base size ebr number t w).1
  unfolding logical_from
  logical_from-IsInside blocks zero base size ebr number t w b s l h v = v
  logical_from-IsInside blocks (suc left) base size ebr number t w b s l h v =
      let P = λ (r : Bool × Table × W). IsInside blocks r.1 in
      let block = (disk.read_blocks w ebr 1 true).1 in
      let w' = (disk.read_blocks w ebr 1 true).2 in
      let start = le32 block (mbr_table + 8) in
      let count = le32 block (mbr_table + 12) in
      let start_small = le32_small block (mbr_table + 8) in
      let count_small = le32_small block (mbr_table + 12) in
      let next_small = le32_small block (mbr_table + mbr_entry_bytes + 8) in
      let following = (base + le32 block (mbr_table + mbr_entry_bytes + 8)) % u64_mod in
      let fits =
        not (byte_at block (mbr_table + 4) == 0)
        && not (count == 0)
        && not (start == 0)
        && leb ((ebr + start + count) % u64_mod) ((base + size) % u64_mod) in
      let taken : IsInside blocks (
          if fits
          then (add t number ((ebr + start) % u64_mod) count (byte_at block (mbr_table + 4)) none).1
          else t) =
        if_cases (IsInside blocks) fits _ t
          (λ e.
            add-IsInside blocks t number ((ebr + start) % u64_mod) count
              (byte_at block (mbr_table + 4)) none v (ground arith) (ground arith))
          (λ e. v) in
      if_cases P (not (succeeded (disk.read_blocks w ebr 1 true).0)) _ _ (λ e. v)
        (λ e.
          if_cases P (not (has_signature block)) _ _ (λ f. v)
            (λ f.
              if_cases P
                (not (extended_type (byte_at block (mbr_table + mbr_entry_bytes + 4)))
                  || le32 block (mbr_table + mbr_entry_bytes + 8) == 0)
                _ _ (λ g. taken)
                (λ g. elim (Bool-cases (leb ((base + size) % u64_mod) following)) [
                  | inl stop ↦ rw stop taken
                  | inr on ↦ rw on (
                      logical_from-IsInside blocks left base size following _ _ w' b s l
                        (ground arith) taken)
                ])))

  pub read_logical-IsInside :
      (blocks base size : ℕ) (t : Table) (w : W)
      → base < u32_mod
      → size < u32_mod
      → base + size ≤ blocks
      → IsInside blocks t
      → IsInside blocks (read_logical disk base size t w).1
  unfolding read_logical
  read_logical-IsInside blocks base size t w b s l v =
      logical_from-IsInside blocks max_logical base size base 5 t w b s l (omega arith) v

  array_from-IsInside :
      (left : ℕ) (h : Header) (block_bytes blocks at crc remaining index : ℕ) (t : Table) (w : W)
      → IsInside blocks t
      → IsInside blocks (array_from disk left h block_bytes blocks at crc remaining index t w).1
  unfolding array_from
  array_from-IsInside zero h block_bytes blocks at crc remaining index t w v = v
  array_from-IsInside (suc left) h block_bytes blocks at crc remaining index t w v =
      let read_at = disk.read_blocks w ((h.array_lba + at) % u64_mod) 1 true in
      let bytes = if ltb remaining block_bytes then remaining else block_bytes in
      if_cases (λ (r : Bool × Table × W). IsInside blocks r.1) (not (succeeded read_at.0)) _ _
        (λ e. v)
        (λ e.
          array_from-IsInside left h block_bytes blocks (at + 1) _ _ _ _ read_at.2
            (entries_from-IsInside bytes read_at.1 bytes h.entry_bytes blocks 0 index t v))

  pub read_gpt-IsInside :
      (blocks lba : ℕ) (t : Table) (w : W)
      → disk.block_count w ≡ blocks
      → IsInside blocks t
      → IsInside blocks (read_gpt disk lba t w).1
  unfolding read_gpt
  read_gpt-IsInside blocks lba t w same v =
      let P = λ (r : Bool × Table × W). IsInside blocks r.1 in
      let read_at = disk.read_blocks w lba 1 true in
      if_cases P (not (succeeded read_at.0)) _ _ (λ e. v)
        (λ e.
          elim (Option-cases (header_of read_at.1 lba (disk.block_size w) (disk.block_count w))) [
            | inl f ↦ rw f v
            | inr (h, f) ↦
                rw (f, same)
                  (array_from-IsInside _ h _ blocks 0 0 _ 0 _ read_at.2
                    (no_table-IsInside blocks gpt))
          ])
