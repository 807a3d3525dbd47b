-- ===== src/Heap.antt =====
-- kernel/memory/heap.cpp: the heap of variable-sized blocks that tile a region of memory.
pub mod Chain
pub mod Align
pub mod Fields
pub mod Cut
pub mod Allocate
pub mod Join
pub mod GiveBack
pub mod Walk
pub mod Free
pub mod Check
pub mod Consistent
pub mod History
pub mod Clients
mod Tests
use shirleys_os.Prelude.{
  ℕ, zero, suc, ◌+◌, ◌-◌, ◌*◌, ◌/◌, ◌%◌, Bool, true, false, not, ◌&&◌, ◌||◌, ◌==◌, ltb, leb,
  if◌then◌else◌, Option, none, some, update, u64_mod, sub64,
}
use Prim.Native.Nat.{bit_and}

abbrev pub default_alignment : ℕ
default_alignment = 16

abbrev pub header_bytes : ℕ
header_bytes = 16

abbrev pub min_block : ℕ
min_block = 32

abbrev pub used_tag : ℕ
used_tag = 0x4445535553485248

abbrev pub free_tag : ℕ
free_tag = 0x4545524653485248

-- The memory is seen through the fields of the blocks that may stand at an address: `sizes`, `tags` and
-- `links`, the field `next`. A `Block**` is the address of the block whose `next` it points to, and 0 for
-- `&free_head`: `links 0` is `free_head`, since no block stands at 0.
pub record Heap : Type 0 where
  pub heap_begin : ℕ
  pub heap_end : ℕ
  pub free_bytes : ℕ
  pub sizes : ℕ → ℕ
  pub tags : ℕ → ℕ
  pub links : ℕ → ℕ

-- The mask of a power of two is rounding down to a multiple.
unfoldable pub align_up : ℕ → ℕ → ℕ
align_up value alignment = (value + alignment - 1) % u64_mod / alignment * alignment

unfoldable pub end_of : Heap → ℕ → ℕ
end_of s block = (block + s.sizes block) % u64_mod

unfoldable pub make_free : Heap → ℕ → ℕ → ℕ → Heap
make_free s address size next = record s {
  sizes = update s.sizes address size;
  tags = update s.tags address free_tag;
  links = update s.links address next;
}

-- A loop that walks the blocks or the free blocks has a round for every byte of the heap, and every block
-- has more than one.
abbrev pub rounds : Heap → ℕ
rounds s = s.heap_end - s.heap_begin

unfoldable pub allocated_from : ℕ → Heap → ℕ → ℕ → Bool
allocated_from zero s cursor header = false
allocated_from (suc left) s cursor header =
    let rest = allocated_from left s (end_of s cursor) header in
    if not (ltb cursor s.heap_end)
    then false
    else if cursor == header
    then s.tags cursor == used_tag
    else if ltb header cursor || ltb (s.sizes cursor) min_block
    then false
    else rest

unfoldable pub allocated_block : Heap → ℕ → Bool
unfolding allocated_from
allocated_block s header = allocated_from (rounds s) s s.heap_begin header

unfoldable pub emptied : Heap → Heap
emptied s = record s { heap_begin = 0; heap_end = 0; free_bytes = 0; links = update s.links 0 0 }

unfoldable pub initialize : Heap → ℕ → ℕ → Heap
unfolding emptied align_up make_free
initialize s base bytes =
    let first = align_up base default_alignment in
    let last = (base + bytes) / default_alignment * default_alignment in
    if base == 0 || ltb (u64_mod - 1 - base) bytes
    then emptied s
    else if leb last first || ltb (last - first) min_block
    then emptied s
    else let made = make_free (emptied s) first (last - first) 0 in
      record made {
        heap_begin = first;
        heap_end = last;
        free_bytes = last - first;
        links = update made.links 0 first;
      }

-- Where the payload would begin in the free block at `start`.
unfoldable pub payload_in : ℕ → ℕ → ℕ
unfolding align_up
payload_in start alignment =
    let payload = align_up ((start + header_bytes) % u64_mod) alignment in
    if not (sub64 payload header_bytes == start)
      && ltb (sub64 (sub64 payload header_bytes) start) min_block
    then align_up ((start + min_block + header_bytes) % u64_mod) alignment
    else payload

-- The block that is cut out of the free block from `start` to `end`: its start and its end.
unfoldable pub cut_from : ℕ → ℕ → ℕ → ℕ → Option (ℕ × ℕ)
unfolding payload_in
cut_from start end alignment payload_bytes =
    let payload = payload_in start alignment in
    let block_start = sub64 payload header_bytes in
    let block_end = (payload + payload_bytes) % u64_mod in
    if leb end block_start || ltb (sub64 end payload) payload_bytes
    then none
    else some (block_start, if ltb (sub64 end block_end) min_block then end else block_end)

-- The tail of the free block, where there is one, and what the link before it is to hold.
unfoldable pub with_tail : Heap → ℕ → ℕ → ℕ → Heap × ℕ
unfolding make_free
with_tail s next block_end end =
    if ltb block_end end
    then (make_free s block_end (end - block_end) next, block_end)
    else (s, next)

-- The writes that take the block from `block_start` to `block_end` out of the free block `current`.
unfoldable pub take_out : Heap → ℕ → ℕ → ℕ → ℕ → Heap
unfolding with_tail end_of
take_out s link current block_start block_end =
    let (s1, next) = with_tail s (s.links current) block_end (end_of s current) in
    let s2 =
      (if ltb current block_start
        then record s1 {
          sizes = update s1.sizes current (block_start - current);
          links = update s1.links current next;
        }
        else record s1 { links = update s1.links link next }) in
    record s2 {
      sizes = update s2.sizes block_start (block_end - block_start);
      tags = update s2.tags block_start used_tag;
      free_bytes = sub64 s2.free_bytes (block_end - block_start);
    }

-- The loop of `allocate`: the payload, 0 for a null pointer.
unfoldable pub allocate_from : ℕ → Heap → ℕ → ℕ → ℕ → ℕ × Heap
unfolding cut_from take_out end_of
allocate_from zero s link alignment payload_bytes = (0, s)
allocate_from (suc left) s link alignment payload_bytes = elim (s.links link == 0) [
  | true ↦ (0, s)
  | false ↦
      let current = s.links link in
      elim (cut_from current (end_of s current) alignment payload_bytes) [
        | none ↦ allocate_from left s current alignment payload_bytes
        | some (block_start, block_end) ↦
            ((block_start + header_bytes) % u64_mod, take_out s link current block_start block_end)
      ]
]

unfoldable pub allocate : Heap → ℕ → ℕ → ℕ × Heap
unfolding allocate_from align_up
allocate s bytes alignment =
    if bytes == 0 || alignment == 0 || not (bit_and alignment (alignment - 1) == 0)
    then (0, s)
    else let wanted = if ltb alignment default_alignment then default_alignment else alignment in
      if ltb (s.heap_end - s.heap_begin) bytes || ltb (s.heap_end - s.heap_begin) wanted
      then (0, s)
      else allocate_from (rounds s) s 0 wanted (align_up bytes default_alignment)

-- The loop of `free`: the last free block before the header and the first one behind it, 0 for none.
unfoldable pub neighbours : ℕ → Heap → ℕ → ℕ → ℕ × ℕ
neighbours zero s previous header = (previous, s.links previous)
neighbours (suc left) s previous header =
    let rest = neighbours left s (s.links previous) header in
    if not (s.links previous == 0) && ltb (s.links previous) header
    then rest
    else (previous, s.links previous)

-- The freed block with its link, merged with the free block behind it.
unfoldable pub join_next : Heap → ℕ → ℕ → Heap
unfolding end_of
join_next s header next =
    if not (next == 0) && end_of s header == next
    then record s {
      sizes = update s.sizes header ((s.sizes header + s.sizes next) % u64_mod);
      links = update s.links header (s.links next);
    }
    else record s { links = update s.links header next }

unfoldable pub join_previous : Heap → ℕ → ℕ → Heap
unfolding end_of
join_previous s header previous =
    if previous == 0
    then record s { links = update s.links 0 header }
    else if end_of s previous == header
    then record s {
      sizes = update s.sizes previous ((s.sizes previous + s.sizes header) % u64_mod);
      links = update s.links previous (s.links header);
    }
    else record s { links = update s.links previous header }

-- The writes of `free`, after its tests.
unfoldable pub give_back : Heap → ℕ → ℕ → ℕ → Heap
unfolding join_next join_previous
give_back s header previous next =
    let marked = record s {
      tags = update s.tags header free_tag;
      free_bytes = (s.free_bytes + s.sizes header) % u64_mod;
    } in
    join_previous (join_next marked header next) header previous

unfoldable pub free : Heap → ℕ → Heap
unfolding allocated_block neighbours give_back
free s payload =
    let header = sub64 payload header_bytes in
    let around = neighbours (rounds s) s 0 header in
    if payload == 0
    then s
    else if ltb payload ((s.heap_begin + header_bytes) % u64_mod)
        || leb s.heap_end payload
        || not (payload % default_alignment == 0)
    then s
    else if not (allocated_block s header)
    then s
    else give_back s header around.0 around.1
