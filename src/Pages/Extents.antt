-- ===== src/Pages/Extents.antt =====
-- kernel/memory/page_allocator.cpp: the arrays of extents and the two loops that edit them.
-- The mask `~(page_size - 1)` clears the low twelve bits, written by `%`.
use shirleys_os.Prelude.{
  ℕ, zero, suc, ◌+◌, ◌-◌, ◌%◌, Bool, true, false, ◌||◌, ◌&&◌, Option, none, some, if◌then◌else◌,
  ltb, leb, ◌==◌, update, u64_mod, not,
}

abbrev pub page_size : ℕ
page_size = 4096

abbrev pub max_extents : ℕ
max_extents = 4096

pub record Extent : Type 0 where
  pub begin : ℕ
  pub end : ℕ

-- An array of `max_extents` entries with the number of entries in use.
pub record Extents : Type 0 where
  pub items : ℕ → Extent
  pub count : ℕ

-- Defined by the boot loader's memory map.
pub data MemoryType : Type 0 where
  reserved usable firmware mmio reclaimable : MemoryType

pub record Region : Type 0 where
  pub physical_start : ℕ
  pub length : ℕ
  pub type : MemoryType

abbrev pub max_address : ℕ
max_address = u64_mod - 1

unfoldable pub align_down : ℕ → ℕ
align_down value = value - value % page_size

-- `none` stands for `false`, and for `result` left as it was.
unfoldable pub align_usable : Region → Option Extent
align_usable r =
    if r.length == 0
      || ltb (max_address - r.length) r.physical_start
      || ltb (max_address - (page_size - 1)) r.physical_start
    then none
    else let raw = align_down ((r.physical_start + page_size - 1) % u64_mod) in
      let begin = if raw == 0 then page_size else raw in
      let end = align_down ((r.physical_start + r.length) % u64_mod) in
      if leb end begin then none else some (record { begin = begin; end = end })

unfoldable pub align_reserved : Region → Option Extent
align_reserved r =
    if r.length == 0 || ltb (max_address - r.length) r.physical_start
    then none
    else let begin = align_down r.physical_start in
      let raw_end = (r.physical_start + r.length) % u64_mod in
      let end =
        if not (raw_end % page_size == 0)
        then if ltb (max_address - (page_size - 1)) raw_end
          then max_address
          else align_down ((raw_end + page_size - 1) % u64_mod)
        else raw_end in
      if leb end begin then none else some (record { begin = begin; end = end })

-- `while (first < count && extents[first].end < added.begin) ++first;` with `left` rounds to go.
unfoldable pub find_first : (ℕ → Extent) → ℕ → ℕ → ℕ → ℕ
find_first items zero first begin = first
find_first items (suc left) first begin =
    let rest = find_first items left (first + 1) begin in
    if ltb (items first).end begin then rest else first

unfoldable pub widen : Extent → Extent → Extent
widen added current = record {
  begin = if ltb current.begin added.begin then current.begin else added.begin;
  end = if ltb added.end current.end then current.end else added.end;
}

-- The second `while` loop: every extent that touches `added` is taken into it.
unfoldable pub absorb : (ℕ → Extent) → ℕ → ℕ → Extent → ℕ × Extent
absorb items zero last added = (last, added)
absorb items (suc left) last added =
    let rest = absorb items left (last + 1) (widen added (items last)) in
    if leb (items last).begin added.end then rest else (last, added)

-- `for (i = count; i > last; --i) extents[i - removed] = extents[i - 1];`, with `i - last` rounds.
unfoldable pub move_tail : (ℕ → Extent) → ℕ → ℕ → ℕ → ℕ → Extent
move_tail items last removed zero = items
move_tail items last removed (suc left) =
    move_tail (update items (last + left + 1 - removed) (items (last + left))) last removed left

unfoldable pub insert_extent : Extents → Extent → Extents × Bool
insert_extent x added =
    let first = find_first x.items x.count 0 added.begin in
    let (last, merged) = absorb x.items (x.count - first) first added in
    let removed = last - first in
    if removed == 0 && x.count == max_extents then (x, false) else (
      record {
        items = update (move_tail x.items last removed (x.count - last)) first merged;
        count = x.count - removed + 1;
      },
      true,
    )

-- `for (j = i + 1; j < count; ++j) extents[j - 1] = extents[j];`, with `count - j` rounds.
unfoldable pub close_gap : (ℕ → Extent) → ℕ → ℕ → ℕ → Extent
close_gap items j zero = items
close_gap items j (suc left) = close_gap (update items (j - 1) (items j)) (j + 1) left

-- `for (j = count; j > i + 1; --j) extents[j] = extents[j - 1];`, with `j - (i + 1)` rounds.
unfoldable pub open_gap : (ℕ → Extent) → ℕ → ℕ → ℕ → Extent
open_gap items i zero = items
open_gap items i (suc left) =
    open_gap (update items (i + 1 + left + 1) (items (i + 1 + left))) i left

-- One round of the loop of `subtract_extent` at index `i`: the new array and the next index.
unfoldable pub subtract_at : Extents → Extent → ℕ → Extents × ℕ
subtract_at x removed i =
    let current = x.items i in
    if leb removed.end current.begin || leb current.end removed.begin
    then (x, i + 1)
    else if leb removed.begin current.begin && leb current.end removed.end
    then (record { items = close_gap x.items (i + 1) (x.count - (i + 1)); count = x.count - 1 }, i)
    else if leb removed.begin current.begin
    then (
      record x { items = update x.items i (record { begin = removed.end; end = current.end }) },
      i + 1,
    )
    else let lower = update x.items i (record { begin = current.begin; end = removed.begin }) in
      if leb current.end removed.end
      then (record x { items = lower }, i + 1)
      else if ltb x.count max_extents
      then (
        record {
          items =
              update (open_gap lower i (x.count - (i + 1))) (i + 1)
                (record { begin = removed.end; end = current.end });
          count = x.count + 1;
        },
        i + 1,
      )
      else (record x { items = lower }, i + 1)

-- The loop, on fuel: `none` if it has not ended.
unfoldable pub subtract_from : ℕ → Extents → Extent → ℕ → Option Extents
subtract_from zero x removed i = none
subtract_from (suc fuel) x removed i =
    let (x', i') = subtract_at x removed i in
    let rest = subtract_from fuel x' removed i' in if ltb i x.count then rest else some x

-- Every round but a split passes an entry for good, and the upper half of a split is only passed.
abbrev pub subtract_fuel : Extents → ℕ
subtract_fuel x = x.count + x.count + 2

unfoldable pub subtract_extent : Extents → Extent → Option Extents
unfolding subtract_from
subtract_extent x removed = subtract_from (subtract_fuel x) x removed 0
