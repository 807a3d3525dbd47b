-- ===== src/InputQueue.antt =====
-- include/shirley/input_queue.hpp and kernel/io/input_queue.cpp: the ring between an interrupt
-- handler and the kernel. A character is a number; `& index_mask` is `% capacity`.
pub mod Refine
pub mod Interrupt
mod Tests
use shirleys_os.Io.{Error, Result}
use shirleys_os.Prelude.{
  zero, suc, true, length, update, false, ◌∷◌, ◌&&◌, u64_mod, suc, not, ◌+◌, ◌%◌, if◌then◌else◌,
  ◌==◌, [], List, Bool, sub64, ℕ,
}

abbrev pub capacity : ℕ
capacity = 256

pub record InputQueue : Type 0 where
  pub buffer : ℕ → ℕ
  pub head : ℕ
  pub tail : ℕ

abbrev pub fresh : InputQueue
fresh = record { buffer = λ i. 0; head = 0; tail = 0 }

unfoldable pub push : InputQueue → ℕ → InputQueue × Bool
push q value =
    let next = (q.head + 1) % u64_mod % capacity in
    if next == q.tail
    then (q, false)
    else (record q { buffer = update q.buffer q.head value; head = next }, true)

unfoldable pub available : InputQueue → ℕ
available q = sub64 q.head q.tail % capacity

unfoldable pub empty : InputQueue → Bool
empty q = q.head == q.tail

unfoldable pub clear : InputQueue → InputQueue
clear q = record q { tail = q.head }

-- The loop of `read`: `left` is `length - transferred`, the list is what it has written.
unfoldable pub read_loop : ℕ → InputQueue → List ℕ × InputQueue
read_loop zero q = ([], q)
read_loop (suc left) q =
    let (rest, q') = read_loop left (record q { tail = (q.tail + 1) % u64_mod % capacity }) in
    if q.tail == q.head then ([], q) else (q.buffer q.tail ∷ rest, q')

-- `room` is whether `buffer` is not null. The list is what stands in the buffer afterwards.
unfoldable pub read : InputQueue → Bool → ℕ → Result × List ℕ × InputQueue
unfolding read_loop
read q room len =
    if not (len == 0) && not room
    then (record { transferred = 0; error = Error.invalid_argument }, [], q)
    else let (out, q') = read_loop len q in
      (record { transferred = length out; error = Error.none }, out, q')

unfoldable pub write : InputQueue → Result
write q = record { transferred = 0; error = Error.unsupported }
