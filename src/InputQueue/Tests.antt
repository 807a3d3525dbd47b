-- ===== src/InputQueue/Tests.antt =====
-- kernel/io/input_queue.cpp on a few characters.
use shirleys_os.Io.{Error}
use shirleys_os.InputQueue.{[], InputQueue, read, push}
use shirleys_os.InputQueue.Refine.{push_refines, read_refines, contents, IsValid}
use shirleys_os.Prelude.{◌<◌, refl, length, ◌∷◌, ◌++◌, ◌↔◌, ◌==◌, arith, ◌≡◌, true, if◌then◌else◌}
use shirleys_os.InputQueue.Interrupt.{
  copies, tests, pushes, here, next, delivered-in-order, nonempty, copy, start, interrupt,
}

-- Round the end of the buffer: `a` at the last index, `b` at the first.
abbrev wrapped : InputQueue
wrapped = record { buffer = λ i. if i == 255 then b'a' else b'b'; head = 1; tail = 255 }

wrapped-IsValid : IsValid wrapped
wrapped-IsValid = omega arith

contents-wrapped : contents wrapped ≡ b'a' ∷ b'b' ∷ []
contents-wrapped = refl

push_refines_example :
    let (q', pushed) = push wrapped b'c' in
    IsValid q'
    × (q'.tail ≡ 255)
    × ((pushed ≡ true) ↔ (length (contents wrapped) < 255))
    × (contents q' ≡ (if pushed then contents wrapped ++ (b'c' ∷ []) else contents wrapped))
push_refines_example = push_refines wrapped b'c' wrapped-IsValid

read_refines_example :
    let (r, out, q') = read wrapped true 1 in
    IsValid q'
    × (out ++ contents q' ≡ contents wrapped)
    × ((r ≡ record { transferred = 1; error = Error.none }) × (out ≡ b'a' ∷ []))
read_refines_example = read_refines wrapped true 1 wrapped-IsValid

-- A second interrupt between the test and the copy.
delivered-in-order_example :
    (copy (record (interrupt (record (interrupt start b'x') { phase = nonempty }) b'y') {
      phase = nonempty;
    })).accepted
    ≡ b'x' ∷ b'y' ∷ []
unfolding copy interrupt push
delivered-in-order_example =
    delivered-in-order (copy (interrupt (record (interrupt start b'x') { phase = nonempty }) b'y'))
      (next
        (next (next (next here (pushes start b'x')) (tests _ refl (omega arith))) (pushes _ b'y'))
        (copies _ refl))
