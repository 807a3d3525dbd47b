-- ===== src/InputQueue/Refine.antt =====
-- kernel/io/input_queue.cpp: the ring holds a queue of at most 255 characters, oldest first.
use shirleys_os.Prelude.{
  length-take, ==_iff, take-append-drop, inr, inl, Bool-cases, min, ◌&&◌, ◌==◌, not, ◌≤◌, Bool,
  if◌then◌else◌, ℕ_discrete, ◌↔◌, refl, drop, update_self, arith, ◌-◌, false, ◌++◌, take, ap, true,
  u64_mod, length, ◌<◌, ◌≢◌, ◌+◌, update, ◌≡◌, ◌%◌, ℕ, zero, suc, [], ◌∷◌, List,
}
use shirleys_os.Io.{Error}
use shirleys_os.InputQueue.{InputQueue, capacity, push, read, read_loop, available}

-- Both indices stay inside the buffer.
pub record IsValid (q : InputQueue) : Type 0 where
  pub head_in : q.head < capacity
  pub tail_in : q.tail < capacity

-- The `n` characters from index `i` on, going round at the capacity.
abbrev pub window : (ℕ → ℕ) → ℕ → ℕ → List ℕ
window buffer i zero = []
window buffer i (suc n) = buffer (i % capacity) ∷ window buffer (i + 1) n

abbrev pub count : InputQueue → ℕ
count q = (q.head + capacity - q.tail) % capacity

abbrev pub contents : InputQueue → List ℕ
contents q = window q.buffer q.tail (count q)

window-mod :
    (buffer : ℕ → ℕ) (i j n : ℕ)
    → i % capacity ≡ j % capacity
    → window buffer i n ≡ window buffer j n
window-mod buffer i j zero e = refl
window-mod buffer i j (suc n) e =
    let e' : (i + 1) % capacity ≡ (j + 1) % capacity = omega arith in
    ground (arith, e, window-mod buffer (i + 1) (j + 1) n e')

window-update :
    (buffer : ℕ → ℕ) (i n j v : ℕ)
    → j < capacity
    → ((k : ℕ) → k < n → (i + k) % capacity ≢ j)
    → window (update buffer j v) i n ≡ window buffer i n
window-update buffer i zero j v h apart = refl
window-update buffer i (suc n) j v h apart =
    let here : i % capacity ≢ j = omega (arith, apart 0 (omega arith)) in
    ground (
      arith,
      window-update buffer (i + 1) n j v h (λ k l. omega (arith, apart (k + 1) (omega arith))),
    )

window-snoc :
    (buffer : ℕ → ℕ) (i n : ℕ)
    → window buffer i (suc n) ≡ window buffer i n ++ (buffer ((i + n) % capacity) ∷ [])
window-snoc buffer i zero = let e : i + 0 ≡ i = omega arith in rw e
window-snoc buffer i (suc n) =
    let e : i + suc n ≡ i + 1 + n = omega arith in
    rw e (ap (λ (l : List ℕ). buffer (i % capacity) ∷ l) (window-snoc buffer (i + 1) n))

pub length-window : (buffer : ℕ → ℕ) (i n : ℕ) → length (window buffer i n) ≡ n
length-window buffer i zero = refl
length-window buffer i (suc n) = ap suc (length-window buffer (i + 1) n)

-- `available` is the number of characters held.
pub available-length : (q : InputQueue) → IsValid q → available q ≡ length (contents q)
unfolding available
available-length q v = omega (arith, length-window q.buffer q.tail (count q))

next_of : InputQueue → ℕ
next_of q = (q.head + 1) % u64_mod % capacity

push-full : (q : InputQueue) (c : ℕ) → next_of q ≡ q.tail → push q c ≡ (q, false)
unfolding push next_of
push-full q c e = ground arith

pushed_queue : InputQueue → ℕ → InputQueue
pushed_queue q c = record q { buffer = update q.buffer q.head c; head = next_of q }

push-room : (q : InputQueue) (c : ℕ) → next_of q ≢ q.tail → push q c ≡ (pushed_queue q c, true)
unfolding push next_of pushed_queue
push-room q c ne = ground arith

contents-pushed :
    (q : InputQueue) (c : ℕ)
    → IsValid q
    → next_of q ≢ q.tail
    → contents (pushed_queue q c) ≡ contents q ++ (c ∷ [])
unfolding next_of pushed_queue
contents-pushed q c v ne =
    let n : ℕ = count q in
    let more : (next_of q + capacity - q.tail) % capacity ≡ suc n = omega arith in
    let place : (q.tail + n) % capacity ≡ q.head = omega arith in
    let apart : (k : ℕ) → k < n → (q.tail + k) % capacity ≢ q.head = λ k h. omega arith in
    rw (
      more,
      window-snoc (update q.buffer q.head c) q.tail n,
      window-update q.buffer q.tail n q.head c v.head_in apart,
      place,
      update_self q.buffer q.head c,
    )

-- `push` takes a character exactly while fewer than 255 are held, and then puts it at the end; a
-- refused character changes nothing. The indices stay inside the buffer.
pub push_refines :
    (q : InputQueue) (c : ℕ)
    → IsValid q
    → let (q', pushed) = push q c in
      IsValid q'
      × (q'.tail ≡ q.tail)
      × ((pushed ≡ true) ↔ (length (contents q) < 255))
      × (contents q' ≡ (if pushed then contents q ++ (c ∷ []) else contents q))
unfolding next_of pushed_queue
push_refines q c v = elim (ℕ_discrete (next_of q) q.tail) [
  | yes e ↦
      let full : 255 ≤ length (contents q) =
        omega (arith, length-window q.buffer q.tail (count q)) in
      rw (push-full q c e) (v, refl, (λ h. absurd (cc), λ h. absurd (omega arith)), refl)
  | no ne ↦
      let room : length (contents q) < 255 =
        omega (arith, length-window q.buffer q.tail (count q)) in
      rw (push-room q c ne) (
        record { head_in = omega arith; tail_in = v.tail_in },
        refl,
        (λ h. room, λ h. refl),
        contents-pushed q c v ne,
      )
]

pop_one : InputQueue → InputQueue
pop_one q = record q { tail = (q.tail + 1) % u64_mod % capacity }

-- Taking the character at the tail takes the first one of the contents.
pub contents-cons :
    (q : InputQueue)
    → IsValid q
    → q.tail ≢ q.head
    → contents q
      ≡ q.buffer q.tail ∷ contents (record q { tail = (q.tail + 1) % u64_mod % capacity })
contents-cons q v ne =
    let n : ℕ = (q.head + capacity - (q.tail + 1) % u64_mod % capacity) % capacity in
    let less : count q ≡ suc n = omega arith in
    let place : q.tail % capacity ≡ q.tail = omega arith in
    let shift : ((q.tail + 1) % u64_mod % capacity) % capacity ≡ (q.tail + 1) % capacity =
      omega arith in
    rw (less, place, window-mod q.buffer ((q.tail + 1) % u64_mod % capacity) (q.tail + 1) n shift)

read_loop_refines :
    (left : ℕ) (q : InputQueue)
    → IsValid q
    → let (out, q') = read_loop left q in
      (out ≡ take left (contents q))
      × (contents q' ≡ drop left (contents q))
      × (q'.head ≡ q.head)
      × IsValid q'
unfolding read_loop
read_loop_refines zero q v = (refl, refl, refl, v)
read_loop_refines (suc left) q v = elim (ℕ_discrete q.tail q.head) [
  | yes e ↦
      let zero_held : count q ≡ 0 = omega arith in
      (let test : (q.tail == q.head) ≡ true = (==_iff q.tail q.head).1 e in
        let bare : contents q ≡ [] = rw zero_held in rw (test, bare) (refl, refl, refl, v))
  | no ne ↦
      let q' : InputQueue = record q { tail = (q.tail + 1) % u64_mod % capacity } in
      let ih = read_loop_refines left q' (record { head_in = v.head_in; tail_in = omega arith }) in
      ground (arith, ih, contents-cons q v ne)
]

-- `read` with a buffer never fails: it delivers the oldest characters, as many as were asked for and
-- are held, and leaves the rest in order. Without a buffer and for a length other than 0 it fails and
-- changes nothing.
pub read_refines :
    (q : InputQueue) (room : Bool) (len : ℕ)
    → IsValid q
    → let (r, out, q') = read q room len in
      IsValid q'
      × (out ++ contents q' ≡ contents q)
      × (if not (len == 0) && not room
          then (r ≡ record { transferred = 0; error = Error.invalid_argument }) × (q' ≡ q)
          else (r ≡ record { transferred = min len (length (contents q)); error = Error.none })
            × (out ≡ take len (contents q)))
unfolding read
read_refines q room len v =
    let loop = read_loop_refines len q v in
    elim (Bool-cases (not (len == 0) && not room)) [
      | inl bad ↦ rw bad (v, refl, (refl, refl))
      | inr good ↦ rw good (
        loop.3,
        (rw (loop.0, loop.1) (take-append-drop len (contents q))),
        ((rw (loop.0, length-take len (contents q))), loop.0),
      )
    ]
