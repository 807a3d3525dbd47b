-- ===== src/InputQueue/Interrupt.antt =====
-- kernel/io/input_queue.cpp: `push` runs in an interrupt handler, between any two memory accesses of
-- the loop in `read`.
use shirleys_os.InputQueue.{capacity, [], fresh, push, InputQueue}
use shirleys_os.Prelude.{
  ap, inr, refl, u64_mod, length, length-append, ◌∙◌, append_assoc, ◌<◌, drop, inl, sym,
  if◌then◌else◌, ◌∷◌, ◌%◌, ◌++◌, arith, ◌≡◌, ◌+◌, Bool-cases, ◌≢◌, List, ℕ,
}
use shirleys_os.InputQueue.Refine.{
  count, length-window, contents, contents-cons, push_refines, IsValid,
}

-- Where the consumer stands in one round of the loop of `read`.
pub data Phase : Type 0 where
  outside nonempty copied : Phase

pub record System : Type 0 where
  pub queue : InputQueue
  pub phase : Phase
  -- The characters that `read` has copied out, and those that `push` has taken in.
  pub taken : List ℕ
  pub accepted : List ℕ

unfoldable pub interrupt : System → ℕ → System
interrupt s c =
    let (q, pushed) = push s.queue c in
    record s { queue = q; accepted = if pushed then s.accepted ++ (c ∷ []) else s.accepted }

-- `out[transferred++] = buffer_[tail_]`
unfoldable pub copy : System → System
copy s = record s { phase = copied; taken = s.taken ++ (s.queue.buffer s.queue.tail ∷ []) }

-- `tail_ = (tail_ + 1) & index_mask`
unfoldable pub advance : System → System
advance s = record s {
  queue = record s.queue { tail = (s.queue.tail + 1) % u64_mod % capacity };
  phase = outside;
}

pub data Step : System → System → Type 0 where
  pushes : (s : System) (c : ℕ) → Step s (interrupt s c)
  tests :
      (s : System)
      → s.phase ≡ outside
      → s.queue.tail ≢ s.queue.head
      → Step s (record s { phase = nonempty })
  copies : (s : System) → s.phase ≡ nonempty → Step s (copy s)
  advances : (s : System) → s.phase ≡ copied → Step s (advance s)

pub data Reach (s : System) : System → Type 0 where
  here : Reach s s
  next : {t u : System} → Reach s t → Step t u → Reach s u

-- The characters still to be delivered: a copied one is delivered already.
abbrev pub pending : Phase → List ℕ → List ℕ
pending outside xs = xs
pending nonempty xs = xs
pending copied xs = drop 1 xs

record IsFifo (s : System) : Type 0 where
  valid : IsValid s.queue
  held : s.phase ≢ outside → 0 < length (contents s.queue)
  order : s.accepted ≡ s.taken ++ pending s.phase (contents s.queue)

pending-snoc :
    (p : Phase) (xs : List ℕ) (c : ℕ)
    → (p ≢ outside → 0 < length xs)
    → pending p (xs ++ (c ∷ [])) ≡ pending p xs ++ (c ∷ [])
pending-snoc outside xs c h = refl
pending-snoc nonempty xs c h = refl
pending-snoc copied [] c h = absurd (let z = h (λ e. cc) in omega arith)
pending-snoc copied (x ∷ xs) c h = refl

interrupt-IsFifo : (s : System) (c : ℕ) → IsFifo s → IsFifo (interrupt s c)
unfolding interrupt
interrupt-IsFifo s c v =
    let (valid, tail, room, after) = push_refines s.queue c v.valid in
    elim (Bool-cases (push s.queue c).1) [
      | inl e ↦
          (let after' : contents (push s.queue c).0 ≡ contents s.queue ++ (c ∷ []) =
              (rw e at after) in
            record {
              valid = valid;
              held = λ h.
                  rw after'
                    (omega (arith, v.held h, length-append {0} (contents s.queue) (c ∷ [])));
              order =
                  rw (e, after', pending-snoc s.phase (contents s.queue) c v.held, v.order)
                    (append_assoc s.taken (pending s.phase (contents s.queue)) (c ∷ []));
            })
      | inr e ↦
          (let after' : contents (push s.queue c).0 ≡ contents s.queue = (rw e at after) in
            record {
              valid = valid;
              held = λ h. rw after' (v.held h);
              order = rw (e, after') v.order;
            })
    ]

-- The consumer has seen a character, so there is one to take.
contents_of_seen :
    (s : System)
    → s.phase ≢ outside
    → IsFifo s
    → contents s.queue
      ≡ s.queue.buffer s.queue.tail
        ∷ contents (record s.queue { tail = (s.queue.tail + 1) % u64_mod % capacity })
contents_of_seen s ne v =
    let some_held = v.held ne in
    let len = length-window s.queue.buffer s.queue.tail (count s.queue) in
    let vt = v.valid.tail_in in contents-cons s.queue v.valid (omega arith)

copy-IsFifo : (s : System) → s.phase ≡ nonempty → IsFifo s → IsFifo (copy s)
unfolding copy
copy-IsFifo s e v =
    let ne : s.phase ≢ outside = λ f. cc in
    let split = contents_of_seen s ne v in
    let order : s.accepted ≡ s.taken ++ contents s.queue = (rw e at v.order) in
    record {
      valid = v.valid;
      held = λ h. v.held ne;
      order =
          rw (order, split)
            (sym (
              append_assoc s.taken (s.queue.buffer s.queue.tail ∷ [])
                (contents (record s.queue { tail = (s.queue.tail + 1) % u64_mod % capacity }))));
    }

advance-IsFifo : (s : System) → s.phase ≡ copied → IsFifo s → IsFifo (advance s)
unfolding advance
advance-IsFifo s e v =
    let split = contents_of_seen s (λ f. cc) v in
    let order : s.accepted ≡ s.taken ++ drop 1 (contents s.queue) = (rw e at v.order) in
    let vh = v.valid.head_in in
    record {
      valid = record { head_in = vh; tail_in = omega arith };
      held = λ h. absurd (h refl);
      order = order ∙ ap (λ (l : List ℕ). s.taken ++ drop 1 l) split;
    }

tests-IsFifo :
    (s : System)
    → s.phase ≡ outside
    → s.queue.tail ≢ s.queue.head
    → IsFifo s
    → IsFifo (record s { phase = nonempty })
tests-IsFifo s e ne v =
    let len = length-window s.queue.buffer s.queue.tail (count s.queue) in
    let vh = v.valid.head_in in
    let vt = v.valid.tail_in in
    record { valid = v.valid; held = λ h. omega arith; order = (rw e at v.order) }

Step-IsFifo : {s t : System} → Step s t → IsFifo s → IsFifo t
Step-IsFifo (pushes s c) v = interrupt-IsFifo s c v
Step-IsFifo (tests s e ne) v = tests-IsFifo s e ne v
Step-IsFifo (copies s e) v = copy-IsFifo s e v
Step-IsFifo (advances s e) v = advance-IsFifo s e v

Reach-IsFifo : {s t : System} → Reach s t → IsFifo s → IsFifo t
Reach-IsFifo here v = v
Reach-IsFifo (next r st) v = Step-IsFifo st (Reach-IsFifo r v)

abbrev pub start : System
start = record { queue = fresh; phase = outside; taken = []; accepted = [] }

start-IsFifo : IsFifo start
start-IsFifo = record { valid = omega arith; held = λ h. absurd (h refl); order = refl }

-- Whatever way interrupts fall between the steps of `read`, the characters that `push` has accepted
-- are those that `read` has delivered followed by those still pending, in the order of their arrival:
-- none is lost, repeated or overtaken, without a lock.
pub delivered-in-order :
    (s : System) → Reach start s → s.accepted ≡ s.taken ++ pending s.phase (contents s.queue)
delivered-in-order s r = (Reach-IsFifo r start-IsFifo).order
