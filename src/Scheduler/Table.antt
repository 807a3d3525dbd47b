-- ===== src/Scheduler/Table.antt =====
-- kernel/process/scheduler.cpp: the table of tasks under `create`, `block` and `wake`.
use shirleys_os.Scheduler.{
  blocked, is_blocked, wake, block, usable_id, ready, create, finished, invalid_task, max_tasks,
  Task, free_slot, Scheduler, find, find_from,
}
use shirleys_os.Prelude.{
  false, if◌then◌else◌, true, ap, ◌%◌, u32_mod, update, ◌⊎◌, refl, ==_iff, sym, ◌==◌, inr,
  Bool-cases, inl, arith, Option-cases, ◌≡◌, ◌≢◌, ◌+◌, ◌<◌, ℕ, zero, suc, none, some, Option, Found,
  Found-here, Found-later, Found-none,
}

find_from-Found :
    (tasks : ℕ → Task) (id left i stop : ℕ)
    → i + left ≡ stop
    → Found (λ k. (tasks k).id ≡ id) i stop (find_from tasks left i id)
unfolding find_from
find_from-Found tasks id zero i stop e = Found-none _ i stop (omega arith)
find_from-Found tasks id (suc left) i stop e = elim (Bool-cases ((tasks i).id == id)) [
  | inl same ↦ rw same (Found-here _ i stop ((==_iff _ _).0 same) (omega arith))
  | inr other ↦ rw other (
      Found-later _ i stop (λ p. ground arith) (find_from tasks left (i + 1) id)
        (find_from-Found tasks id left (i + 1) stop (omega arith)))
]

free_slot-Found :
    (tasks : ℕ → Task) (left i stop : ℕ)
    → i + left ≡ stop
    → Found (λ k. (tasks k).id ≡ invalid_task) i stop (free_slot tasks left i)
unfolding free_slot
free_slot-Found tasks zero i stop e = Found-none _ i stop (omega arith)
free_slot-Found tasks (suc left) i stop e = elim (Bool-cases ((tasks i).id == invalid_task)) [
  | inl same ↦ rw same (Found-here _ i stop ((==_iff _ _).0 same) (omega arith))
  | inr other ↦ rw other (
      Found-later _ i stop (λ p. ground arith) (free_slot tasks left (i + 1))
        (free_slot-Found tasks left (i + 1) stop (omega arith)))
]

-- Live tasks have different ids, all given out before, a body, and a state other than finished.
pub record IsValid (s : Scheduler) : Type 0 where
  pub distinct :
      (i j : ℕ)
      → i < max_tasks
      → j < max_tasks
      → (s.tasks i).id ≡ (s.tasks j).id
      → (s.tasks i).id ≢ invalid_task
      → i ≡ j
  pub given_out : (i : ℕ) → i < max_tasks → (s.tasks i).id < s.next_id
  pub live : (i : ℕ) → i < max_tasks → (s.tasks i).id ≢ invalid_task → (s.tasks i).state ≢ finished
  pub next_positive : 0 < s.next_id

-- A live entry may change in everything but its id.
pub update-IsValid :
    (s : Scheduler) (i : ℕ) (t : Task) (active cursor : ℕ)
    → t.id ≡ (s.tasks i).id
    → t.state ≢ finished
    → IsValid s
    → IsValid (record s { tasks = update s.tasks i t; active = active; cursor = cursor })
update-IsValid s i t active cursor same alive v = record {
  distinct = λ k l h m e live. ground (arith, v.distinct k l h m);
  given_out = λ k h. ground (arith, v.given_out k h);
  live = λ k h live. ground (arith, v.live k h);
  next_positive = v.next_positive;
}

-- `find` gives the index of the live task with the id.
pub find_at :
    (s : Scheduler) (i : ℕ)
    → IsValid s
    → i < max_tasks
    → (s.tasks i).id ≢ invalid_task
    → find s (s.tasks i).id ≡ some i
unfolding find
find_at s i v h ne =
    let f = find_from-Found s.tasks (s.tasks i).id max_tasks 0 max_tasks refl in
    elim (Option-cases (find_from s.tasks max_tasks 0 (s.tasks i).id)) [
      | inl e ↦
          let f' : Found (λ k. (s.tasks k).id ≡ (s.tasks i).id) 0 max_tasks none = (rw e at f) in
          absurd (f' i (omega arith) h refl)
      | inr (j, e) ↦
          let f' : Found (λ k. (s.tasks k).id ≡ (s.tasks i).id) 0 max_tasks (some j) =
            (rw e at f) in
          let same : i ≡ j = v.distinct i j h f'.1 (sym f'.2) ne in ground (arith, e, same)
    ]

pub find_none :
    (s : Scheduler) (id : ℕ) → ((i : ℕ) → i < max_tasks → (s.tasks i).id ≢ id) → find s id ≡ none
unfolding find
find_none s id none_there =
    let f = find_from-Found s.tasks id max_tasks 0 max_tasks refl in
    elim (Option-cases (find_from s.tasks max_tasks 0 id)) [
      | inl e ↦ ground (arith, e)
      | inr (j, e) ↦
          let f' : Found (λ k. (s.tasks k).id ≡ id) 0 max_tasks (some j) = (rw e at f) in
          absurd (none_there j f'.1 f'.2)
    ]

-- What `create` does.
abbrev pub Created : Scheduler → Option ℕ → ℕ → ℕ × Scheduler → Type 0
Created s entry context (id, t) =
    ((id ≡ invalid_task)
      × (t ≡ s)
      × ((entry ≡ none) ⊎ ((i : ℕ) → i < max_tasks → (s.tasks i).id ≢ invalid_task)))
    ⊎ ((i : ℕ) × (i < max_tasks)
        × (entry ≢ none)
        × ((s.tasks i).id ≡ invalid_task)
        × (id ≢ invalid_task)
        × ((k : ℕ) → k < max_tasks → (s.tasks k).id ≢ id)
        × (t.tasks i ≡ record { id = id; entry = entry; context = context; state = ready })
        × ((k : ℕ) → k ≢ i → t.tasks k ≡ s.tasks k)
        × (find t id ≡ some i)
        × IsValid t)

created : Scheduler → ℕ → ℕ → ℕ → Scheduler
created s i body context = record s {
  tasks =
      update s.tasks i
        (record { id = s.next_id; entry = some body; context = context; state = ready });
  next_id = s.next_id + 1;
}

create-eq :
    (s : Scheduler) (body context i : ℕ)
    → IsValid s
    → s.next_id + 1 < u32_mod
    → free_slot s.tasks max_tasks 0 ≡ some i
    → create s (some body) context ≡ (s.next_id, created s i body context)
unfolding create created
create-eq s body context i v small e =
    let positive = v.next_positive in
    let fits : (s.next_id + 1) % u32_mod ≡ s.next_id + 1 = omega arith in
    let same : usable_id s.next_id ≡ s.next_id = (unfold usable_id in ground arith) in
    rw (e, create) (rw (same, fits))

create-full :
    (s : Scheduler) (body context : ℕ)
    → free_slot s.tasks max_tasks 0 ≡ none
    → create s (some body) context ≡ (invalid_task, s)
unfolding create
create-full s body context e = rw (e, create)

created-IsValid :
    (s : Scheduler) (i body context : ℕ)
    → IsValid s
    → (s.tasks i).id ≡ invalid_task
    → IsValid (created s i body context)
unfolding created
created-IsValid s i body context v free = record {
  distinct = λ k l h m e ne. ground (arith, v.distinct k l h m, v.given_out k h, v.given_out l m);
  given_out = λ k h. ground (arith, v.given_out k h);
  live = λ k h ne. ground (arith, v.live k h);
  next_positive = omega arith;
}

create-null : (s : Scheduler) (context : ℕ) → create s none context ≡ (invalid_task, s)
unfolding create
create-null s context = refl

create_body-Created :
    (s : Scheduler) (body context : ℕ)
    → IsValid s
    → s.next_id + 1 < u32_mod
    → Created s (some body) context (create s (some body) context)
create_body-Created s body context v small =
    let f = free_slot-Found s.tasks max_tasks 0 max_tasks refl in
    elim (Option-cases (free_slot s.tasks max_tasks 0)) [
      | inl e ↦
          let f' : Found (λ k. (s.tasks k).id ≡ invalid_task) 0 max_tasks none = (rw e at f) in
          rw (create-full s body context e) (inl (refl, refl, inr (λ i h. f' i (omega arith) h)))
      | inr (i, e) ↦
          let f' : Found (λ k. (s.tasks k).id ≡ invalid_task) 0 max_tasks (some i) = (rw e at f) in
          let valid = created-IsValid s i body context v f'.2 in
          let positive = v.next_positive in
          let at : (created s i body context).tasks i
              ≡ record { id = s.next_id; entry = some body; context = context; state = ready } =
            (unfold created in ground arith) in
          let id_at : ((created s i body context).tasks i).id ≡ s.next_id =
            ap (λ (t : Task). t.id) at in
          rw (create-eq s body context i v small e) (
            inr (
              i,
              f'.1,
              λ null. cc,
              f'.2,
              omega arith,
              λ k h. omega (arith, v.given_out k h),
              at,
              (unfold created in λ k ne. ground arith),
              (rw id_at at (find_at (created s i body context) i valid f'.1 (omega arith))),
              valid,
            ))
    ]

-- On a valid table, before the ids run out (the next one is below 2^32 - 1): `create` refuses a null
-- entry, and else refuses only when every place of the table is taken; it then changes nothing.
-- Otherwise it puts a ready task with an id that no task has into one free place, where `find` finds
-- it, and leaves the other places alone, and the table is valid again.
pub create-Created :
    (s : Scheduler) (entry : Option ℕ) (context : ℕ)
    → IsValid s
    → s.next_id + 1 < u32_mod
    → Created s entry context (create s entry context)
create-Created s none context v small = rw (create-null s context) (inl (refl, refl, inl refl))
create-Created s (some body) context v small = create_body-Created s body context v small

-- `block` and `wake` on the id of a live task.
pub block-at :
    (s : Scheduler) (i : ℕ)
    → IsValid s
    → i < max_tasks
    → (s.tasks i).id ≢ invalid_task
    → block s (s.tasks i).id
      ≡ (true, record s { tasks = update s.tasks i (record (s.tasks i) { state = blocked }) })
unfolding block
block-at s i v h ne = let alive = v.live i h ne in rw (find_at s i v h ne, block) (ground arith)

pub wake-at :
    (s : Scheduler) (i : ℕ)
    → IsValid s
    → i < max_tasks
    → (s.tasks i).id ≢ invalid_task
    → wake s (s.tasks i).id ≡ (
        if is_blocked (s.tasks i).state
        then (true, record s { tasks = update s.tasks i (record (s.tasks i) { state = ready }) })
        else (false, s))
unfolding wake
wake-at s i v h ne = rw (find_at s i v h ne, wake) (ground arith)
