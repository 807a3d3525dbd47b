-- ===== src/Scheduler/Keeps.antt =====
-- kernel/process/scheduler.cpp: `run_next` keeps the table valid if the task bodies do.
use shirleys_os.Scheduler.{
  finished, blocked, ready, max_tasks, running, run_next, run_task, invalid_task, TaskState,
  after_run, Scheduler, find, no_task,
}
use shirleys_os.Prelude.{
  ◌≡◌, ◌≢◌, ◌<◌, ◌≤◌, ◌⊎◌, ◌-◌, Bool, true, false, none, ℕ_discrete, refl, ◌%◌, inr, inl, ◌+◌,
  arith, update, Option, ℕ,
}
use shirleys_os.Scheduler.Round.{run_next-Picks, Runnable}
use shirleys_os.Scheduler.Table.{update-IsValid, IsValid, find_none}

after_run-IsValid :
    (s : Scheduler) (i : ℕ) (result : TaskState)
    → IsValid s
    → IsValid (record s {
      tasks = update s.tasks i (after_run result (s.tasks i));
      active = invalid_task;
    })
unfolding after_run
after_run-IsValid s i ready v =
    update-IsValid s i (record (s.tasks i) { state = ready }) invalid_task s.cursor refl (λ e. cc) v
after_run-IsValid s i running v =
    update-IsValid s i (record (s.tasks i) { state = ready }) invalid_task s.cursor refl (λ e. cc) v
after_run-IsValid s i blocked v =
    update-IsValid s i (record (s.tasks i) { state = blocked }) invalid_task s.cursor refl (λ e. cc)
      v
after_run-IsValid s i finished v = record {
  distinct = λ k l h m e live. ground (arith, v.distinct k l h m);
  given_out = λ k h. ground (arith, v.given_out k h, v.next_positive);
  live = λ k h live. ground (arith, v.live k h);
  next_positive = v.next_positive;
}

module _ (enter : Option ℕ → ℕ → Scheduler → TaskState × Scheduler)
    (bodies : (e : Option ℕ) (c : ℕ) (t : Scheduler) → IsValid t → IsValid (enter e c t).1) where
  run_task-IsValid : (s : Scheduler) (i : ℕ) → IsValid s → IsValid (run_task enter s i)
  unfolding run_task
  run_task-IsValid s i v =
      let task = s.tasks i in
      let entered = record s {
        tasks = update s.tasks i (record task { state = running });
        active = task.id;
        cursor = (i + 1) % max_tasks;
      } in
      after_run-IsValid (enter task.entry task.context entered).1 i
        (enter task.entry task.context entered).0
        (bodies task.entry task.context entered (
          update-IsValid s i (record task { state = running }) task.id ((i + 1) % max_tasks) refl
            (λ e. cc) v))

-- What has become of the place `i` of the table when a body has returned `result` and left `u`.
abbrev pub Settled : TaskState → ℕ → Scheduler → Scheduler → Type 0
Settled finished i u t =
    (t.tasks i ≡ no_task) × ((u.tasks i).id ≢ invalid_task → find t (u.tasks i).id ≡ none)
Settled blocked i u t = t.tasks i ≡ record (u.tasks i) { state = blocked }
Settled ready i u t = t.tasks i ≡ record (u.tasks i) { state = ready }
Settled running i u t = t.tasks i ≡ record (u.tasks i) { state = ready }

-- The table in which the body of the task at `i` starts to run.
abbrev entered : Scheduler → ℕ → Scheduler
entered s i = record s {
  tasks = update s.tasks i (record (s.tasks i) { state = running });
  active = (s.tasks i).id;
  cursor = (i + 1) % max_tasks;
}

module _ (enter : Option ℕ → ℕ → Scheduler → TaskState × Scheduler) where
  -- Nothing was ready, or a ready task ran and its place was settled by what its body returned.
  abbrev pub Ran : Scheduler → Bool × Scheduler → Type 0
  Ran s (ran, t) =
      ((ran ≡ false) × (t ≡ s) × ((i : ℕ) → i < max_tasks → ¬ Runnable s i))
      ⊎ ((i : ℕ) × (i < max_tasks)
          × Runnable s i
          × (ran ≡ true)
          × (t.active ≡ invalid_task)
          × (let (result, u) = enter (s.tasks i).entry (s.tasks i).context (entered s i) in
              Settled result i u t × ((k : ℕ) → k ≢ i → t.tasks k ≡ u.tasks k)))

after_run-Settled :
    (u : Scheduler) (i : ℕ) (result : TaskState)
    → i < max_tasks
    → IsValid u
    → Settled result i u (record u {
      tasks = update u.tasks i (after_run result (u.tasks i));
      active = invalid_task;
    })
unfolding after_run
after_run-Settled u i ready l v = ground arith
after_run-Settled u i running l v = ground arith
after_run-Settled u i blocked l v = ground arith
after_run-Settled u i finished l v = (
  ground arith,
  λ live. find_none _ (u.tasks i).id (λ k h same. elim (ℕ_discrete k i) [
    | yes here ↦ ground arith
    | no ne ↦
        let other : (u.tasks k).id ≡ (u.tasks i).id = ground arith in
        ne (v.distinct k i h l other (ground arith))
  ]),
)

module _ (enter : Option ℕ → ℕ → Scheduler → TaskState × Scheduler)
    (bodies : (e : Option ℕ) (c : ℕ) (t : Scheduler) → IsValid t → IsValid (enter e c t).1) where
  run_task-Settled :
      (s : Scheduler) (i : ℕ)
      → i < max_tasks
      → IsValid s
      → let (result, u) = enter (s.tasks i).entry (s.tasks i).context (entered s i) in
        Settled result i u (run_task enter s i)
        × ((run_task enter s i).active ≡ invalid_task)
        × ((k : ℕ) → k ≢ i → (run_task enter s i).tasks k ≡ u.tasks k)
  unfolding run_task
  run_task-Settled s i l v =
      let r = enter (s.tasks i).entry (s.tasks i).context (entered s i) in
      (
        after_run-Settled r.1 i r.0 l (
            bodies (s.tasks i).entry (s.tasks i).context (entered s i) (
              update-IsValid s i (record (s.tasks i) { state = running }) (s.tasks i).id
                ((i + 1) % max_tasks) refl (λ e. cc) v)),
        refl,
        λ k ne. ground arith,
      )

-- On a valid table, with task bodies that keep it valid and may else do anything: if `run_next` says no,
-- no task is ready and nothing has changed. Otherwise a ready task has run and no task is active. If
-- its body returned `Finished`, its place in the table is empty, and no task has the id that stood
-- there when the body returned; if `Blocked`, it is blocked, and else it is ready. The other places are
-- as the body left them, and the table is valid: live tasks have different ids that were given out, and
-- a state other than finished.
pub run_next-Ran :
    (enter : Option ℕ → ℕ → Scheduler → TaskState × Scheduler) (s : Scheduler)
    → ((e : Option ℕ) (c : ℕ) (t : Scheduler) → IsValid t → IsValid (enter e c t).1)
    → IsValid s
    → Ran enter s (run_next enter s) × IsValid (run_next enter s).1
run_next-Ran enter s bodies v = elim (run_next-Picks enter s) [
  | inl (a, same, b) ↦ (inl (a, same, none_ready b), rw same v)
  | inr (k, h, l, ran, pick, before, t) ↦
      let i : ℕ = (s.cursor + k) % max_tasks in
      let inside : i < max_tasks = omega arith in
      let (settled, idle, others) = run_task-Settled enter bodies s i inside v in
      (
        inr (i, inside, pick, ran, (rw t idle), (rw t (settled, others))),
        rw t (run_task-IsValid enter bodies s i v),
      )
]
  where
    none_ready :
        ((k : ℕ) → 0 ≤ k → k < max_tasks → ¬ Runnable s ((s.cursor + k) % max_tasks))
        → (i : ℕ) → i < max_tasks
        → ¬ Runnable s i
    none_ready b i h r =
        let k : ℕ = (i + max_tasks - s.cursor % max_tasks) % max_tasks in
        let same : (s.cursor + k) % max_tasks ≡ i = omega arith in
        b k (omega arith) (omega arith) (rw same r)
