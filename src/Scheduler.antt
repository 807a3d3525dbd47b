-- ===== src/Scheduler.antt =====
-- include/shirley/scheduler.hpp and kernel/process/scheduler.cpp: the table of cooperative tasks.
-- A task body is a client's function: it is a parameter, which may itself call the scheduler and so
-- receives the scheduler's state and gives it back.
pub mod Table
pub mod States
pub mod Round
pub mod Keeps
mod Tests
use shirleys_os.Prelude.{
  ◌||◌, u32_mod, ◌%◌, ◌&&◌, ◌==◌, update, true, some, false, ◌+◌, Bool, Option, if◌then◌else◌, none,
  not, ℕ, zero, suc,
}

pub data TaskState : Type 0 where
  ready running blocked finished : TaskState

abbrev pub invalid_task : ℕ
invalid_task = 0

abbrev pub max_tasks : ℕ
max_tasks = 64

-- `entry` names a function of the client; `none` is the null pointer.
pub record Task : Type 0 where
  pub id : ℕ
  pub entry : Option ℕ
  pub context : ℕ
  pub state : TaskState

abbrev pub no_task : Task
no_task = record { id = invalid_task; entry = none; context = 0; state = finished }

pub record Scheduler : Type 0 where
  pub tasks : ℕ → Task
  pub next_id : ℕ
  pub active : ℕ
  pub cursor : ℕ

unfoldable pub initialize : Scheduler
initialize = record { tasks = λ i. no_task; next_id = 1; active = invalid_task; cursor = 0 }

abbrev pub is_ready : TaskState → Bool
is_ready ready = true
is_ready running = false
is_ready blocked = false
is_ready finished = false

abbrev pub is_blocked : TaskState → Bool
is_blocked blocked = true
is_blocked ready = false
is_blocked running = false
is_blocked finished = false

abbrev pub is_finished : TaskState → Bool
is_finished finished = true
is_finished ready = false
is_finished running = false
is_finished blocked = false

-- `for (auto& task : tasks) if (task.id == id) return &task;` with `left` entries to go.
unfoldable pub find_from : (ℕ → Task) → ℕ → ℕ → ℕ → Option ℕ
find_from tasks zero i id = none
find_from tasks (suc left) i id =
    let rest = find_from tasks left (i + 1) id in if (tasks i).id == id then some i else rest

-- The index of a task in place of a pointer to it.
unfoldable pub find : Scheduler → ℕ → Option ℕ
unfolding find_from
find s id = if id == invalid_task then none else find_from s.tasks max_tasks 0 id

-- The loop of `create`: the first entry whose id is `invalid_task`.
unfoldable pub free_slot : (ℕ → Task) → ℕ → ℕ → Option ℕ
free_slot tasks zero i = none
free_slot tasks (suc left) i =
    let rest = free_slot tasks left (i + 1) in
    if not ((tasks i).id == invalid_task) then rest else some i

-- `if (next_id == invalid_task) ++next_id;`
unfoldable pub usable_id : ℕ → ℕ
usable_id next = if next == invalid_task then next + 1 else next

unfoldable pub create : Scheduler → Option ℕ → ℕ → ℕ × Scheduler
unfolding free_slot usable_id
create s entry context = elim entry [
  | none ↦ (invalid_task, s)
  | some body ↦ elim (free_slot s.tasks max_tasks 0) [
    | none ↦ (invalid_task, s)
    | some i ↦
        let id = usable_id s.next_id in
        (
          id,
          record s {
            tasks =
                update s.tasks i
                  (record { id = id; entry = some body; context = context; state = ready });
            next_id = (id + 1) % u32_mod;
          },
        )
  ]
]

unfoldable pub block : Scheduler → ℕ → Bool × Scheduler
block s id = elim (find s id) [
  | none ↦ (false, s)
  | some i ↦
      if is_finished (s.tasks i).state
      then (false, s)
      else (true, record s { tasks = update s.tasks i (record (s.tasks i) { state = blocked }) })
]

unfoldable pub wake : Scheduler → ℕ → Bool × Scheduler
wake s id = elim (find s id) [
  | none ↦ (false, s)
  | some i ↦
      if not (is_blocked (s.tasks i).state)
      then (false, s)
      else (true, record s { tasks = update s.tasks i (record (s.tasks i) { state = ready }) })
]

unfoldable pub state : Scheduler → ℕ → TaskState
state s id = elim (find s id) [ none ↦ finished | some i ↦ (s.tasks i).state ]

unfoldable pub count_from : (Task → Bool) → (ℕ → Task) → ℕ → ℕ → ℕ
count_from p tasks zero i = 0
count_from p tasks (suc left) i =
    let rest = count_from p tasks left (i + 1) in if p (tasks i) then rest + 1 else rest

unfoldable pub task_count : Scheduler → ℕ
unfolding count_from
task_count s = count_from (λ t. not (t.id == invalid_task)) s.tasks max_tasks 0

abbrev pub is_runnable : Task → Bool
is_runnable t = not (t.id == invalid_task) && is_ready t.state

unfoldable pub runnable_count : Scheduler → ℕ
unfolding count_from
runnable_count s = count_from is_runnable s.tasks max_tasks 0

-- What the entry of a task becomes after its body has returned `result`.
unfoldable pub after_run : TaskState → Task → Task
after_run finished t = no_task
after_run blocked t = record t { state = blocked }
after_run ready t = record t { state = ready }
after_run running t = record t { state = ready }

module _ (enter : Option ℕ → ℕ → Scheduler → TaskState × Scheduler) where
  -- The body of the loop of `run_next` once a task is found.
  unfoldable pub run_task : Scheduler → ℕ → Scheduler
  unfolding after_run
  run_task s index =
      let task = s.tasks index in
      let (result, s') = enter task.entry task.context (record s {
        tasks = update s.tasks index (record task { state = running });
        active = task.id;
        cursor = (index + 1) % max_tasks;
      }) in
      record s' {
        tasks = update s'.tasks index (after_run result (s'.tasks index));
        active = invalid_task;
      }

  unfoldable pub run_from : ℕ → ℕ → Scheduler → Bool × Scheduler
  run_from zero checked s = (false, s)
  run_from (suc left) checked s =
      let index = (s.cursor + checked) % max_tasks in
      let rest = run_from left (checked + 1) s in
      if (s.tasks index).id == invalid_task || not (is_ready (s.tasks index).state)
      then rest
      else (true, run_task s index)

  unfoldable pub run_next : Scheduler → Bool × Scheduler
  unfolding run_from
  run_next s = run_from max_tasks 0 s
