-- ===== src/Scheduler/Tests.antt =====
-- kernel/process/scheduler.cpp with two tasks whose bodies yield.
use shirleys_os.Scheduler.States.{wake-block}
use shirleys_os.Scheduler.Round.{run_next-fair, after}
use shirleys_os.Scheduler.Keeps.{run_next-Ran, Ran}
use shirleys_os.Scheduler.{
  blocked, state, no_task, ready, finished, run_task, TaskState, wake, Scheduler, create, block,
  run_next,
}
use shirleys_os.Prelude.{false, refl, true, ◌≡◌, ◌==◌, if◌then◌else◌, some, ◌<◌, Option, arith, ℕ}
use shirleys_os.Scheduler.Table.{IsValid, Created, create-Created}

-- Every body returns `Ready` at once.
abbrev yields : Option ℕ → ℕ → Scheduler → TaskState × Scheduler
yields e c t = (ready, t)

abbrev two_tasks : Scheduler
two_tasks = record {
  tasks = λ i.
      if i == 0
      then record { id = 1; entry = some 7; context = 0; state = ready }
      else if i == 1
      then record { id = 2; entry = some 8; context = 5; state = ready }
      else no_task;
  next_id = 3;
  active = 0;
  cursor = 1;
}

two_tasks-IsValid : IsValid two_tasks
two_tasks-IsValid = record {
  distinct = λ i j h k e live. ground arith;
  given_out = λ i h. ground arith;
  live = λ i h live. ground arith;
  next_positive = omega arith;
}

run_next_second : (run_next yields two_tasks).0 ≡ true
unfolding run_next run_task
run_next_second = refl

create-Created_example : Created two_tasks (some 9) 4 (create two_tasks (some 9) 4)
create-Created_example = create-Created two_tasks (some 9) 4 two_tasks-IsValid (omega arith)

wake-block_example :
    let (done, t) = block two_tasks 2 in
    let (woken, u) = wake t 2 in
    (done ≡ true)
    × (state t 2 ≡ blocked)
    × (woken ≡ true)
    × (state u 2 ≡ ready)
    × (wake u 2 ≡ (false, u))
    × (state t 1 ≡ ready)
    × (state u 1 ≡ ready)
    × IsValid u
wake-block_example =
    wake-block two_tasks 1 0 two_tasks-IsValid (omega arith) (omega arith) (omega arith)
      (omega arith) (omega arith)

run_next-fair_example :
    (n : ℕ) × (n < 64)
    × (run_next yields (after yields n two_tasks)
        ≡ (true, run_task yields (after yields n two_tasks) 0))
    × ((after yields n two_tasks).tasks 0 ≡ two_tasks.tasks 0)
run_next-fair_example =
    run_next-fair yields 0 two_tasks (omega arith) (λ e c t. (refl, refl)) (omega arith) refl

-- Every body returns `Finished` at once.
abbrev ends : Option ℕ → ℕ → Scheduler → TaskState × Scheduler
ends e c t = (finished, t)

run_next-Ran_example :
    Ran ends two_tasks (run_next ends two_tasks) × IsValid (run_next ends two_tasks).1
run_next-Ran_example = run_next-Ran ends two_tasks (λ e c t v. v) two_tasks-IsValid
