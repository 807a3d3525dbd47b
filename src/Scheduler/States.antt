-- ===== src/Scheduler/States.antt =====
-- kernel/process/scheduler.cpp: the states of a task, and the invariant under every operation.
use shirleys_os.Scheduler.{
  ready, blocked, wake, block, finished, invalid_task, max_tasks, state, TaskState, Scheduler,
}
use shirleys_os.Prelude.{refl, ◌∙◌, false, true, ◌≡◌, arith, update, ◌≢◌, ◌<◌, ℕ}
use shirleys_os.Scheduler.Table.{update-IsValid, IsValid, find_at, block-at, wake-at}

with_state : Scheduler → ℕ → TaskState → Scheduler
with_state s i new = record s { tasks = update s.tasks i (record (s.tasks i) { state = new }) }

with_state-IsValid :
    (s : Scheduler) (i : ℕ) (new : TaskState)
    → IsValid s
    → new ≢ finished
    → IsValid (with_state s i new)
unfolding with_state
with_state-IsValid s i new v ne =
    update-IsValid s i (record (s.tasks i) { state = new }) s.active s.cursor refl ne v

state-with_state :
    (s : Scheduler) (i : ℕ) (new : TaskState)
    → IsValid s
    → new ≢ finished
    → i < max_tasks
    → (s.tasks i).id ≢ invalid_task
    → state (with_state s i new) (s.tasks i).id ≡ new
unfolding with_state state
state-with_state s i new v ne h live =
    let same : ((with_state s i new).tasks i).id ≡ (s.tasks i).id = ground arith in
    let at = find_at (with_state s i new) i (with_state-IsValid s i new v ne) h (rw same live) in
    rw ((rw same at at), state) (ground arith)

state-with_state_ne :
    (s : Scheduler) (i j : ℕ) (new : TaskState)
    → IsValid s
    → new ≢ finished
    → j < max_tasks
    → (s.tasks j).id ≢ invalid_task
    → j ≢ i
    → state (with_state s i new) (s.tasks j).id ≡ (s.tasks j).state
unfolding with_state state
state-with_state_ne s i j new v ne h live other =
    let same : ((with_state s i new).tasks j).id ≡ (s.tasks j).id = ground arith in
    let at = find_at (with_state s i new) j (with_state-IsValid s i new v ne) h (rw same live) in
    rw ((rw same at at), state) (ground arith)

module _ (s : Scheduler) (i : ℕ) (v : IsValid s) (h : i < max_tasks)
    (live : (s.tasks i).id ≢ invalid_task) where
  same-id : (new : TaskState) (k : ℕ) → ((with_state s i new).tasks k).id ≡ (s.tasks k).id
  unfolding with_state
  same-id new k = ground arith

  same-state :
      (new : TaskState) (k : ℕ) → k ≢ i → ((with_state s i new).tasks k).state ≡ (s.tasks k).state
  unfolding with_state
  same-state new k ne = ground arith

  block-with_state : block s (s.tasks i).id ≡ (true, with_state s i blocked)
  unfolding with_state
  block-with_state = block-at s i v h live

  wake-blocked : (s.tasks i).state ≡ blocked → wake s (s.tasks i).id ≡ (true, with_state s i ready)
  unfolding with_state
  wake-blocked e = wake-at s i v h live ∙ ground arith

  wake-ready : (s.tasks i).state ≡ ready → wake s (s.tasks i).id ≡ (false, s)
  wake-ready e = wake-at s i v h live ∙ ground arith

  new-state : (new : TaskState) → ((with_state s i new).tasks i).state ≡ new
  unfolding with_state
  new-state new = ground arith

-- Blocking a live task succeeds and blocks it; waking it then succeeds and makes it ready; waking it
-- once more is refused and changes nothing. Another live task keeps its state through both.
pub wake-block :
    (s : Scheduler) (i j : ℕ)
    → IsValid s
    → i < max_tasks
    → (s.tasks i).id ≢ invalid_task
    → j < max_tasks
    → (s.tasks j).id ≢ invalid_task
    → j ≢ i
    → let id = (s.tasks i).id in
      let (done, t) = block s id in
      let (woken, u) = wake t id in
      (done ≡ true)
      × (state t id ≡ blocked)
      × (woken ≡ true)
      × (state u id ≡ ready)
      × (wake u id ≡ (false, u))
      × (state t (s.tasks j).id ≡ (s.tasks j).state)
      × (state u (s.tasks j).id ≡ (s.tasks j).state)
      × IsValid u
wake-block s i j v h live hj livej ne =
    let t = with_state s i blocked in
    let u = with_state t i ready in
    let vt : IsValid t = with_state-IsValid s i blocked v (λ e. cc) in
    let vu : IsValid u = with_state-IsValid t i ready vt (λ e. cc) in
    let it = same-id s i v h live blocked i in
    let jt = same-id s i v h live blocked j in
    let livet : (t.tasks i).id ≢ invalid_task = (rw it live) in
    let livejt : (t.tasks j).id ≢ invalid_task = (rw jt livej) in
    let iu = same-id t i vt h livet ready i ∙ it in
    let liveu : (u.tasks i).id ≢ invalid_task = (rw iu live) in
    let woken : wake t (s.tasks i).id ≡ (true, u) =
      (rw it at (wake-blocked t i vt h livet (new-state s i v h live blocked))) in
    let again : wake u (s.tasks i).id ≡ (false, u) =
      (rw iu at (wake-ready u i vu h liveu (new-state t i vt h livet ready))) in
    rw (block-with_state s i v h live, woken)
      (
        refl,
        state-with_state s i blocked v (λ e. cc) h live,
        refl,
        (rw it at (state-with_state t i ready vt (λ e. cc) h livet)),
        again,
        state-with_state_ne s i j blocked v (λ e. cc) hj livej ne,
        (rw jt at (state-with_state_ne t i j ready vt (λ e. cc) hj livejt ne))
            ∙ same-state s i v h live blocked j ne,
        vu,
      )
