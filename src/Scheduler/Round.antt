-- ===== src/Scheduler/Round.antt =====
-- kernel/process/scheduler.cpp: which task `run_next` runs, and that every ready task gets its turn.
use shirleys_os.Scheduler.{
  is_ready, invalid_task, running, run_task, max_tasks, run_from, run_next, TaskState, is_runnable,
  Scheduler,
}
use shirleys_os.Prelude.{
  not, ◌||◌, ◌==◌, dec_lt, Bool-cases, ℕ_discrete, update, ◌∙◌, ◌⊎◌, ◌%◌, inr, ◌≢◌, ◌≤◌, refl,
  arith, ◌-◌, true, inl, false, ◌≡◌, ◌<◌, Bool, ◌+◌, Option, ℕ, zero, suc,
}

abbrev pub Runnable : Scheduler → ℕ → Type 0
Runnable s i = is_runnable (s.tasks i) ≡ true

module _ (enter : Option ℕ → ℕ → Scheduler → TaskState × Scheduler) where
  -- What a pass of the loop from `checked` on finds.
  abbrev pub Picks : Scheduler → ℕ → ℕ → Bool × Scheduler → Type 0
  Picks s stop checked (ran, t) =
      ((ran ≡ false)
        × (t ≡ s)
        × ((k : ℕ) → checked ≤ k → k < stop → ¬ Runnable s ((s.cursor + k) % max_tasks)))
      ⊎ ((k : ℕ) × (checked ≤ k)
          × (k < stop)
          × (ran ≡ true)
          × Runnable s ((s.cursor + k) % max_tasks)
          × ((m : ℕ) → checked ≤ m → m < k → ¬ Runnable s ((s.cursor + m) % max_tasks))
          × (t ≡ run_task enter s ((s.cursor + k) % max_tasks)))

  run_from-Picks :
      (left checked stop : ℕ) (s : Scheduler)
      → checked + left ≡ stop
      → Picks s stop checked (run_from enter left checked s)
  unfolding run_from
  run_from-Picks zero checked stop s e = inl (refl, refl, λ k h l. absurd (omega arith))
  run_from-Picks (suc left) checked stop s e =
      let i : ℕ = (s.cursor + checked) % max_tasks in
      elim (Bool-cases ((s.tasks i).id == invalid_task || not (is_ready (s.tasks i).state))) [
        | inl skip ↦
            let not_it : ¬ Runnable s i = λ r. ground arith in
            rw skip (elim (run_from-Picks left (checked + 1) stop s (omega arith)) [
              | inl (a, b, c) ↦ inl (
                a,
                b,
                λ k h l. elim (ℕ_discrete k checked) [
                  | yes q ↦ rw q not_it
                  | no ne ↦ c k (omega arith) l
                ],
              )
              | inr (k, h, l, a, r, c, t) ↦ inr (
                k,
                omega arith,
                l,
                a,
                r,
                λ m p q. elim (ℕ_discrete m checked) [
                  | yes w ↦ rw w not_it
                  | no ne ↦ c m (omega arith) q
                ],
                t,
              )
            ])
        | inr take ↦ rw take (
            inr (
              checked,
              omega arith,
              omega arith,
              refl,
              ground arith,
              λ m p q. absurd (omega arith),
              refl,
            ))
      ]

  -- `run_next` runs the first task in round-robin order from the cursor that is there and ready; it
  -- returns false, and changes nothing, exactly when none is.
  pub run_next-Picks : (s : Scheduler) → Picks s max_tasks 0 (run_next enter s)
  unfolding run_next
  run_next-Picks s = run_from-Picks max_tasks 0 max_tasks s refl

  -- How far the cursor is from a table entry.
  abbrev distance : Scheduler → ℕ → ℕ
  distance s j = (j + max_tasks - s.cursor) % max_tasks

  unfoldable pub after : ℕ → Scheduler → Scheduler
  after zero s = s
  after (suc n) s = after n (run_next enter s).1

  module _ (j : ℕ) (in_table : j < max_tasks)
      -- Task bodies leave the entry `j` and the cursor alone.
      (quiet : (e : Option ℕ) (c : ℕ) (t : Scheduler)
        → ((enter e c t).1.tasks j ≡ t.tasks j) × ((enter e c t).1.cursor ≡ t.cursor)) where
    run_task-quiet :
        (s : Scheduler) (i : ℕ)
        → j ≢ i
        → ((run_task enter s i).tasks j ≡ s.tasks j)
          × ((run_task enter s i).cursor ≡ (i + 1) % max_tasks)
    unfolding run_task
    run_task-quiet s i ne =
        let task = s.tasks i in
        ground (
          arith,
          quiet task.entry task.context (record s {
            tasks = update s.tasks i (record task { state = running });
            active = task.id;
            cursor = (i + 1) % max_tasks;
          }),
        )

    -- One call runs the task or brings the cursor nearer.
    closer :
        (s : Scheduler)
        → s.cursor < max_tasks
        → Runnable s j
        → (run_next enter s ≡ (true, run_task enter s j))
          ⊎ (((run_next enter s).1.tasks j ≡ s.tasks j)
              × ((run_next enter s).1.cursor < max_tasks)
              × (distance (run_next enter s).1 j < distance s j))
    closer s c r = elim (run_next-Picks s) [
      | inl (a, b, none_ready) ↦
          let q : (s.cursor + distance s j) % max_tasks ≡ j = omega arith in
          absurd (none_ready (distance s j) (omega arith) (omega arith) (rw q r))
      | inr (k, h, l, ran, pick, before, t) ↦
          let i : ℕ = (s.cursor + k) % max_tasks in
          elim (ℕ_discrete j i) [
            | yes e ↦ inl (
                let p : (run_next enter s).1 ≡ run_task enter s j = (rw e t) in
                ground (arith, ran, p))
            | no ne ↦
                (let q : (s.cursor + distance s j) % max_tasks ≡ j = omega arith in
                  let near : k < distance s j = elim (dec_lt (distance s j) k) [
                    | yes far ↦ absurd (before (distance s j) (omega arith) far (rw q r))
                    | no close ↦ omega arith
                  ] in
                  let still = run_task-quiet s i ne in
                  inr (rw t (still.0, omega (arith, still.1), omega (arith, still.1))))
          ]
    ]

    turn :
        (bound : ℕ) (s : Scheduler)
        → s.cursor < max_tasks
        → Runnable s j
        → distance s j < bound
        → (n : ℕ) × (n < bound)
          × (run_next enter (after n s) ≡ (true, run_task enter (after n s) j))
          × ((after n s).tasks j ≡ s.tasks j)
    unfolding after
    turn zero s c r d = absurd (omega arith)
    turn (suc bound) s c r d = elim (closer s c r) [
      | inl ran ↦ (0, omega arith, ran, refl)
      | inr (same, c', nearer) ↦
          let (n, l, ran, kept) = turn bound (run_next enter s).1 c' (rw same r) (omega arith) in
          (suc n, omega arith, ran, kept ∙ same)
    ]

-- Round-robin is fair: a ready task whose table entry the bodies leave alone, as they leave the
-- cursor, is run within 64 calls of `run_next`, and stands unchanged in the table until then.
pub run_next-fair :
    (enter : Option ℕ → ℕ → Scheduler → TaskState × Scheduler) (j : ℕ) (s : Scheduler)
    → j < max_tasks
    → ((e : Option ℕ) (c : ℕ) (t : Scheduler)
        → ((enter e c t).1.tasks j ≡ t.tasks j) × ((enter e c t).1.cursor ≡ t.cursor))
    → s.cursor < max_tasks
    → Runnable s j
    → (n : ℕ) × (n < max_tasks)
      × (run_next enter (after enter n s) ≡ (true, run_task enter (after enter n s) j))
      × ((after enter n s).tasks j ≡ s.tasks j)
run_next-fair enter j s in_table quiet c r =
    turn enter j in_table quiet max_tasks s c r (omega arith)
