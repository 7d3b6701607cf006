-- ===== src/Sched/Sleep.antt =====
-- `task_sleep`: for how many timer ticks a task sleeps.
use valiant_core.Base.{
  ℕ, suc, ◌<◌, ◌≡◌, ◌≢◌, ap, ◌∙◌, ◌⊎◌, inl, inr, arith, List, [], ◌∷◌, Option, ℕ_discrete, map,
  length,
}
use valiant_core.Sched.{Scheduler, running, ready, dead, sleeping, max_tasks, task_sleep}
use valiant_core.Sched.Tick.{schedule_next}
use valiant_core.Sched.Tick.Wake.{wake_sleeper, wake_last}
use valiant_core.Sched.Tick.Switch.{Kept, Switched, schedule_next_cases}
use valiant_core.Sched.Calls.{timer, step, run}

-- The task is not the current one, and sleeps for `n` more ticks.
pub record IsAsleep (s : Scheduler) (id n : ℕ) : Type 0 where
  pub in_table : s.current_task < max_tasks
  pub id_in_table : id < max_tasks
  pub not_current : id ≢ s.current_task
  pub state : (s.tasks id).state ≡ sleeping
  pub left : (s.tasks id).sleep_ticks ≡ n

abbrev pub IsAwake : Scheduler → ℕ → Type 0
IsAwake s id = ((s.tasks id).state ≡ ready) ⊎ ((s.tasks id).state ≡ running)

Kept-IsAsleep :
    (s : Scheduler) (id k : ℕ) (r : Scheduler × Option ℕ)
    → Kept s r
    → IsAsleep s id (suc (suc k))
    → IsAsleep r.0 id (suc k)
Kept-IsAsleep s id k r kept a =
    let now =
      kept.others id a.id_in_table a.not_current ∙ wake_sleeper (s.tasks id) k a.state a.left in
    record {
      in_table = omega (arith, kept.current, a.in_table);
      id_in_table = a.id_in_table;
      not_current = λ e. a.not_current (e ∙ kept.current);
      state = ap (λ t. t.state) now ∙ a.state;
      left = ap (λ t. t.sleep_ticks) now;
    }

Switched-IsAsleep :
    (s : Scheduler) (sp id k : ℕ) (r : Scheduler × Option ℕ)
    → Switched s sp r
    → IsAsleep s id (suc (suc k))
    → IsAsleep r.0 id (suc k)
Switched-IsAsleep s sp id k r w a =
    let still = wake_sleeper (s.tasks id) k a.state a.left in
    let apart : id ≢ r.0.current_task = λ e. ground (arith, still, a.state, w.was_ready, e) in
    let now = w.others id a.id_in_table a.not_current apart ∙ still in
    record {
      in_table = w.best.in_table;
      id_in_table = a.id_in_table;
      not_current = apart;
      state = ap (λ t. t.state) now ∙ a.state;
      left = ap (λ t. t.sleep_ticks) now;
    }

schedule_next-IsAsleep :
    (s : Scheduler) (sp id k : ℕ)
    → IsAsleep s id (suc (suc k))
    → IsAsleep (schedule_next s sp).0 id (suc k)
schedule_next-IsAsleep s sp id k a = elim (schedule_next_cases s sp a.in_table) [
  | inl kept ↦ Kept-IsAsleep s id k _ kept a
  | inr w ↦ Switched-IsAsleep s sp id k _ w a
]

schedule_next-IsAwake :
    (s : Scheduler) (sp id : ℕ) → IsAsleep s id 1 → IsAwake (schedule_next s sp).0 id
schedule_next-IsAwake s sp id a =
    let woken = wake_last (s.tasks id) a.state (omega (arith, a.left)) in
    elim (schedule_next_cases s sp a.in_table) [
      | inl kept ↦ inl (ap (λ t. t.state) (kept.others id a.id_in_table a.not_current ∙ woken))
      | inr w ↦ elim (ℕ_discrete id (schedule_next s sp).0.current_task) [
        | yes chosen ↦ inr (rw chosen w.runs)
        | no apart ↦ inl (ap (λ t. t.state) (w.others id a.id_in_table a.not_current apart ∙ woken))
      ]
    ]

-- Timer ticks, at the stack pointers of a list.
abbrev pub ticks : Scheduler → List ℕ → Scheduler
ticks s sps = run s (map timer sps)

ticks-IsAsleep :
    (sps : List ℕ) (s : Scheduler) (id : ℕ)
    → IsAsleep s id (suc (length sps))
    → IsAsleep (ticks s sps) id 1
unfolding run step
ticks-IsAsleep [] s id a = a
ticks-IsAsleep (sp ∷ sps) s id a =
    ticks-IsAsleep sps (schedule_next s sp).0 id (schedule_next-IsAsleep s sp id (length sps) a)

task_sleep-IsAsleep :
    (s : Scheduler) (id n : ℕ)
    → s.current_task < max_tasks
    → id < max_tasks
    → id ≢ s.current_task
    → (s.tasks id).state ≢ dead
    → IsAsleep (task_sleep s id n) id n
unfolding task_sleep
task_sleep-IsAsleep s id n hc hi ne alive = record {
  in_table = ground arith;
  id_in_table = hi;
  not_current = λ e. ground arith;
  state = ground arith;
  left = ground arith;
}

-- A live task other than the current one that is put to sleep for `length sps + 1` ticks is asleep
-- after `length sps` timer ticks, and ready or running after one more.
pub task_sleep_wakes :
    (s : Scheduler) (id sp : ℕ) (sps : List ℕ)
    → s.current_task < max_tasks
    → id < max_tasks
    → id ≢ s.current_task
    → (s.tasks id).state ≢ dead
    → let before = ticks (task_sleep s id (suc (length sps))) sps in
      ((before.tasks id).state ≡ sleeping) × IsAwake (schedule_next before sp).0 id
task_sleep_wakes s id sp sps hc hi ne alive =
    let a = ticks-IsAsleep sps _ id (task_sleep-IsAsleep s id (suc (length sps)) hc hi ne alive) in
    (a.state, schedule_next-IsAwake _ sp id a)
