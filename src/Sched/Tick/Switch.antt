-- ===== src/Sched/Tick/Switch.antt =====
-- What a whole call of `schedule_next` does: the slot of every task, and the switch at the end of
-- a time slice.
use valiant_core.Base.{
  ℕ, ◌≤◌, ◌<◌, ◌≡◌, ◌≢◌, refl, ap, ◌∙◌, subst, sym, ◌⊎◌, inl, inr, true, false, Option, none, some,
  arith, u32, ◌+◌, Bool-cases, ltb, ltb→lt, ltb→le, ℕ_discrete,
}
use valiant_core.Sched.{Scheduler, Task, max_tasks, running, ready, is_ready}
use valiant_core.Sched.Tick.{wake, pick, tick, give, preempt, schedule_next}
use valiant_core.Sched.Tick.Give.{
  give_current, give_next, give_prev, give_resumed, give_others, give_next_slot, give_prev_slot,
  give_clock, give-task_count, give_same,
}
use valiant_core.Sched.Tick.Pick.{Ready, IsBest, pick-IsBest}
use valiant_core.Sched.Tick.Rest.{
  ticked, tick_current, tick_other, rest, rest_same, NoOther, rest-Ready, rest-IsBest,
}

-- The task keeps the processor, its slot as the tick leaves it within the time slice, and with the
-- tick counter reset after it. Each other slot has gone through the wake loop.
pub record Kept (s : Scheduler) (r : Scheduler × Option ℕ) : Type 0 where
  pub current : r.0.current_task ≡ s.current_task
  pub count : r.0.task_count ≡ s.task_count
  pub no_switch : r.1 ≡ none
  pub state : (r.0.tasks s.current_task).state ≡ (ticked s).state
  pub others : (j : ℕ) → j < max_tasks → j ≢ s.current_task → r.0.tasks j ≡ wake (s.tasks j)
  pub clock : r.0.tick_count ≡ u32 (s.tick_count + 1)
  pub mail : r.0.ipc_queue ≡ s.ipc_queue
  pub slot :
      (((ticked s).ticks_used < (ticked s).time_slice) × (r.0.tasks s.current_task ≡ ticked s))
      ⊎ (((ticked s).time_slice ≤ (ticked s).ticks_used)
          × NoOther (tick s)
          × (r.0.tasks s.current_task ≡ record (ticked s) { ticks_used = 0 }))
  pub why : ((ticked s).ticks_used < (ticked s).time_slice) ⊎ NoOther (tick s)

-- The processor goes to the best other task at the end of the time slice: what the slots of both
-- hold then, and each other slot has gone through the wake loop.
pub record Switched (s : Scheduler) (sp : ℕ) (r : Scheduler × Option ℕ) : Type 0 where
  pub over : (ticked s).time_slice ≤ (ticked s).ticks_used
  pub count : r.0.task_count ≡ s.task_count
  pub other : r.0.current_task ≢ s.current_task
  pub best : IsBest (tick s).tasks s.current_task r.0.current_task
  pub was_ready : is_ready (wake (s.tasks r.0.current_task)).state ≡ true
  pub runs : (r.0.tasks r.0.current_task).state ≡ running
  pub yields : (r.0.tasks s.current_task).state ≡ ready
  pub saved : (r.0.tasks s.current_task).stack_ptr ≡ sp
  pub clock : r.0.tick_count ≡ u32 (s.tick_count + 1)
  pub mail : r.0.ipc_queue ≡ s.ipc_queue
  pub yielded :
      r.0.tasks s.current_task ≡ record (ticked s) { ticks_used = 0; state = ready; stack_ptr = sp }
  pub started :
      r.0.tasks r.0.current_task ≡ record (wake (s.tasks r.0.current_task)) { state = running }
  pub resumed : r.1 ≡ some (s.tasks r.0.current_task).stack_ptr
  pub others :
      (j : ℕ)
      → j < max_tasks
      → j ≢ s.current_task
      → j ≢ r.0.current_task
      → r.0.tasks j ≡ wake (s.tasks j)

rested : Scheduler → Scheduler
rested t = record t { tasks = rest t }

preempt-give :
    (t : Scheduler) (sp : ℕ) → preempt t sp ≡ give (rested t) sp (pick (rest t) t.current_task).next
unfolding preempt rest rested
preempt-give t sp = refl

wake-stack_ptr : (t : Task) → (wake t).stack_ptr ≡ t.stack_ptr
unfolding wake
wake-stack_ptr t = ground arith

tick-current_task : (s : Scheduler) → (tick s).current_task ≡ s.current_task
unfolding tick
tick-current_task s = refl

tick-task_count : (s : Scheduler) → (tick s).task_count ≡ s.task_count
unfolding tick
tick-task_count s = refl

tick_clock :
    (s : Scheduler)
    → ((tick s).tick_count ≡ u32 (s.tick_count + 1)) × ((tick s).ipc_queue ≡ s.ipc_queue)
unfolding tick
tick_clock s = (refl, refl)

module _ (s : Scheduler) (sp : ℕ) (h : s.current_task < max_tasks) where
  within-Kept : (ticked s).ticks_used < (ticked s).time_slice → Kept s (tick s, none)
  within-Kept within = record {
    current = tick-current_task s;
    count = tick-task_count s;
    no_switch = refl;
    state = ap (λ t. t.state) (tick_current s h);
    others = tick_other s;
    clock = (tick_clock s).0;
    mail = (tick_clock s).1;
    slot = inl (within, tick_current s h);
    why = inl within;
  }

  rest_others : (j : ℕ) → j < max_tasks → j ≢ s.current_task → rest (tick s) j ≡ wake (s.tasks j)
  unfolding rest
  rest_others j hj ne = ground (arith, tick_other s j hj ne, tick-current_task s)

  rest_current : rest (tick s) s.current_task ≡ record (ticked s) { ticks_used = 0 }
  unfolding rest
  rest_current = ground (arith, tick_current s h, tick-current_task s)

  stay-Kept :
      (ticked s).time_slice ≤ (ticked s).ticks_used
      → NoOther (tick s)
      → Kept s (rested (tick s), none)
  unfolding rested
  stay-Kept over idle = record {
    current = tick-current_task s;
    count = tick-task_count s;
    no_switch = refl;
    state = (rest_same (tick s) s.current_task).0 ∙ ap (λ t. t.state) (tick_current s h);
    others = rest_others;
    clock = (tick_clock s).0;
    mail = (tick_clock s).1;
    slot = inr (over, idle, rest_current);
    why = inr idle;
  }

  same_sp :
      (j : ℕ)
      → j < max_tasks
      → j ≢ s.current_task
      → (rest (tick s) j).stack_ptr ≡ (s.tasks j).stack_ptr
  same_sp j hj ne = ap (λ t. t.stack_ptr) (rest_others j hj ne) ∙ wake-stack_ptr (s.tasks j)

  give-Switched :
      (next : ℕ)
      → next ≢ s.current_task
      → (ticked s).time_slice ≤ (ticked s).ticks_used
      → IsBest (rest (tick s)) s.current_task next
      → Switched s sp (give (rested (tick s)) sp next)
  unfolding rested tick
  give-Switched next ne over b =
      let u = rested (tick s) in
      let here = give_current u sp next ne in
      record {
        over = over;
        count = give-task_count u sp next ne ∙ tick-task_count s;
        other = rw here ne;
        best = rw here (rest-IsBest (tick s) next b);
        was_ready = rw here (
            ap (λ t. is_ready t.state) (sym (tick_other s next b.in_table ne))
            ∙ (rest-IsBest (tick s) next b).is_ready);
        runs = rw here (give_next u sp next ne);
        yields = (give_prev u sp next ne).0;
        saved = (give_prev u sp next ne).1;
        clock = (give_clock u sp next ne).0 ∙ (tick_clock s).0;
        mail = (give_clock u sp next ne).1 ∙ (tick_clock s).1;
        yielded =
            give_prev_slot u sp next ne
            ∙ ap (λ (t : Task). record t { state = ready; stack_ptr = sp }) rest_current;
        started = rw here (
            give_next_slot u sp next ne
            ∙ ap (λ (t : Task). record t { state = running }) (rest_others next b.in_table ne));
        resumed = rw here (give_resumed u sp next ne ∙ ap some (same_sp next b.in_table ne));
        others = λ j hj nc nn. give_others u sp next ne j nc (rw (← here) nn) ∙ rest_others j hj nc;
      }

  current_ticked : (tick s).tasks (tick s).current_task ≡ ticked s
  current_ticked = rw (tick-current_task s) (tick_current s h)

  schedule_next_within :
      ltb (ticked s).ticks_used (ticked s).time_slice ≡ true → schedule_next s sp ≡ (tick s, none)
  unfolding schedule_next
  schedule_next_within e = rw (current_ticked, e)

  schedule_next_over :
      ltb (ticked s).ticks_used (ticked s).time_slice ≡ false
      → schedule_next s sp ≡ give (rested (tick s)) sp (pick (rest (tick s)) s.current_task).next
  unfolding schedule_next
  schedule_next_over e =
      rw (current_ticked, e)
        (preempt-give (tick s) sp
          ∙ ap (λ c. give (rested (tick s)) sp (pick (rest (tick s)) c).next) (tick-current_task s))

  give-Kept :
      (next : ℕ)
      → next ≡ s.current_task
      → (ticked s).time_slice ≤ (ticked s).ticks_used
      → NoOther (tick s)
      → Kept s (give (rested (tick s)) sp next)
  unfolding rested tick
  give-Kept next e over idle =
      subst (Kept s) (sym (give_same (rested (tick s)) sp next e)) (stay-Kept over idle)

  rest-idle :
      ((j : ℕ) → j < max_tasks → Ready (rest (tick s)) j → 255 ≤ (rest (tick s) j).priority)
      → NoOther (tick s)
  rest-idle idle =
      inl λ j hj r. omega (arith, (rest_same (tick s) j).1, idle j hj (rest-Ready (tick s) j r))

  rest_self :
      (next : ℕ)
      → next ≡ s.current_task
      → IsBest (rest (tick s)) s.current_task next
      → NoOther (tick s)
  unfolding tick
  rest_self next e b =
      inr (subst (IsBest (tick s).tasks s.current_task) e (rest-IsBest (tick s) next b))

  give_cases :
      (next : ℕ)
      → (ticked s).time_slice ≤ (ticked s).ticks_used
      → ((next ≡ s.current_task)
          × ((j : ℕ) → j < max_tasks → Ready (rest (tick s)) j → 255 ≤ (rest (tick s) j).priority))
        ⊎ IsBest (rest (tick s)) s.current_task next
      → Kept s (give (rested (tick s)) sp next) ⊎ Switched s sp (give (rested (tick s)) sp next)
  give_cases next over (inl (e, idle)) = inl (give-Kept next e over (rest-idle idle))
  give_cases next over (inr b) = elim (ℕ_discrete next s.current_task) [
    | yes e ↦ inl (give-Kept next e over (rest_self next e b))
    | no ne ↦ inr (give-Switched next ne over b)
  ]

  -- For a current task in the table, a call of `schedule_next` keeps it, within its time slice or
  -- with no other task due, or switches to the best other task, whose stack pointer it loads. Every
  -- slot is given whole: the current task's is the ticked one within the slice, has its tick counter
  -- at 0 after it, and is also ready with the stack pointer saved if it yields, whatever it was; the
  -- new task's is running; each other slot has gone through the wake loop. The clock counts the tick
  -- modulo 2^32, and the messages and the task count stay.
  pub schedule_next_cases : Kept s (schedule_next s sp) ⊎ Switched s sp (schedule_next s sp)
  schedule_next_cases = elim (Bool-cases (ltb (ticked s).ticks_used (ticked s).time_slice)) [
    | inl within ↦ inl (rw (schedule_next_within within) (within-Kept (ltb→lt _ _ within)))
    | inr over ↦
        rw (schedule_next_over over)
          (give_cases _ (ltb→le _ _ over) (pick-IsBest (rest (tick s)) s.current_task h))
  ]
