-- ===== src/Sched/Tick/Rest.antt =====
-- The tables of `schedule_next` of kernel/scheduler.c after the wake loop, and after the reset of the
-- current task's tick counter.
use valiant_core.Base.{ℕ, ◌+◌, ◌≤◌, ◌<◌, ◌≡◌, ◌≢◌, ◌⊎◌, arith, u32, update}
use valiant_core.Sched.{Scheduler, Task, max_tasks}
use valiant_core.Sched.Tick.{wake, tick}
use valiant_core.Sched.Tick.Wake.{wake_all_lem}
use valiant_core.Sched.Tick.Pick.{Ready, IsBest}

-- The running task once the tick is counted: its slot as the wake loop leaves it.
abbrev pub ticked : Scheduler → Task
ticked s = let t = s.tasks s.current_task in wake (record t { ticks_used = u32 (t.ticks_used + 1) })

pub tick_current :
    (s : Scheduler) → s.current_task < max_tasks → (tick s).tasks s.current_task ≡ ticked s
unfolding tick
tick_current s h = ground (
  arith,
  wake_all_lem
      (update s.tasks s.current_task (record (s.tasks s.current_task) {
        ticks_used = u32 ((s.tasks s.current_task).ticks_used + 1);
      }))
      s.current_task h,
)

pub tick_other :
    (s : Scheduler) (j : ℕ)
    → j < max_tasks
    → j ≢ s.current_task
    → (tick s).tasks j ≡ wake (s.tasks j)
unfolding tick
tick_other s j h ne = ground (
  arith,
  wake_all_lem
      (update s.tasks s.current_task (record (s.tasks s.current_task) {
        ticks_used = u32 ((s.tasks s.current_task).ticks_used + 1);
      }))
      j h,
)

unfoldable pub rest : Scheduler → ℕ → Task
rest t = update t.tasks t.current_task (record (t.tasks t.current_task) { ticks_used = 0 })

-- Resetting the tick counter of the current task changes no state and no priority.
pub rest_same :
    (t : Scheduler) (j : ℕ)
    → ((rest t j).state ≡ (t.tasks j).state)
      × ((rest t j).priority ≡ (t.tasks j).priority)
      × ((rest t j).stack_ptr ≡ (t.tasks j).stack_ptr)
unfolding rest
rest_same t j = ground arith

-- No other task is due: none is ready below priority 255, or the current one is itself the best.
abbrev pub NoOther : Scheduler → Type 0
NoOther t =
    ((j : ℕ) → j < max_tasks → Ready t.tasks j → 255 ≤ (t.tasks j).priority)
    ⊎ IsBest t.tasks t.current_task t.current_task

pub rest-Ready : (t : Scheduler) (j : ℕ) → Ready t.tasks j → Ready (rest t) j
rest-Ready t j r = ground (arith, rest_same t j)

pub rest-IsBest :
    (t : Scheduler) (next : ℕ)
    → IsBest (rest t) t.current_task next
    → IsBest t.tasks t.current_task next
rest-IsBest t next b = record {
  in_table = b.in_table;
  is_ready = ground (arith, rest_same t next, b.is_ready);
  least = λ j h r. ground (arith, rest_same t next, rest_same t j, b.least j h (rest-Ready t j r));
  nearest = λ j h r e.
      ground
        (arith, b.nearest j h (rest-Ready t j r) (ground (arith, rest_same t next, rest_same t j)));
}
