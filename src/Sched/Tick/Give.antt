-- ===== src/Sched/Tick/Give.antt =====
-- The two slots that a switch writes, in the tail of `schedule_next` of kernel/scheduler.c.
use valiant_core.Base.{ℕ, ◌≡◌, ◌≢◌, none, some, arith}
use valiant_core.Sched.{Scheduler, running, ready}
use valiant_core.Sched.Tick.{give}

-- `give` at another task: the two slots that it writes.
module _ (u : Scheduler) (sp next : ℕ) (other : next ≢ u.current_task) where
  pub give_current : (give u sp next).0.current_task ≡ next
  unfolding give
  give_current = ground arith

  pub give_next_slot : (give u sp next).0.tasks next ≡ record (u.tasks next) { state = running }
  unfolding give
  give_next_slot = ground arith

  pub give_prev_slot :
      (give u sp next).0.tasks u.current_task
      ≡ record (u.tasks u.current_task) { state = ready; stack_ptr = sp }
  unfolding give
  give_prev_slot = ground arith

  pub give_clock :
      ((give u sp next).0.tick_count ≡ u.tick_count) × ((give u sp next).0.ipc_queue ≡ u.ipc_queue)
  unfolding give
  give_clock = ground arith

  pub give_next : ((give u sp next).0.tasks next).state ≡ running
  unfolding give
  give_next = ground arith

  pub give_prev :
      (((give u sp next).0.tasks u.current_task).state ≡ ready)
      × (((give u sp next).0.tasks u.current_task).stack_ptr ≡ sp)
  unfolding give
  give_prev = ground arith

  pub give_resumed : (give u sp next).1 ≡ some (u.tasks next).stack_ptr
  unfolding give
  give_resumed = ground arith

  pub give_others : (j : ℕ) → j ≢ u.current_task → j ≢ next → (give u sp next).0.tasks j ≡ u.tasks j
  unfolding give
  give_others j h k = ground arith

pub give-task_count :
    (u : Scheduler) (sp next : ℕ)
    → next ≢ u.current_task
    → (give u sp next).0.task_count ≡ u.task_count
unfolding give
give-task_count u sp next ne = ground arith

pub give_same : (u : Scheduler) (sp next : ℕ) → next ≡ u.current_task → give u sp next ≡ (u, none)
unfolding give
give_same u sp next e = ground arith
