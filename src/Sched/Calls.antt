-- ===== src/Sched/Calls.antt =====
-- The operations of kernel/scheduler.c as calls, and what a sequence of them leaves behind.
use valiant_core.Base.{ℕ, List, [], ◌∷◌}
use valiant_core.Sched.{
  Scheduler, task_create, task_kill, task_sleep, task_set_priority, task_block, task_unblock,
}
use valiant_core.Sched.Tick.{schedule_next}
use valiant_core.Sched.Ipc.{ipc_send, ipc_receive}

pub data Call : Type 0 where
  create : ℕ → ℕ → List ℕ → Call
  kill : ℕ → Call
  sleep : ℕ → ℕ → Call
  set_priority : ℕ → ℕ → Call
  block : ℕ → Call
  unblock : ℕ → Call
  send : ℕ → ℕ → ℕ → ℕ → Call
  receive : ℕ → Call
  timer : ℕ → Call

-- `timer` is the call of `schedule_next` by the timer interrupt, at some stack pointer.
unfoldable pub step : Scheduler → Call → Scheduler
step s (create entry priority name) = (task_create s entry priority name).0
step s (kill id) = task_kill s id
step s (sleep id ticks) = task_sleep s id ticks
step s (set_priority id priority) = task_set_priority s id priority
step s (block id) = task_block s id
step s (unblock id) = task_unblock s id
step s (send from to content len) = (ipc_send s from to content len).0
step s (receive id) = (ipc_receive s id).0
step s (timer sp) = (schedule_next s sp).0

unfoldable pub run : Scheduler → List Call → Scheduler
run s [] = s
run s (c ∷ cs) = run (step s c) cs
