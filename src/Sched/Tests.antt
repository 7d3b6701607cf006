-- ===== src/Sched/Tests.antt =====
-- Runs of the scheduler on a small table, and its theorems at those states.
use valiant_core.Base.{
  ℕ, zero, suc, ◌≡◌, refl, ◌⊎◌, some, arith, true, false, List, [], ◌∷◌, for_range, find_first,
  count,
}
use valiant_core.Sched.{
  Scheduler, Task, IpcMsg, running, ready, blocked, dead, sleeping, init_scheduler, task_create,
  task_sleep,
}
use valiant_core.Sched.Tick.{
  wake_at, wake, consider, preempt, give, switch_to, pick, tick, schedule_next, wake_all,
}
use valiant_core.Sched.Tick.Switch.{Kept, Switched, schedule_next_cases}
use valiant_core.Sched.Ipc.{ipc_send, ipc_receive}
use valiant_core.Sched.Ipc.Mailbox.{Sends, Receives, ipc_send-Sends, ipc_receive-Receives}
use valiant_core.Sched.Calls.{create, kill, timer, step, run}
use valiant_core.Sched.Aarch64.{run64, run64-run}
use valiant_core.Sched.Aarch64.Ops.{init_scheduler64}
use valiant_core.Sched.Cpu.{IsSound, run-init-IsSound}
use valiant_core.Sched.Count.{IsCounted, step-IsCounted}
use valiant_core.Sched.Sleep.{ticks, IsAwake, task_sleep_wakes}
use valiant_core.Sched.Create.{Creates, task_create-Creates}

abbrev no_name : List ℕ
no_name = 0 ∷ 0 ∷ 0 ∷ 0 ∷ 0 ∷ 0 ∷ 0 ∷ 0 ∷ 0 ∷ 0 ∷ 0 ∷ 0 ∷ 0 ∷ 0 ∷ 0 ∷ 0 ∷ []

-- "shell" and zeroes
abbrev shell_name : List ℕ
shell_name = b's' ∷ b'h' ∷ b'e' ∷ b'l' ∷ b'l' ∷ 0 ∷ 0 ∷ 0 ∷ 0 ∷ 0 ∷ 0 ∷ 0 ∷ 0 ∷ 0 ∷ 0 ∷ 0 ∷ []

abbrev empty_task : Task
empty_task = record {
  id = 0;
  state = running;
  priority = 0;
  stack_ptr = 0;
  stack_base = 0;
  time_slice = 0;
  ticks_used = 0;
  sleep_ticks = 0;
  name = no_name;
}

abbrev empty_msg : IpcMsg
empty_msg = record { from = 0; to = 0; content = 0; len = 0; used = false }

-- The zeroed static variables at boot.
abbrev zeroed : Scheduler
zeroed = record {
  tasks = λ i. empty_task;
  task_count = 0;
  current_task = 0;
  tick_count = 0;
  ipc_queue = λ i. empty_msg;
}

-- The kernel's task at the end of its slice, a ready task of priority 3, two of priority 2, a
-- blocked one; every other slot is dead.
abbrev table : ℕ → Task
table zero = record empty_task { time_slice = 10; ticks_used = 9 }
table (suc zero) = record empty_task { id = 1; state = ready; priority = 3; stack_ptr = 100 }
table (suc (suc zero)) = record empty_task { id = 2; state = ready; priority = 2; stack_ptr = 200 }
table (suc (suc (suc zero))) = record empty_task {
  id = 3;
  state = ready;
  priority = 2;
  stack_ptr = 300;
}
table (suc (suc (suc (suc zero)))) = record empty_task { id = 4; state = blocked }
table (suc (suc (suc (suc (suc i))))) = record empty_task { state = dead }

abbrev five : Scheduler
five = record {
  tasks = table;
  task_count = 5;
  current_task = 0;
  tick_count = 0;
  ipc_queue = λ i. empty_msg;
}

five_switches :
    ((schedule_next five 77).0.current_task ≡ 2) × ((schedule_next five 77).1 ≡ some 200)
unfolding schedule_next tick wake_all wake_at wake pick consider preempt give switch_to for_range
five_switches = (refl, refl)

created_first_dead : (task_create five 4096 1 []).1 ≡ some 5
unfolding task_create find_first
created_first_dead = refl

run-init-IsSound_example :
    IsSound (run (init_scheduler zeroed) (create 4096 3 [] ∷ timer 9 ∷ kill 1 ∷ []))
run-init-IsSound_example = run-init-IsSound zeroed (create 4096 3 [] ∷ timer 9 ∷ kill 1 ∷ [])

schedule_next_cases_example :
    Kept five (schedule_next five 77) ⊎ Switched five 77 (schedule_next five 77)
schedule_next_cases_example = schedule_next_cases five 77 (omega arith)

task_sleep_wakes_example :
    let before = ticks (task_sleep five 1 3) (8 ∷ 9 ∷ []) in
    ((before.tasks 1).state ≡ sleeping) × IsAwake (schedule_next before 10).0 1
task_sleep_wakes_example =
    task_sleep_wakes five 1 10 (8 ∷ 9 ∷ []) (omega arith) (omega arith) (omega arith) (λ e. cc)

task_create-Creates_example : Creates five 4096 1 [] (task_create five 4096 1 [])
task_create-Creates_example = task_create-Creates five 4096 1 []

ipc_send-Sends_example : Sends five 0 4 700 16 (ipc_send five 0 4 700 16)
ipc_send-Sends_example = ipc_send-Sends five 0 4 700 16

-- The queue with an older message for task 4 in slot 1, slot 0 being free again.
abbrev older : Scheduler
older = record five { ipc_queue = queue }
  where
    queue : ℕ → IpcMsg
    queue (suc zero) = record { from = 0; to = 4; content = 1; len = 1; used = true }
    queue i = empty_msg

ipc_receive-Receives_example : Receives older 4 (ipc_receive older 4)
ipc_receive-Receives_example = ipc_receive-Receives older 4

five-IsCounted : IsCounted five
unfolding count
five-IsCounted = refl

step-IsCounted_example : IsCounted (step five (kill 3))
step-IsCounted_example = step-IsCounted five (kill 3) five-IsCounted (λ h e. cc)

run64-run_example :
    (init_scheduler64 five ≡ init_scheduler five)
    × (run64 five (create 4096 1 [] ∷ timer 9 ∷ []) ≡ run five (create 4096 1 [] ∷ timer 9 ∷ []))
run64-run_example =
    run64-run five (create 4096 1 [] ∷ timer 9 ∷ []) ((λ e. absurd (omega arith)), (tt, tt))
