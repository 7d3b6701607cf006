-- ===== src/Sched/Cpu.antt =====
-- Every operation leaves the current task as the only one that can be running.
use valiant_core.Base.{
  ℕ, suc, ◌<◌, ◌≡◌, ◌≢◌, sym, ap, ◌∙◌, inl, inr, none, some, arith, List, [], ◌∷◌, ◌==◌, Option,
  ℕ_discrete, find_first, for_range, for_range_inv, leb, Bool-cases,
}
use valiant_core.Sched.{
  Scheduler, Task, running, dead, max_tasks, init_scheduler, clear_task, task_create, create_at,
  fresh_task, task_kill, task_sleep, task_set_priority, task_block, task_unblock, dead_slot,
}
use valiant_core.Sched.Tick.{schedule_next}
use valiant_core.Sched.Tick.Wake.{wake_states}
use valiant_core.Sched.Tick.Rest.{ticked}
use valiant_core.Sched.Tick.Switch.{Kept, Switched, schedule_next_cases}
use valiant_core.Sched.Ipc.Tasks.{Unblocks, ipc_send-Unblocks, ipc_receive-Unblocks}
use valiant_core.Sched.Calls.{
  Call, create, kill, sleep, set_priority, block, unblock, send, receive, timer, step, run,
}

pub record IsSound (s : Scheduler) : Type 0 where
  pub in_table : s.current_task < max_tasks
  pub one_running : (i : ℕ) → i < max_tasks → (s.tasks i).state ≡ running → i ≡ s.current_task
  pub kernel_alive : (s.tasks 0).state ≢ dead

task_kill-IsSound : (s : Scheduler) (id : ℕ) → IsSound s → IsSound (task_kill s id)
unfolding task_kill
task_kill-IsSound s id v = record {
  in_table = ground (arith, v.in_table);
  one_running = λ i h e. ground (arith, v.one_running i h);
  kernel_alive = ground (arith, v.kernel_alive);
}

task_sleep-IsSound : (s : Scheduler) (id ticks : ℕ) → IsSound s → IsSound (task_sleep s id ticks)
unfolding task_sleep
task_sleep-IsSound s id ticks v = record {
  in_table = ground (arith, v.in_table);
  one_running = λ i h e. ground (arith, v.one_running i h);
  kernel_alive = ground (arith, v.kernel_alive);
}

task_set_priority-IsSound :
    (s : Scheduler) (id p : ℕ) → IsSound s → IsSound (task_set_priority s id p)
unfolding task_set_priority
task_set_priority-IsSound s id p v = record {
  in_table = ground (arith, v.in_table);
  one_running = λ i h e. ground (arith, v.one_running i h);
  kernel_alive = ground (arith, v.kernel_alive);
}

task_block-IsSound : (s : Scheduler) (id : ℕ) → IsSound s → IsSound (task_block s id)
unfolding task_block
task_block-IsSound s id v = record {
  in_table = ground (arith, v.in_table);
  one_running = λ i h e. ground (arith, v.one_running i h);
  kernel_alive = ground (arith, v.kernel_alive);
}

task_unblock-IsSound : (s : Scheduler) (id : ℕ) → IsSound s → IsSound (task_unblock s id)
unfolding task_unblock
task_unblock-IsSound s id v = record {
  in_table = ground (arith, v.in_table);
  one_running = λ i h e. ground (arith, v.one_running i h);
  kernel_alive = ground (arith, v.kernel_alive);
}

create_at-IsSound :
    (s : Scheduler) (entry priority : ℕ) (name : List ℕ) (slot : Option ℕ)
    → IsSound s
    → IsSound (create_at s entry priority name slot).0
unfolding create_at fresh_task
create_at-IsSound s entry priority name none v = v
create_at-IsSound s entry priority name (some k) v = record {
  in_table = v.in_table;
  one_running = λ i h e. ground (arith, v.one_running i h);
  kernel_alive = ground (arith, v.kernel_alive);
}

task_create-IsSound :
    (s : Scheduler) (entry priority : ℕ) (name : List ℕ)
    → IsSound s
    → IsSound (task_create s entry priority name).0
unfolding task_create
task_create-IsSound s entry priority name v = elim (Bool-cases (leb max_tasks s.task_count)) [
  | inl full ↦ rw full v
  | inr room ↦ elim (Bool-cases (entry == 0)) [
    | inl bad ↦ rw (room, bad) v
    | inr fine ↦
        rw (room, fine)
          (create_at-IsSound s entry priority name (find_first max_tasks 0 (dead_slot s.tasks)) v)
  ]
]

Unblocks-IsSound : (s r : Scheduler) → Unblocks s r → IsSound s → IsSound r
Unblocks-IsSound s r u v = record {
  in_table = omega (arith, u.0, v.in_table);
  one_running = λ i h e. ground (arith, u.0, u.2 i, v.one_running i h);
  kernel_alive = ground (arith, u.2 0, v.kernel_alive);
}

ticked_states : (s : Scheduler) → ((ticked s).state ≡ dead → (s.tasks s.current_task).state ≡ dead)
ticked_states s e = (wake_states _).1 e

Kept-IsSound : (s : Scheduler) (r : Scheduler × Option ℕ) → Kept s r → IsSound s → IsSound r.0
Kept-IsSound s r k v = record {
  in_table = omega (arith, k.current, v.in_table);
  one_running = λ i h e. elim (ℕ_discrete i s.current_task) [
    | yes here ↦ here ∙ sym k.current
    | no there ↦
        v.one_running i h ((wake_states _).0 (ap (λ t. t.state) (sym (k.others i h there)) ∙ e))
        ∙ sym k.current
  ];
  kernel_alive = λ e. elim (ℕ_discrete 0 s.current_task) [
    | yes here ↦ v.kernel_alive (rw here (ticked_states s (ground (arith, k.state))))
    | no there ↦
        v.kernel_alive
          ((wake_states _).1 (ap (λ t. t.state) (sym (k.others 0 (omega arith) there)) ∙ e))
  ];
}

Switched-IsSound :
    (s : Scheduler) (sp : ℕ) (r : Scheduler × Option ℕ) → Switched s sp r → IsSound s → IsSound r.0
Switched-IsSound s sp r w v = record {
  in_table = w.best.in_table;
  one_running = λ i h e. elim (ℕ_discrete i r.0.current_task) [
    | yes here ↦ here
    | no there ↦ elim (ℕ_discrete i s.current_task) [
      | yes prev ↦ absurd (ground (arith, w.yields))
      | no apart ↦ absurd (
          apart (
            v.one_running i h
              ((wake_states _).0 (ap (λ t. t.state) (sym (w.others i h apart there)) ∙ e))))
    ]
  ];
  kernel_alive = λ e. elim (ℕ_discrete 0 r.0.current_task) [
    | yes here ↦ ground (arith, w.runs)
    | no there ↦ elim (ℕ_discrete 0 s.current_task) [
      | yes prev ↦ ground (arith, w.yields)
      | no apart ↦
          v.kernel_alive
            ((wake_states _).1 (ap (λ t. t.state) (sym (w.others 0 (omega arith) apart there)) ∙ e))
    ]
  ];
}

schedule_next-IsSound : (s : Scheduler) (sp : ℕ) → IsSound s → IsSound (schedule_next s sp).0
schedule_next-IsSound s sp v = elim (schedule_next_cases s sp v.in_table) [
  | inl k ↦ Kept-IsSound s _ k v
  | inr w ↦ Switched-IsSound s sp _ w v
]

-- Every operation keeps the current task in the table and the only one that can be running, and
-- never leaves the kernel's task dead.
pub step-IsSound : (s : Scheduler) (c : Call) → IsSound s → IsSound (step s c)
unfolding step
step-IsSound s (create entry priority name) v = task_create-IsSound s entry priority name v
step-IsSound s (kill id) v = task_kill-IsSound s id v
step-IsSound s (sleep id ticks) v = task_sleep-IsSound s id ticks v
step-IsSound s (set_priority id p) v = task_set_priority-IsSound s id p v
step-IsSound s (block id) v = task_block-IsSound s id v
step-IsSound s (unblock id) v = task_unblock-IsSound s id v
step-IsSound s (send from to content len) v =
    Unblocks-IsSound s _ (ipc_send-Unblocks s from to content len) v
step-IsSound s (receive id) v = Unblocks-IsSound s _ (ipc_receive-Unblocks s id) v
step-IsSound s (timer sp) v = schedule_next-IsSound s sp v

clear_task-dead :
    (n : ℕ) (tasks : ℕ → Task)
    → ((j : ℕ) → j < n → (tasks j).state ≡ dead)
    → (j : ℕ) → j < suc n
    → (clear_task n tasks j).state ≡ dead
unfolding clear_task
clear_task-dead n tasks h j lt = elim (ℕ_discrete j n) [
  | yes here ↦ ground arith
  | no there ↦ ground (arith, h j (omega arith))
]

clear_all-dead :
    (tasks : ℕ → Task) (j : ℕ)
    → j < max_tasks
    → (for_range max_tasks 0 clear_task tasks j).state ≡ dead
clear_all-dead tasks =
    for_range_inv (λ n now. (j : ℕ) → j < n → (now j).state ≡ dead) clear_task 512 0 512 tasks
      (omega arith) (λ n now lt h. clear_task-dead n now h) (λ j lt. absurd (omega arith))

init_scheduler-IsSound : (s : Scheduler) → IsSound (init_scheduler s)
unfolding init_scheduler
init_scheduler-IsSound s = record {
  in_table = omega arith;
  one_running = λ i h e. ground (arith, clear_all-dead s.tasks i);
  kernel_alive = ground arith;
}

run-IsSound : (s : Scheduler) (cs : List Call) → IsSound s → IsSound (run s cs)
unfolding run
run-IsSound s [] v = v
run-IsSound s (c ∷ cs) v = run-IsSound (step s c) cs (step-IsSound s c v)

-- After `init_scheduler` and any sequence of operations and timer ticks, the current task is in the
-- table, no other task of the table is running, and the kernel's task, number 0, is not dead.
pub run-init-IsSound : (s : Scheduler) (cs : List Call) → IsSound (run (init_scheduler s) cs)
run-init-IsSound s cs = run-IsSound _ cs (init_scheduler-IsSound s)
