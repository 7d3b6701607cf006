-- ===== src/Sched/Aarch64.antt =====
-- kernel/scheduler64.c, the scheduler of the AArch64 kernel, and its agreement with the one of
-- kernel/scheduler.c.
pub mod Ops
use valiant_core.Base.{
  ℕ, zero, suc, ◌+◌, ◌<◌, ◌≡◌, ◌≢◌, refl, ap, ◌∙◌, arith, Option, none, some, List, [], ◌∷◌, false,
  leb, ◌==◌, if◌then◌else◌, find_first, First, find_first_eq, for_range, Bool-cases, inl, inr, u32,
  ◌%◌, ltb, update,
}
use valiant_core.Sched.{
  init_scheduler, Scheduler, Task, max_tasks, task_create, create_at, fresh_task, dead_slot,
  task_kill, task_sleep, task_set_priority, task_block, task_unblock, is_ready,
}
use valiant_core.Sched.Tick.{
  Choice, wake, wake_at, wake_all, consider, pick, switch_to, give, preempt, tick, schedule_next,
}
use valiant_core.Sched.Ipc.{ipc_send, deliver, ipc_receive, collect}
use valiant_core.Sched.Calls.{
  Call, create, kill, sleep, set_priority, block, unblock, send, receive, timer, step, run,
}
use valiant_core.Sched.Aarch64.Ops.{
  clear_task64, clear_msg64, init_scheduler64, create_at64, task_create64, task_kill64,
  task_sleep64, task_set_priority64, task_block64, task_unblock64, wake_round64, Best64,
  search_round64, switch64, schedule_next64, send_at64, ipc_send64, receive_at64, ipc_receive64,
}

unfoldable pub step64 : Scheduler → Call → Scheduler
step64 s (create entry priority name) = (task_create64 s entry priority name).0
step64 s (kill id) = task_kill64 s id
step64 s (sleep id ticks) = task_sleep64 s id ticks
step64 s (set_priority id priority) = task_set_priority64 s id priority
step64 s (block id) = task_block64 s id
step64 s (unblock id) = task_unblock64 s id
step64 s (send from to content len) = (ipc_send64 s from to content len).0
step64 s (receive id) = (ipc_receive64 s id).0
step64 s (timer sp) = (schedule_next64 s sp).0

unfoldable pub run64 : Scheduler → List Call → Scheduler
run64 s [] = s
run64 s (c ∷ cs) = run64 (step64 s c) cs

-- A task is created at an address other than 0.
abbrev pub HasEntry : Call → Type 0
HasEntry (create entry priority name) = entry ≢ 0
HasEntry (kill id) = Unit
HasEntry (sleep id ticks) = Unit
HasEntry (set_priority id priority) = Unit
HasEntry (block id) = Unit
HasEntry (unblock id) = Unit
HasEntry (send from to content len) = Unit
HasEntry (receive id) = Unit
HasEntry (timer sp) = Unit

create_at64-create_at :
    (s : Scheduler) (entry priority : ℕ) (name : List ℕ) (slot : Option ℕ)
    → create_at64 s entry priority name slot ≡ create_at s entry priority name slot
unfolding create_at64 create_at fresh_task
create_at64-create_at s entry priority name none = refl
create_at64-create_at s entry priority name (some i) = refl

pub task_create64-task_create :
    (s : Scheduler) (entry priority : ℕ) (name : List ℕ)
    → entry ≢ 0
    → task_create64 s entry priority name ≡ task_create s entry priority name
unfolding task_create64 task_create
task_create64-task_create s entry priority name ne =
    let fine : entry == 0 ≡ false = ground (arith, ne) in
    rw fine (
      ap (λ r. if leb max_tasks s.task_count then (s, none) else r)
        (create_at64-create_at s entry priority name (find_first max_tasks 0 (dead_slot s.tasks))))

task_kill64-task_kill : (s : Scheduler) (id : ℕ) → task_kill64 s id ≡ task_kill s id
unfolding task_kill64 task_kill
task_kill64-task_kill s id = refl

task_sleep64-task_sleep :
    (s : Scheduler) (id ticks : ℕ) → task_sleep64 s id ticks ≡ task_sleep s id ticks
unfolding task_sleep64 task_sleep
task_sleep64-task_sleep s id ticks = refl

task_set_priority64-task_set_priority :
    (s : Scheduler) (id priority : ℕ)
    → task_set_priority64 s id priority ≡ task_set_priority s id priority
unfolding task_set_priority64 task_set_priority
task_set_priority64-task_set_priority s id priority = refl

task_block64-task_block : (s : Scheduler) (id : ℕ) → task_block64 s id ≡ task_block s id
unfolding task_block64 task_block
task_block64-task_block s id = refl

task_unblock64-task_unblock : (s : Scheduler) (id : ℕ) → task_unblock64 s id ≡ task_unblock s id
unfolding task_unblock64 task_unblock
task_unblock64-task_unblock s id = refl

send_at64-deliver :
    (s : Scheduler) (from to content len : ℕ) (slot : Option ℕ)
    → send_at64 s from to content len slot ≡ deliver s from to content len slot
unfolding send_at64 deliver
send_at64-deliver s from to content len none = refl
send_at64-deliver s from to content len (some i) = refl

ipc_send64-ipc_send :
    (s : Scheduler) (from to content len : ℕ)
    → ipc_send64 s from to content len ≡ ipc_send s from to content len
unfolding ipc_send64 ipc_send send_at64 deliver
ipc_send64-ipc_send s from to content len = refl

ipc_receive64-ipc_receive : (s : Scheduler) (id : ℕ) → ipc_receive64 s id ≡ ipc_receive s id
unfolding ipc_receive64 ipc_receive receive_at64 collect
ipc_receive64-ipc_receive s id = refl

abbrev choice_of : Best64 → Choice
choice_of c = record { next = c.next; best = c.best }

-- The two conditions of a round of the search are one.
search_round64-consider :
    (tasks : ℕ → Task) (current i : ℕ) (c : Best64)
    → choice_of (search_round64 tasks current i c) ≡ consider tasks current i (choice_of c)
unfolding search_round64 consider
search_round64-consider tasks current i c =
    let t = tasks (u32 (current + 1 + i) % max_tasks) in
    elim (Bool-cases (is_ready t.state)) [
      | inr other ↦ rw other refl
      | inl able ↦ elim (Bool-cases (ltb t.priority c.best)) [
        | inl better ↦ rw (able, better) refl
        | inr worse ↦ rw (able, worse) refl
      ]
    ]

search64-search :
    (tasks : ℕ → Task) (current n i : ℕ) (c : Best64)
    → choice_of (for_range n i (search_round64 tasks current) c)
      ≡ for_range n i (consider tasks current) (choice_of c)
unfolding for_range
search64-search tasks current zero i c = refl
search64-search tasks current (suc n) i c =
    search64-search tasks current n (suc i) (search_round64 tasks current i c)
    ∙ ap (for_range n (suc i) (consider tasks current)) (search_round64-consider tasks current i c)

schedule_next64-schedule_next : (s : Scheduler) (sp : ℕ) → schedule_next64 s sp ≡ schedule_next s sp
unfolding schedule_next64 schedule_next tick wake_all wake_at wake wake_round64 switch64 switch_to
    give preempt pick
schedule_next64-schedule_next s sp =
    let t = tick s in
    let rested : (ℕ → Task) =
      update t.tasks t.current_task (record (t.tasks t.current_task) { ticks_used = 0 }) in
    let running_task = t.tasks t.current_task in
    ap
      (λ (next : ℕ).
        if ltb running_task.ticks_used running_task.time_slice
        then (t, none)
        else switch64 (record t { tasks = rested }) sp next)
      (ap (λ c. c.next)
        (search64-search rested s.current_task 512 0
          (record { next = s.current_task; best = 0xFF })))

-- Each operation of kernel/scheduler64.c does what the one of kernel/scheduler.c does, but for the
-- creation of a task at the address 0.
step64-step : (s : Scheduler) (c : Call) → HasEntry c → step64 s c ≡ step s c
unfolding step64 step
step64-step s (create entry priority name) h =
    ap (λ r. r.0) (task_create64-task_create s entry priority name h)
step64-step s (kill id) h = task_kill64-task_kill s id
step64-step s (sleep id ticks) h = task_sleep64-task_sleep s id ticks
step64-step s (set_priority id priority) h = task_set_priority64-task_set_priority s id priority
step64-step s (block id) h = task_block64-task_block s id
step64-step s (unblock id) h = task_unblock64-task_unblock s id
step64-step s (send from to content len) h =
    ap (λ r. r.0) (ipc_send64-ipc_send s from to content len)
step64-step s (receive id) h = ap (λ r. r.0) (ipc_receive64-ipc_receive s id)
step64-step s (timer sp) h = ap (λ r. r.0) (schedule_next64-schedule_next s sp)

-- No call creates a task at the address 0.
abbrev pub HasEntries : List Call → Type 0
HasEntries [] = Unit
HasEntries (c ∷ cs) = HasEntry c × HasEntries cs

init_scheduler64-init_scheduler : (s : Scheduler) → init_scheduler64 s ≡ init_scheduler s
unfolding init_scheduler64 clear_task64 clear_msg64 init_scheduler
init_scheduler64-init_scheduler s = refl

run64_same : (s : Scheduler) (cs : List Call) → HasEntries cs → run64 s cs ≡ run s cs
unfolding run64 run
run64_same s [] h = refl
run64_same s (c ∷ cs) h = ap (λ t. run64 t cs) (step64-step s c h.0) ∙ run64_same (step s c) cs h.1

-- The two schedulers start in the same state, and over calls that create no task at the address 0
-- they go from any state through the same states.
pub run64-run :
    (s : Scheduler) (cs : List Call)
    → HasEntries cs
    → (init_scheduler64 s ≡ init_scheduler s) × (run64 s cs ≡ run s cs)
run64-run s cs h = (init_scheduler64-init_scheduler s, run64_same s cs h)

-- For the entry point 0, with room in the table and a first dead slot `i`, the AArch64 kernel
-- creates a task in that slot, and the other kernel none.
pub task_create64_null :
    (s : Scheduler) (priority i : ℕ) (name : List ℕ)
    → s.task_count < max_tasks
    → First (dead_slot s.tasks) 0 max_tasks i
    → ((task_create64 s 0 priority name).1 ≡ some i) × ((task_create s 0 priority name).1 ≡ none)
unfolding task_create64 task_create create_at64 create_at
task_create64_null s priority i name room f =
    let fits : leb max_tasks s.task_count ≡ false = ground arith in
    rw (fits, find_first_eq max_tasks 0 (dead_slot s.tasks) f) (refl, refl)
