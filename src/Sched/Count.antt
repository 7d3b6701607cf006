-- ===== src/Sched/Count.antt =====
-- `task_count` against the number of slots that are not dead.
use valiant_core.Base.{
  ℕ, ◌+◌, ◌<◌, ◌≡◌, ◌≢◌, refl, sym, ap, ◌∙◌, inl, inr, none, some, arith, List, Bool, true, not,
  ltb, ◌==◌, if◌then◌else◌, Option, update, ℕ_discrete, find_first, find_first-some, leb,
  Bool-cases, count, count-le, count_ext, count_change,
}
use valiant_core.Sched.{
  Scheduler, Task, ready, blocked, dead, sleeping, max_tasks, is_dead, task_create, create_at,
  fresh_task, task_kill, task_sleep, task_set_priority, task_block, task_unblock, dead_slot,
  slice_of,
}
use valiant_core.Sched.Tick.{schedule_next}
use valiant_core.Sched.Tick.Wake.{is_dead-wake}
use valiant_core.Sched.Tick.Switch.{Kept, Switched, schedule_next_cases}
use valiant_core.Sched.Ipc.{ipc_send, ipc_receive}
use valiant_core.Sched.Ipc.Tasks.{Unblocks, ipc_send-Unblocks, ipc_receive-Unblocks}
use valiant_core.Sched.Calls.{
  Call, create, kill, sleep, set_priority, block, unblock, send, receive, timer, step,
}

abbrev pub is_live : (ℕ → Task) → ℕ → Bool
is_live tasks j = not (is_dead (tasks j).state)

-- The number of slots that are not dead.
abbrev pub live : (ℕ → Task) → ℕ
live tasks = count (is_live tasks) max_tasks

abbrev pub IsCounted : Scheduler → Type 0
IsCounted s = s.task_count ≡ live s.tasks

-- Tables that agree on who is dead count alike.
live_ext :
    (a b : ℕ → Task)
    → ((j : ℕ) → j < max_tasks → is_dead (b j).state ≡ is_dead (a j).state)
    → live b ≡ live a
live_ext a b h = count_ext (is_live b) (is_live a) max_tasks (λ j lt. ap not (h j lt))

-- A write to one slot counts by what it changes there.
live-update :
    (a : ℕ → Task) (i : ℕ) (t : Task)
    → i < max_tasks
    → live (update a i t) + (if is_live a i then 1 else 0)
      ≡ live a + (if not (is_dead t.state) then 1 else 0)
live-update a i t h =
    count_change (is_live a) (is_live (update a i t)) max_tasks i h (λ j ne. ground arith)
    ∙ ap (λ b. live a + (if b then 1 else 0)) (ground arith)

task_kill-IsCounted :
    (s : Scheduler) (id : ℕ)
    → IsCounted s
    → (id < max_tasks → (s.tasks id).state ≢ dead)
    → IsCounted (task_kill s id)
unfolding task_kill
task_kill-IsCounted s id v alive = ground (
  arith,
  alive,
  live-update s.tasks id (record (s.tasks id) { state = dead }),
  count-le (is_live s.tasks) max_tasks,
)

task_sleep-IsCounted :
    (s : Scheduler) (id ticks : ℕ) → IsCounted s → IsCounted (task_sleep s id ticks)
unfolding task_sleep
task_sleep-IsCounted s id ticks v =
    ground (
      arith,
      live-update s.tasks id (record (s.tasks id) { sleep_ticks = ticks; state = sleeping }),
    )

task_set_priority-IsCounted :
    (s : Scheduler) (id p : ℕ) → IsCounted s → IsCounted (task_set_priority s id p)
unfolding task_set_priority
task_set_priority-IsCounted s id p v = elim (Bool-cases (leb max_tasks id)) [
  | inl out ↦ rw out v
  | inr within ↦
      let q = if ltb 9 p then 9 else p in
      let t = record (s.tasks id) { priority = q; time_slice = slice_of q } in
      rw within (v ∙ sym (live_ext s.tasks (update s.tasks id t) (λ j lt. ground arith)))
]

task_unblock-IsCounted : (s : Scheduler) (id : ℕ) → IsCounted s → IsCounted (task_unblock s id)
unfolding task_unblock
task_unblock-IsCounted s id v =
    ground (arith, live-update s.tasks id (record (s.tasks id) { state = ready }))

task_block-IsCounted :
    (s : Scheduler) (id : ℕ)
    → IsCounted s
    → (id < max_tasks → (s.tasks id).state ≢ dead)
    → IsCounted (task_block s id)
unfolding task_block
task_block-IsCounted s id v alive =
    ground (arith, alive, live-update s.tasks id (record (s.tasks id) { state = blocked }))

create_at-IsCounted :
    (s : Scheduler) (entry priority : ℕ) (name : List ℕ) (slot : Option ℕ)
    → IsCounted s
    → ((k : ℕ) → slot ≡ some k → (k < max_tasks) × (dead_slot s.tasks k ≡ true))
    → IsCounted (create_at s entry priority name slot).0
unfolding create_at fresh_task
create_at-IsCounted s entry priority name none v at = v
create_at-IsCounted s entry priority name (some k) v at = ground (
  arith,
  at k refl,
  count-le (is_live s.tasks) max_tasks,
  live-update s.tasks k (fresh_task (s.tasks k) k entry priority name) (at k refl).0,
)

task_create-IsCounted :
    (s : Scheduler) (entry priority : ℕ) (name : List ℕ)
    → IsCounted s
    → IsCounted (task_create s entry priority name).0
unfolding task_create
task_create-IsCounted s entry priority name v = elim (Bool-cases (leb max_tasks s.task_count)) [
  | inl full ↦ rw full v
  | inr room ↦ elim (Bool-cases (entry == 0)) [
    | inl bad ↦ rw (room, bad) v
    | inr fine ↦
        rw (room, fine)
          (create_at-IsCounted s entry priority name (find_first max_tasks 0 (dead_slot s.tasks)) v
            (λ k e.
              let f = find_first-some max_tasks 0 (dead_slot s.tasks) e in (omega arith, f.2)))
  ]
]

Unblocks-IsCounted : (s r : Scheduler) → Unblocks s r → IsCounted s → IsCounted r
Unblocks-IsCounted s r u v =
    u.1 ∙ v ∙ sym (live_ext s.tasks r.tasks (λ j lt. ground (arith, u.2 j)))

Kept-IsCounted :
    (s : Scheduler) (r : Scheduler × Option ℕ) → Kept s r → live r.0.tasks ≡ live s.tasks
Kept-IsCounted s r k = live_ext s.tasks r.0.tasks (λ j lt. elim (ℕ_discrete j s.current_task) [
  | yes here ↦ rw here (ap is_dead k.state ∙ is_dead-wake _)
  | no there ↦ ap (λ t. is_dead t.state) (k.others j lt there) ∙ is_dead-wake _
])

Switched-IsCounted :
    (s : Scheduler) (sp : ℕ) (r : Scheduler × Option ℕ)
    → Switched s sp r
    → (s.tasks s.current_task).state ≢ dead
    → live r.0.tasks ≡ live s.tasks
Switched-IsCounted s sp r w alive = live_ext s.tasks r.0.tasks (λ j lt.
    elim (ℕ_discrete j r.0.current_task) [
      | yes here ↦
          rw here (ground (arith, w.runs, w.was_ready, is_dead-wake (s.tasks r.0.current_task)))
      | no there ↦ elim (ℕ_discrete j s.current_task) [
        | yes prev ↦ rw prev (ground (arith, w.yields, alive))
        | no apart ↦ ap (λ t. is_dead t.state) (w.others j lt apart there) ∙ is_dead-wake _
      ]
    ])

schedule_next-IsCounted :
    (s : Scheduler) (sp : ℕ)
    → s.current_task < max_tasks
    → (s.tasks s.current_task).state ≢ dead
    → IsCounted s
    → IsCounted (schedule_next s sp).0
schedule_next-IsCounted s sp h alive v = elim (schedule_next_cases s sp h) [
  | inl k ↦ k.count ∙ v ∙ sym (Kept-IsCounted s _ k)
  | inr w ↦ w.count ∙ v ∙ sym (Switched-IsCounted s sp _ w alive)
]

-- The call does not name a dead task: `task_kill` and `task_block` have no guard against one, and
-- `schedule_next` makes the current task ready again even if it was killed.
abbrev pub IsOnLive : Scheduler → Call → Type 0
IsOnLive s (kill id) = id < max_tasks → (s.tasks id).state ≢ dead
IsOnLive s (block id) = id < max_tasks → (s.tasks id).state ≢ dead
IsOnLive s (timer sp) = (s.current_task < max_tasks) × ((s.tasks s.current_task).state ≢ dead)
IsOnLive s c = Unit

-- `task_count` stays the number of slots that are not dead, under every operation that does not
-- kill or block a dead task and every tick that finds the current task not dead.
pub step-IsCounted : (s : Scheduler) (c : Call) → IsCounted s → IsOnLive s c → IsCounted (step s c)
unfolding step
step-IsCounted s (create entry priority name) v on = task_create-IsCounted s entry priority name v
step-IsCounted s (kill id) v on = task_kill-IsCounted s id v on
step-IsCounted s (sleep id ticks) v on = task_sleep-IsCounted s id ticks v
step-IsCounted s (set_priority id p) v on = task_set_priority-IsCounted s id p v
step-IsCounted s (block id) v on = task_block-IsCounted s id v on
step-IsCounted s (unblock id) v on = task_unblock-IsCounted s id v
step-IsCounted s (send from to content len) v on =
    Unblocks-IsCounted s (ipc_send s from to content len).0
      (ipc_send-Unblocks s from to content len) v
step-IsCounted s (receive id) v on =
    Unblocks-IsCounted s (ipc_receive s id).0 (ipc_receive-Unblocks s id) v
step-IsCounted s (timer sp) v on = schedule_next-IsCounted s sp on.0 on.1 v

-- Killing a task that is dead already makes `task_count` wrong, for every such task but number 0.
pub task_kill_dead :
    (s : Scheduler) (id : ℕ)
    → IsCounted s
    → 0 < id
    → id < max_tasks
    → (s.tasks id).state ≡ dead
    → ¬ IsCounted (task_kill s id)
unfolding task_kill
task_kill_dead s id v pos lt gone = ground (
  arith,
  count-le (is_live s.tasks) max_tasks,
  live-update s.tasks id (record (s.tasks id) { state = dead }),
)
