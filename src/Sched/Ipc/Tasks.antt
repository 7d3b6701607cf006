-- ===== src/Sched/Ipc/Tasks.antt =====
-- What `ipc_send` and `ipc_receive` do to the rest of the scheduler: at most one blocked task, the
-- receiver, becomes ready.
use valiant_core.Base.{
  ℕ, ◌≡◌, ◌⊎◌, refl, Option, none, some, inl, inr, arith, Bool-cases, ◌||◌, leb, find_first,
}
use valiant_core.Sched.{Scheduler, ready, blocked, is_dead, max_tasks, ipc_queue_size}
use valiant_core.Sched.Ipc.{ipc_send, ipc_receive, deliver, free_slot, letter_for, collect}

-- The two tables differ at most in tasks that were blocked and are ready now.
abbrev pub Unblocks : Scheduler → Scheduler → Type 0
Unblocks s r =
    (r.current_task ≡ s.current_task)
    × (r.task_count ≡ s.task_count)
    × ((j : ℕ)
        → (r.tasks j ≡ s.tasks j)
          ⊎ (((s.tasks j).state ≡ blocked) × (r.tasks j ≡ record (s.tasks j) { state = ready })))

deliver-Unblocks :
    (s : Scheduler) (from to content len : ℕ) (slot : Option ℕ)
    → Unblocks s (deliver s from to content len slot).0
unfolding deliver
deliver-Unblocks s from to content len none = (refl, refl, λ j. inl refl)
deliver-Unblocks s from to content len (some i) = (ground arith, ground arith, λ j. ground arith)

same-Unblocks : (s : Scheduler) → Unblocks s s
same-Unblocks s = (refl, refl, λ j. inl refl)

pub ipc_send-Unblocks :
    (s : Scheduler) (from to content len : ℕ) → Unblocks s (ipc_send s from to content len).0
unfolding ipc_send
ipc_send-Unblocks s from to content len =
    elim (Bool-cases (leb max_tasks from || leb max_tasks to)) [
      | inl out ↦ rw out (same-Unblocks s)
      | inr within ↦ elim (Bool-cases (is_dead (s.tasks to).state)) [
        | inl gone ↦ rw (within, gone) (same-Unblocks s)
        | inr alive ↦
            rw (within, alive)
              (deliver-Unblocks s from to content len
                (find_first ipc_queue_size 0 (free_slot s.ipc_queue)))
      ]
    ]

collect-Unblocks : (s : Scheduler) (slot : Option ℕ) → Unblocks s (collect s slot).0
unfolding collect
collect-Unblocks s none = same-Unblocks s
collect-Unblocks s (some i) = (refl, refl, λ j. inl refl)

pub ipc_receive-Unblocks : (s : Scheduler) (id : ℕ) → Unblocks s (ipc_receive s id).0
unfolding ipc_receive
ipc_receive-Unblocks s id = elim (Bool-cases (leb max_tasks id)) [
  | inl out ↦ rw out (same-Unblocks s)
  | inr within ↦
      rw within (collect-Unblocks s (find_first ipc_queue_size 0 (letter_for id s.ipc_queue)))
]
