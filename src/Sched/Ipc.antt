-- ===== src/Sched/Ipc.antt =====
-- `ipc_send` and `ipc_receive` of kernel/scheduler.c. A result 0 is `true`, -1 is `false` or `none`.
pub mod Tasks
pub mod Letters
pub mod Mailbox
pub mod Order
use valiant_core.Base.{
  ℕ, Bool, true, false, not, ◌&&◌, ◌||◌, Option, none, some, leb, ◌==◌, if◌then◌else◌, update,
  find_first,
}
use valiant_core.Sched.{
  Scheduler, IpcMsg, max_tasks, ipc_queue_size, ready, is_dead, is_blocked, set_state,
}

abbrev pub free_slot : (ℕ → IpcMsg) → ℕ → Bool
free_slot q i = not (q i).used

abbrev pub letter_for : ℕ → (ℕ → IpcMsg) → ℕ → Bool
letter_for id q i = (q i).used && (q i).to == id

-- The body of the loop of `ipc_send` at the free slot `i`.
unfoldable pub deliver : Scheduler → ℕ → ℕ → ℕ → ℕ → Option ℕ → Scheduler × Bool
deliver s from to content len none = (s, false)
deliver s from to content len (some i) =
    let sent = record s {
      ipc_queue =
          update s.ipc_queue i
            (record { from = from; to = to; content = content; len = len; used = true });
    } in
    (
      if is_blocked (s.tasks to).state
          then record sent { tasks = set_state s.tasks to ready }
          else sent,
      true,
    )

unfoldable pub ipc_send : Scheduler → ℕ → ℕ → ℕ → ℕ → Scheduler × Bool
unfolding deliver
ipc_send s from to content len =
    if leb max_tasks from || leb max_tasks to
    then (s, false)
    else if is_dead (s.tasks to).state
    then (s, false)
    else deliver s from to content len (find_first ipc_queue_size 0 (free_slot s.ipc_queue))

-- The loop body of `ipc_receive` at the slot `i`: what goes through `data` and `len`.
unfoldable pub collect : Scheduler → Option ℕ → Scheduler × Option (ℕ × ℕ)
collect s none = (s, none)
collect s (some i) =
    let m = s.ipc_queue i in
    (
      record s { ipc_queue = update s.ipc_queue i (record m { used = false }) },
      some (m.content, m.len),
    )

unfoldable pub ipc_receive : Scheduler → ℕ → Scheduler × Option (ℕ × ℕ)
unfolding collect
ipc_receive s id =
    if leb max_tasks id
    then (s, none)
    else collect s (find_first ipc_queue_size 0 (letter_for id s.ipc_queue))
