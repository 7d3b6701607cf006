-- ===== src/Sched/Ipc/Order.antt =====
-- Which of several messages `ipc_receive` takes: the one in the lowest slot, not the oldest.
use valiant_core.Base.{
  ℕ, ◌<◌, ◌≡◌, ◌≢◌, ap, ◌∙◌, some, arith, false, update_self, update_ne, find_first_eq, ◌||◌, leb,
  First,
}
use valiant_core.Sched.{Scheduler, dead, max_tasks, ipc_queue_size, is_dead}
use valiant_core.Sched.Ipc.{ipc_send, ipc_receive, deliver, collect, free_slot, letter_for}
use valiant_core.Sched.Ipc.Mailbox.{letter, deliver_queue}

ipc_send_at :
    (s : Scheduler) (from to content len i : ℕ)
    → from < max_tasks
    → to < max_tasks
    → (s.tasks to).state ≢ dead
    → First (free_slot s.ipc_queue) 0 ipc_queue_size i
    → ipc_send s from to content len ≡ deliver s from to content len (some i)
unfolding ipc_send
ipc_send_at s from to content len i hf ht alive f =
    let in_table : (leb max_tasks from || leb max_tasks to) ≡ false = ground arith in
    let live : is_dead (s.tasks to).state ≡ false = ground (arith, alive) in
    rw (in_table, live)
      (ap (deliver s from to content len)
        (find_first_eq ipc_queue_size 0 (free_slot s.ipc_queue) f))

ipc_receive_at :
    (s : Scheduler) (id i : ℕ)
    → id < max_tasks
    → First (letter_for id s.ipc_queue) 0 ipc_queue_size i
    → (ipc_receive s id).1 ≡ some ((s.ipc_queue i).content, (s.ipc_queue i).len)
unfolding ipc_receive collect
ipc_receive_at s id i h f =
    let in_table : leb max_tasks id ≡ false = ground arith in
    rw (in_table, find_first_eq ipc_queue_size 0 (letter_for id s.ipc_queue) f)

-- A message sent to a live task goes to the first free slot, and if no slot before that one holds a
-- message for the task, the task's next `ipc_receive` yields this message, also where an older
-- message for the task stands in a later slot.
pub ipc_receive-send :
    (s : Scheduler) (from to content len i : ℕ)
    → from < max_tasks
    → to < max_tasks
    → (s.tasks to).state ≢ dead
    → First (free_slot s.ipc_queue) 0 ipc_queue_size i
    → ((j : ℕ) → j < i → (s.ipc_queue j).to ≢ to)
    → (ipc_receive (ipc_send s from to content len).0 to).1 ≡ some (content, len)
ipc_receive-send s from to content len i hf ht alive f none_before =
    let sent = (deliver s from to content len (some i)).0 in
    let queue = deliver_queue s from to content len i in
    let at_i : sent.ipc_queue i ≡ letter from to content len =
      ap (λ q. q i) queue ∙ update_self s.ipc_queue i (letter from to content len) in
    let first : First (letter_for to sent.ipc_queue) 0 ipc_queue_size i = (
      f.0,
      f.1,
      ground (arith, at_i),
      λ j lo hi. ground (
        arith,
        none_before j hi,
        ap (λ q. q j) queue,
        update_ne s.ipc_queue i (letter from to content len) j (λ e. omega arith),
      ),
    ) in
    rw (ipc_send_at s from to content len i hf ht alive f)
      (ipc_receive_at sent to i ht first ∙ ap (λ m. some (m.content, m.len)) at_i)
