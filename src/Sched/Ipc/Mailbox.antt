-- ===== src/Sched/Ipc/Mailbox.antt =====
-- `ipc_send` and `ipc_receive` against a mailbox: a bag of at most 16 messages.
use mathlib.Core.List.{Perm}
use valiant_core.Base.{
  ℕ, ◌+◌, ◌≤◌, ◌<◌, ◌≡◌, ◌≢◌, refl, sym, ap, ◌∙◌, ◌⊎◌, inl, inr, none, some, arith, ◌∷◌, Bool,
  Option, true, false, Bool-cases, update, find_first, find_first-some, find_first-none, ◌||◌, leb,
  length, subst,
}
use valiant_core.Sched.{
  Scheduler, IpcMsg, dead, max_tasks, ipc_queue_size, ready, blocked, is_dead, is_blocked,
}
use valiant_core.Sched.Ipc.{ipc_send, ipc_receive, deliver, collect, free_slot, letter_for}
use valiant_core.Sched.Ipc.Letters.{letters, pending, letters_full, letters-update, letters-clear}

abbrev pub letter : ℕ → ℕ → ℕ → ℕ → IpcMsg
letter from to content len = record {
  from = from;
  to = to;
  content = content;
  len = len;
  used = true;
}

-- What a send leaves behind: its message in the bag, a blocked receiver ready, all else as before.
pub record Sent (s : Scheduler) (from to content len : ℕ) (r : Scheduler) : Type 0 where
  pub from_in_table : from < max_tasks
  pub to_in_table : to < max_tasks
  pub alive : (s.tasks to).state ≢ dead
  pub bag : Perm (pending r) (letter from to content len ∷ pending s)
  pub woken : (s.tasks to).state ≡ blocked → r.tasks to ≡ record (s.tasks to) { state = ready }
  pub not_woken : (s.tasks to).state ≢ blocked → r.tasks to ≡ s.tasks to
  pub others : (j : ℕ) → j ≢ to → r.tasks j ≡ s.tasks j
  pub rest : r ≡ record s { tasks = r.tasks; ipc_queue = r.ipc_queue }

-- A send that returns 0 adds its message to the bag and wakes a blocked receiver. One that returns -1 changes nothing, and its
-- sender or receiver is out of the table, its receiver is dead, or 16 messages are pending.
abbrev pub Sends : Scheduler → ℕ → ℕ → ℕ → ℕ → Scheduler × Bool → Type 0
Sends s from to content len r =
    ((r.1 ≡ true) × Sent s from to content len r.0)
    ⊎ ((r.1 ≡ false)
        × (r.0 ≡ s)
        × ((max_tasks ≤ from)
            ⊎ (max_tasks ≤ to)
            ⊎ ((s.tasks to).state ≡ dead)
            ⊎ (length (pending s) ≡ ipc_queue_size)))

pub deliver_queue :
    (s : Scheduler) (from to content len i : ℕ)
    → (deliver s from to content len (some i)).0.ipc_queue
      ≡ update s.ipc_queue i (letter from to content len)
unfolding deliver
deliver_queue s from to content len i = ground arith

pending-queue :
    (r : Scheduler) (q : ℕ → IpcMsg) → r.ipc_queue ≡ q → pending r ≡ letters ipc_queue_size 0 q
unfolding pending
pending-queue r q e = ap (letters ipc_queue_size 0) e

free_none :
    (q : ℕ → IpcMsg)
    → find_first ipc_queue_size 0 (free_slot q) ≡ none
    → (j : ℕ) → 0 ≤ j
    → j < 0 + ipc_queue_size
    → (q j).used ≡ true
free_none q e j lo hi = ground (arith, find_first-none ipc_queue_size 0 (free_slot q) e j)

module _ (s : Scheduler) (from to content len i : ℕ) where
  deliver_woken :
      (s.tasks to).state ≡ blocked
      → (deliver s from to content len (some i)).0.tasks to ≡ record (s.tasks to) { state = ready }
  unfolding deliver
  deliver_woken e = ground arith

  deliver_not_woken :
      (s.tasks to).state ≢ blocked
      → (deliver s from to content len (some i)).0.tasks to ≡ s.tasks to
  unfolding deliver
  deliver_not_woken ne = elim (Bool-cases (is_blocked (s.tasks to).state)) [
    | inl b ↦ absurd (ne (ground arith))
    | inr b ↦ rw b refl
  ]

  deliver_others : (j : ℕ) → j ≢ to → (deliver s from to content len (some i)).0.tasks j ≡ s.tasks j
  unfolding deliver
  deliver_others j ne = ground arith

  deliver_rest :
      let r = (deliver s from to content len (some i)).0 in
      r ≡ record s { tasks = r.tasks; ipc_queue = r.ipc_queue }
  unfolding deliver
  deliver_rest = elim (Bool-cases (is_blocked (s.tasks to).state)) [
    | inl b ↦ rw b refl
    | inr b ↦ rw b refl
  ]

deliver-Sends :
    (s : Scheduler) (from to content len : ℕ) (slot : Option ℕ)
    → from < max_tasks
    → to < max_tasks
    → (s.tasks to).state ≢ dead
    → find_first ipc_queue_size 0 (free_slot s.ipc_queue) ≡ slot
    → Sends s from to content len (deliver s from to content len slot)
unfolding deliver
deliver-Sends s from to content len none hf ht ha e = inr (
  refl,
  refl,
  inr (
      inr (
        inr (
          ap length (pending-queue s s.ipc_queue refl)
          ∙ letters_full ipc_queue_size 0 s.ipc_queue (free_none s.ipc_queue e)))),
)
deliver-Sends s from to content len (some i) hf ht ha e =
    let f = find_first-some ipc_queue_size 0 (free_slot s.ipc_queue) e in
    let added =
      letters-update ipc_queue_size 0 i s.ipc_queue (letter from to content len) f.0 f.1
        (ground (arith, f.2)) refl in
    inl (
      refl,
      record {
        from_in_table = hf;
        to_in_table = ht;
        alive = ha;
        bag =
            subst (λ l. Perm l (letter from to content len ∷ pending s))
              (sym (
                pending-queue (deliver s from to content len (some i)).0 _
                  (deliver_queue s from to content len i)))
              (unfold pending in added);
        woken = deliver_woken s from to content len i;
        not_woken = deliver_not_woken s from to content len i;
        others = deliver_others s from to content len i;
        rest = deliver_rest s from to content len i;
      },
    )

-- `ipc_send` is the send of a bag of at most 16 messages: 0 adds exactly the message given,
-- between tasks of the table and to one that is not dead, makes a blocked receiver ready and changes
-- nothing else; -1 changes nothing and comes only from a sender or receiver out of the table, a dead receiver, or
-- 16 pending messages.
pub ipc_send-Sends :
    (s : Scheduler) (from to content len : ℕ)
    → Sends s from to content len (ipc_send s from to content len)
unfolding ipc_send
ipc_send-Sends s from to content len = elim (Bool-cases (leb max_tasks from || leb max_tasks to)) [
  | inl out ↦ rw out (inr (refl, refl, ground arith))
  | inr within ↦ elim (Bool-cases (is_dead (s.tasks to).state)) [
    | inl gone ↦ rw (within, gone) (inr (refl, refl, ground arith))
    | inr alive ↦
        rw (within, alive)
          (deliver-Sends s from to content len (find_first ipc_queue_size 0 (free_slot s.ipc_queue))
            (ground arith) (ground arith) (λ e. ground arith) refl)
  ]
]

-- A receive that returns 0 takes one message for the task out of the bag. One that returns -1
-- changes nothing, and the task is out of the table or no message for it is pending.
abbrev pub Receives : Scheduler → ℕ → Scheduler × Option (ℕ × ℕ) → Type 0
Receives s id r =
    ((m : IpcMsg) × (m.to ≡ id)
      × (m.used ≡ true)
      × (r.1 ≡ some (m.content, m.len))
      × Perm (pending s) (m ∷ pending r.0))
    ⊎ ((r.1 ≡ none)
        × (r.0 ≡ s)
        × ((max_tasks ≤ id)
            ⊎ ((j : ℕ)
                → j < ipc_queue_size
                → (s.ipc_queue j).used ≡ true
                → (s.ipc_queue j).to ≢ id)))

collect-Receives :
    (s : Scheduler) (id : ℕ) (slot : Option ℕ)
    → find_first ipc_queue_size 0 (letter_for id s.ipc_queue) ≡ slot
    → Receives s id (collect s slot)
unfolding collect
collect-Receives s id none e = inr (
  refl,
  refl,
  inr (λ j lt used to.
      ground (arith, find_first-none ipc_queue_size 0 (letter_for id s.ipc_queue) e j)),
)
collect-Receives s id (some i) e =
    let f = find_first-some ipc_queue_size 0 (letter_for id s.ipc_queue) e in
    let used : (s.ipc_queue i).used ≡ true = ground (arith, f.2) in
    inl (
      s.ipc_queue i,
      ground (arith, f.2),
      used,
      refl,
      rw (pending-queue s s.ipc_queue refl, pending-queue (collect s (some i)).0 _ refl)
          (letters-clear ipc_queue_size i s.ipc_queue (omega arith) used),
    )

-- `ipc_receive` is the receive of that bag: 0 removes exactly one message, addressed to the task,
-- and yields its content and length; -1 changes nothing and comes only from a task out of the table
-- or from there being no message for it.
pub ipc_receive-Receives : (s : Scheduler) (id : ℕ) → Receives s id (ipc_receive s id)
unfolding ipc_receive
ipc_receive-Receives s id = elim (Bool-cases (leb max_tasks id)) [
  | inl out ↦ rw out (inr (refl, refl, inl (ground arith)))
  | inr within ↦
      rw within
        (collect-Receives s id (find_first ipc_queue_size 0 (letter_for id s.ipc_queue)) refl)
]
