-- ===== src/Sched/Tick.antt =====
-- `schedule_next` of kernel/scheduler.c: the tick handler, which counts, wakes sleepers, and at the
-- end of a time slice hands the processor to the best ready task.
pub mod Pick
pub mod Wake
pub mod Give
pub mod Rest
pub mod Switch
use valiant_core.Base.{
  ℕ, ◌+◌, ◌-◌, ◌%◌, ◌&&◌, Option, none, some, ltb, ◌==◌, if◌then◌else◌, u32, update, for_range,
}
use valiant_core.Sched.{
  Scheduler, Task, max_tasks, running, ready, is_ready, is_sleeping, set_state,
}

-- The body of the wake loop of `schedule_next`, on the task that it looks at.
unfoldable pub wake : Task → Task
wake t =
    let left = if ltb 0 t.sleep_ticks then t.sleep_ticks - 1 else t.sleep_ticks in
    let counted = record t { sleep_ticks = left } in
    if is_sleeping t.state
    then (if left == 0 then record counted { state = ready } else counted)
    else t

unfoldable pub wake_at : ℕ → (ℕ → Task) → ℕ → Task
wake_at i tasks = update tasks i (wake (tasks i))

unfoldable pub wake_all : (ℕ → Task) → ℕ → Task
unfolding wake_at
wake_all tasks = for_range max_tasks 0 wake_at tasks

-- `next` and `best` of the search loop.
pub record Choice : Type 0 where
  pub next : ℕ
  pub best : ℕ

-- `(current_task + 1 + i) % MAX_TASKS`
abbrev pub slot_after : ℕ → ℕ → ℕ
slot_after current i = u32 (current + 1 + i) % max_tasks

unfoldable pub consider : (ℕ → Task) → ℕ → ℕ → Choice → Choice
consider tasks current i c =
    let idx = slot_after current i in
    if is_ready (tasks idx).state && ltb (tasks idx).priority c.best
    then record { next = idx; best = (tasks idx).priority }
    else c

unfoldable pub pick : (ℕ → Task) → ℕ → Choice
pick tasks current =
    for_range max_tasks 0 (consider tasks current) (record { next = current; best = 0xFF })

-- `context_switch` stores the stack pointer `sp` of the running code in the slot of `prev` and loads
-- the one in the slot that it goes to.
unfoldable pub switch_to : Scheduler → ℕ → ℕ → Scheduler × Option ℕ
switch_to s sp next =
    let prev = s.current_task in
    let swapped = set_state (set_state s.tasks prev ready) next running in
    (
      record s {
        tasks = update swapped prev (record (swapped prev) { stack_ptr = sp });
        current_task = next;
      },
      some (swapped next).stack_ptr,
    )

-- The end of `schedule_next`, from `if (next == current_task) return;` on.
unfoldable pub give : Scheduler → ℕ → ℕ → Scheduler × Option ℕ
unfolding switch_to
give s sp next = if next == s.current_task then (s, none) else switch_to s sp next

unfoldable pub preempt : Scheduler → ℕ → Scheduler × Option ℕ
preempt s sp =
    let rested = record s {
      tasks = update s.tasks s.current_task (record (s.tasks s.current_task) { ticks_used = 0 });
    } in
    give rested sp (pick rested.tasks s.current_task).next

-- The counters and the wake loop, before the time slice is looked at.
unfoldable pub tick : Scheduler → Scheduler
tick s =
    let t = s.tasks s.current_task in
    record s {
      tick_count = u32 (s.tick_count + 1);
      tasks =
          wake_all
            (update s.tasks s.current_task (record t { ticks_used = u32 (t.ticks_used + 1) }));
    }

-- `sp` is the stack pointer at the call; the second result is the one that a switch loads.
unfoldable pub schedule_next : Scheduler → ℕ → Scheduler × Option ℕ
schedule_next s sp =
    let t = tick s in
    let running_task = t.tasks t.current_task in
    if ltb running_task.ticks_used running_task.time_slice then (t, none) else preempt t sp
