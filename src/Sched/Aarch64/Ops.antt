-- ===== src/Sched/Aarch64/Ops.antt =====
-- The operations of kernel/scheduler64.c. The types and the constants of include/scheduler.h are
-- those of the other kernel's scheduler; `addr_t` has 64 bits. What `uart_print` shows is left out.
use valiant_core.Base.{
  ℕ, ◌+◌, ◌-◌, ◌%◌, Bool, true, false, not, ◌&&◌, ◌||◌, Option, none, some, List, ltb, leb, ◌==◌,
  if◌then◌else◌, u32, update, for_range, find_first,
}
use valiant_core.Sched.{
  Scheduler, Task, IpcMsg, max_tasks, ipc_queue_size, running, ready, blocked, dead, sleeping,
  is_dead, is_ready, is_blocked, is_sleeping, slot_name,
}

-- The rounds `i` of the two loops of `init_scheduler`.
unfoldable pub clear_task64 : ℕ → (ℕ → Task) → ℕ → Task
clear_task64 i tasks = update tasks i (record (tasks i) { state = dead; id = 0; sleep_ticks = 0 })

unfoldable pub clear_msg64 : ℕ → (ℕ → IpcMsg) → ℕ → IpcMsg
clear_msg64 i q = update q i (record (q i) { used = false })

unfoldable pub init_scheduler64 : Scheduler → Scheduler
unfolding clear_task64 clear_msg64
init_scheduler64 s =
    let cleared = for_range max_tasks 0 clear_task64 s.tasks in
    record s {
      tasks = update cleared 0 (record (cleared 0) {
        id = 0;
        state = running;
        priority = 0;
        time_slice = 10;
        ticks_used = 0;
      });
      ipc_queue = for_range ipc_queue_size 0 clear_msg64 s.ipc_queue;
      task_count = 1;
      current_task = 0;
    }

-- The body of the loop of `task_create` at the dead slot `i`. There is no test of `entry`.
unfoldable pub create_at64 : Scheduler → ℕ → ℕ → List ℕ → Option ℕ → Scheduler × Option ℕ
create_at64 s entry priority name none = (s, none)
create_at64 s entry priority name (some i) = (
  record s {
    tasks = update s.tasks i (record (s.tasks i) {
      id = i;
      state = ready;
      priority = priority;
      stack_ptr = entry;
      time_slice = u32 (10 + 4294967296 - priority);
      ticks_used = 0;
      sleep_ticks = 0;
      name = slot_name (s.tasks i).name name;
    });
    task_count = u32 (s.task_count + 1);
  },
  some i,
)

unfoldable pub task_create64 : Scheduler → ℕ → ℕ → List ℕ → Scheduler × Option ℕ
task_create64 s entry priority name =
    if leb max_tasks s.task_count
    then (s, none)
    else create_at64 s entry priority name (find_first max_tasks 0 (λ i. is_dead (s.tasks i).state))

unfoldable pub task_kill64 : Scheduler → ℕ → Scheduler
task_kill64 s id = if leb max_tasks id then s else if id == 0 then s else record s {
  tasks = update s.tasks id (record (s.tasks id) { state = dead });
  task_count = u32 (s.task_count + 4294967295);
}

unfoldable pub task_sleep64 : Scheduler → ℕ → ℕ → Scheduler
task_sleep64 s id ticks =
    if leb max_tasks id then s else if is_dead (s.tasks id).state then s else record s {
      tasks = update s.tasks id (record (s.tasks id) { sleep_ticks = ticks; state = sleeping });
    }

unfoldable pub task_set_priority64 : Scheduler → ℕ → ℕ → Scheduler
task_set_priority64 s id priority =
    if leb max_tasks id
    then s
    else let least = if ltb 9 priority then 9 else priority in
      record s {
        tasks =
            update s.tasks id (record (s.tasks id) {
              priority = least;
              time_slice = u32 (10 + 4294967296 - least);
            });
      }

unfoldable pub task_block64 : Scheduler → ℕ → Scheduler
task_block64 s id =
    if leb max_tasks id
    then s
    else record s { tasks = update s.tasks id (record (s.tasks id) { state = blocked }) }

unfoldable pub task_unblock64 : Scheduler → ℕ → Scheduler
task_unblock64 s id =
    if leb max_tasks id
    then s
    else if is_blocked (s.tasks id).state
    then record s { tasks = update s.tasks id (record (s.tasks id) { state = ready }) }
    else s

-- The round `i` of the first loop of `schedule_next`.
unfoldable pub wake_round64 : ℕ → (ℕ → Task) → ℕ → Task
wake_round64 i tasks =
    let t = tasks i in
    let left = if ltb 0 t.sleep_ticks then t.sleep_ticks - 1 else t.sleep_ticks in
    let counted = record t { sleep_ticks = left } in
    update tasks i (
      if is_sleeping t.state
      then (if left == 0 then record counted { state = ready } else counted)
      else t)

-- `next` and `best`.
pub record Best64 : Type 0 where
  pub next : ℕ
  pub best : ℕ

-- The round `i` of the second loop.
unfoldable pub search_round64 : (ℕ → Task) → ℕ → ℕ → Best64 → Best64
search_round64 tasks current i c =
    let idx = u32 (current + 1 + i) % max_tasks in
    if is_ready (tasks idx).state
    then (if ltb (tasks idx).priority c.best
        then record { next = idx; best = (tasks idx).priority }
        else c)
    else c

-- From `if (next == current_task) return;` on. `context_switch` stores the stack pointer `sp` of the
-- running code and loads that of the slot `next`.
unfoldable pub switch64 : Scheduler → ℕ → ℕ → Scheduler × Option ℕ
switch64 s sp next =
    if next == s.current_task
    then (s, none)
    else let prev = s.current_task in
      let yielded = update s.tasks prev (record (s.tasks prev) { state = ready }) in
      let started = update yielded next (record (yielded next) { state = running }) in
      (
        record s {
          tasks = update started prev (record (started prev) { stack_ptr = sp });
          current_task = next;
        },
        some (started next).stack_ptr,
      )

unfoldable pub schedule_next64 : Scheduler → ℕ → Scheduler × Option ℕ
unfolding wake_round64 search_round64 switch64
schedule_next64 s sp =
    let current = s.current_task in
    let t = s.tasks current in
    let counted = update s.tasks current (record t { ticks_used = u32 (t.ticks_used + 1) }) in
    let awake = for_range max_tasks 0 wake_round64 counted in
    let ticked = record s { tick_count = u32 (s.tick_count + 1); tasks = awake } in
    let rested = update awake current (record (awake current) { ticks_used = 0 }) in
    let start : Best64 = record { next = current; best = 0xFF } in
    let found = for_range max_tasks 0 (search_round64 rested current) start in
    if ltb (awake current).ticks_used (awake current).time_slice
    then (ticked, none)
    else switch64 (record ticked { tasks = rested }) sp found.next

-- The body of the loop of `ipc_send` at the free slot `i`.
unfoldable pub send_at64 : Scheduler → ℕ → ℕ → ℕ → ℕ → Option ℕ → Scheduler × Bool
send_at64 s from to content len none = (s, false)
send_at64 s from to content len (some i) =
    let sent = record s {
      ipc_queue =
          update s.ipc_queue i
            (record { from = from; to = to; content = content; len = len; used = true });
    } in
    (
      if is_blocked (s.tasks to).state
          then record sent { tasks = update s.tasks to (record (s.tasks to) { state = ready }) }
          else sent,
      true,
    )

unfoldable pub ipc_send64 : Scheduler → ℕ → ℕ → ℕ → ℕ → Scheduler × Bool
unfolding send_at64
ipc_send64 s from to content len =
    if leb max_tasks from || leb max_tasks to
    then (s, false)
    else if is_dead (s.tasks to).state
    then (s, false)
    else send_at64 s from to content len
        (find_first ipc_queue_size 0 (λ i. not (s.ipc_queue i).used))

unfoldable pub receive_at64 : Scheduler → Option ℕ → Scheduler × Option (ℕ × ℕ)
receive_at64 s none = (s, none)
receive_at64 s (some i) =
    let m = s.ipc_queue i in
    (
      record s { ipc_queue = update s.ipc_queue i (record m { used = false }) },
      some (m.content, m.len),
    )

unfoldable pub ipc_receive64 : Scheduler → ℕ → Scheduler × Option (ℕ × ℕ)
unfolding receive_at64
ipc_receive64 s id =
    if leb max_tasks id
    then (s, none)
    else receive_at64 s
        (find_first ipc_queue_size 0 (λ i. (s.ipc_queue i).used && (s.ipc_queue i).to == id))
