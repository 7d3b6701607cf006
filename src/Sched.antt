-- ===== src/Sched.antt =====
-- kernel/scheduler.c and include/scheduler.h: the task table, its operations and the tick handler.
-- `tasks[MAX_TASKS]` and `ipc_queue[IPC_QUEUE_SIZE]` are functions of the index. Each operation
-- takes the static variables of the file as one record and returns them; `int` results stand
-- beside the record, -1 as `none`. What `kprint` shows is left out.

pub mod Tick
pub mod Ipc
pub mod Calls
pub mod Aarch64
pub mod Cpu
pub mod Count
pub mod Sleep
pub mod Create
mod Tests
use valiant_core.Base.{
  ℕ, zero, suc, ◌+◌, ◌-◌, Bool, true, false, Option, none, some, List, [], ◌∷◌, ltb, leb, ◌==◌,
  if◌then◌else◌, u32, update, for_range, find_first,
}

abbrev pub max_tasks : ℕ
max_tasks = 512

abbrev pub ipc_queue_size : ℕ
ipc_queue_size = 16

-- `TASK_RUNNING` to `TASK_SLEEPING`
pub data TaskState : Type 0 where
  running ready blocked dead sleeping : TaskState

abbrev pub is_dead : TaskState → Bool
is_dead dead = true
is_dead _ = false

abbrev pub is_ready : TaskState → Bool
is_ready ready = true
is_ready _ = false

abbrev pub is_blocked : TaskState → Bool
is_blocked blocked = true
is_blocked _ = false

abbrev pub is_sleeping : TaskState → Bool
is_sleeping sleeping = true
is_sleeping _ = false

-- `task_t`; `name` is the 16 bytes of its array.
pub record Task : Type 0 where
  pub id : ℕ
  pub state : TaskState
  pub priority : ℕ
  pub stack_ptr : ℕ
  pub stack_base : ℕ
  pub time_slice : ℕ
  pub ticks_used : ℕ
  pub sleep_ticks : ℕ
  pub name : List ℕ

-- `ipc_msg_t`
pub record IpcMsg : Type 0 where
  pub from : ℕ
  pub to : ℕ
  pub content : ℕ
  pub len : ℕ
  pub used : Bool

-- The static variables of scheduler.c.
pub record Scheduler : Type 0 where
  pub tasks : ℕ → Task
  pub task_count : ℕ
  pub current_task : ℕ
  pub tick_count : ℕ
  pub ipc_queue : ℕ → IpcMsg

-- `tasks[id].state = s`
abbrev pub set_state : (ℕ → Task) → ℕ → TaskState → ℕ → Task
set_state tasks id s = update tasks id (record (tasks id) { state = s })

-- The first two loops of `init_scheduler`.
clear_task : ℕ → (ℕ → Task) → ℕ → Task
clear_task i tasks = update tasks i (record (tasks i) { state = dead; id = 0; sleep_ticks = 0 })

clear_msg : ℕ → (ℕ → IpcMsg) → ℕ → IpcMsg
clear_msg i q = update q i (record (q i) { used = false })

pub init_scheduler : Scheduler → Scheduler
unfolding clear_task clear_msg
init_scheduler s =
    let tasks = for_range max_tasks 0 clear_task s.tasks in
    let queue = for_range ipc_queue_size 0 clear_msg s.ipc_queue in
    record s {
      tasks = update tasks 0 (record (tasks 0) {
        id = 0;
        state = running;
        priority = 0;
        time_slice = 10;
        ticks_used = 0;
      });
      ipc_queue = queue;
      task_count = 1;
      current_task = 0;
    }

-- `for (j = 0; j < 15 && name[j]; j++) tasks[i].name[j] = name[j];` from some `j` on: the rounds
-- left, the bytes of the slot from `j` on, and the C string from `j` on without its final 0.
unfoldable pub copy_name : ℕ → List ℕ → List ℕ → List ℕ
copy_name zero slot name = slot
copy_name (suc n) [] name = []
copy_name (suc n) (b ∷ slot) [] = b ∷ slot
copy_name (suc n) (b ∷ slot) (c ∷ name) = if c == 0 then b ∷ slot else c ∷ copy_name n slot name

-- `tasks[i].name[15] = '\0'`
unfoldable pub set_byte : List ℕ → ℕ → ℕ → List ℕ
set_byte [] i v = []
set_byte (b ∷ bs) zero v = v ∷ bs
set_byte (b ∷ bs) (suc i) v = b ∷ set_byte bs i v

unfoldable pub slot_name : List ℕ → List ℕ → List ℕ
unfolding copy_name set_byte
slot_name slot name = set_byte (copy_name 15 slot name) 15 0

-- `10 - priority` in `int`, stored in a `uint32_t`.
abbrev pub slice_of : ℕ → ℕ
slice_of priority = u32 (10 + 4294967296 - priority)

-- The task that `task_create` writes to slot `i`.
unfoldable pub fresh_task : Task → ℕ → ℕ → ℕ → List ℕ → Task
unfolding slot_name
fresh_task slot i entry priority name = record slot {
  id = i;
  state = ready;
  priority = priority;
  stack_ptr = entry;
  time_slice = slice_of priority;
  ticks_used = 0;
  sleep_ticks = 0;
  name = slot_name slot.name name;
}

unfoldable pub create_at : Scheduler → ℕ → ℕ → List ℕ → Option ℕ → Scheduler × Option ℕ
create_at s entry priority name none = (s, none)
create_at s entry priority name (some i) = (
  record s {
    tasks = update s.tasks i (fresh_task (s.tasks i) i entry priority name);
    task_count = u32 (s.task_count + 1);
  },
  some i,
)

abbrev pub dead_slot : (ℕ → Task) → ℕ → Bool
dead_slot tasks i = is_dead (tasks i).state

unfoldable pub task_create : Scheduler → ℕ → ℕ → List ℕ → Scheduler × Option ℕ
unfolding create_at
task_create s entry priority name =
    if leb max_tasks s.task_count
    then (s, none)
    else if entry == 0
    then (s, none)
    else create_at s entry priority name (find_first max_tasks 0 (dead_slot s.tasks))

unfoldable pub task_kill : Scheduler → ℕ → Scheduler
task_kill s id = if leb max_tasks id then s else if id == 0 then s else record s {
  tasks = set_state s.tasks id dead;
  task_count = u32 (s.task_count + 4294967295);
}

pub task_sleep : Scheduler → ℕ → ℕ → Scheduler
task_sleep s id ticks =
    if leb max_tasks id then s else if is_dead (s.tasks id).state then s else record s {
      tasks = update s.tasks id (record (s.tasks id) { sleep_ticks = ticks; state = sleeping });
    }

pub task_set_priority : Scheduler → ℕ → ℕ → Scheduler
task_set_priority s id priority =
    if leb max_tasks id
    then s
    else let p = if ltb 9 priority then 9 else priority in
      record s {
        tasks = update s.tasks id (record (s.tasks id) { priority = p; time_slice = slice_of p });
      }

pub task_block : Scheduler → ℕ → Scheduler
task_block s id = if leb max_tasks id then s else record s { tasks = set_state s.tasks id blocked }

pub task_unblock : Scheduler → ℕ → Scheduler
task_unblock s id =
    if leb max_tasks id
    then s
    else if is_blocked (s.tasks id).state
    then record s { tasks = set_state s.tasks id ready }
    else s
