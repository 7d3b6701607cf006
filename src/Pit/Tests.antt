-- ===== src/Pit/Tests.antt =====
-- The timer and its interrupt at concrete values.
use valiant_core.Base.{refl, true, ◌≡◌, ◌==◌, if◌then◌else◌, false, []}
use valiant_core.Sched.{Task, running, ready}
use valiant_core.Pit.{Pit, Kernel, is_waiting, sleep_ticks}

-- Just before the counter wraps round.
abbrev late : Pit
late = record { pit_ticks = 4294967290; pit_hz = 100 }

-- The sleep of 100 ms at 100 Hz, across the wrap of the counter.
sleeps_ten_ticks :
    (sleep_ticks late 100 ≡ 10)
    × (is_waiting 4294967290 10 (record late { pit_ticks = 3 }) ≡ true)
    × (is_waiting 4294967290 10 (record late { pit_ticks = 4 }) ≡ false)
unfolding sleep_ticks is_waiting
sleeps_ten_ticks = (refl, refl, refl)

abbrev task : Task
task = record {
  id = 0;
  state = running;
  priority = 2;
  stack_ptr = 0;
  stack_base = 0;
  time_slice = 10;
  ticks_used = 9;
  sleep_ticks = 0;
  name = [];
}

-- One task runs, the others are ready, and its time slice ends.
abbrev kernel : Kernel
kernel = record {
  pit = late;
  scheduler = record {
    tasks = λ i. if i == 0 then task else record task { id = i; state = ready; stack_ptr = 4096 };
    task_count = 64;
    current_task = 0;
    tick_count = 5;
    ipc_queue = λ i. record { from = 0; to = 0; content = 0; len = 0; used = false };
  };
  keyboard = record {
    shift_pressed = false;
    ctrl_pressed = false;
    caps_lock = false;
    kbd_buffer = λ i. 0;
    kbd_head = 0;
    kbd_tail = 0;
  };
  ports = [];
}
