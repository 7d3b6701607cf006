-- ===== src/Pit.antt =====
-- arch/x86/i8254.c and `irq_handler` of arch/x86/interrupts.c: the timer, and the two interrupts with
-- what they call, the scheduler, the keyboard and the interrupt controllers.
pub mod Divisor
pub mod Handle
mod Tests
use valiant_core.Base.{
  ℕ, ◌+◌, ◌-◌, ◌*◌, ◌/◌, Bool, not, Option, none, some, ltb, ◌==◌, if◌then◌else◌, u8, u32, bit_and,
}
use valiant_core.Ports.{History, Hardware, outb, inb}
use valiant_core.Sched.{Scheduler}
use valiant_core.Sched.Tick.{schedule_next}
use valiant_core.Keyboard.{Keyboard, keyboard_handler}
use valiant_core.Pic.Setup.{pic_send_eoi}

-- `pit_ticks` and `pit_hz`.
pub record Pit : Type 0 where
  pub pit_ticks : ℕ
  pub pit_hz : ℕ

unfoldable pub pit_init : ℕ → Pit → History → Pit × History
pit_init hz p h =
    let divisor = u32 (1193182 / hz) in
    (
      record p { pit_hz = hz },
      outb 0x40 (u8 (bit_and (divisor / 256) 0xFF))
          (outb 0x40 (u8 (bit_and divisor 0xFF)) (outb 0x43 0x36 h)),
    )

-- `sp` is the stack pointer at the call; the last result is the one that a switch loads.
unfoldable pub pit_handler : Pit → Scheduler → ℕ → Pit × Scheduler × Option ℕ
pit_handler p s sp =
    let (s', switched) = schedule_next s sp in
    (record p { pit_ticks = u32 (p.pit_ticks + 1) }, s', switched)

-- `ticks` of `pit_sleep`.
unfoldable pub sleep_ticks : Pit → ℕ → ℕ
sleep_ticks p ms = u32 (p.pit_hz * ms) / 1000

-- The condition of its loop, `(pit_ticks - start) < ticks`.
unfoldable pub is_waiting : ℕ → ℕ → Pit → Bool
is_waiting start ticks p = ltb (u32 (p.pit_ticks + 4294967296 - start)) ticks

pub record Kernel : Type 0 where
  pub pit : Pit
  pub scheduler : Scheduler
  pub keyboard : Keyboard
  pub ports : History

-- The call of `pit_handler`, and that of `keyboard_handler`, which reads its scancode.
unfoldable pub timer_part : ℕ → ℕ → Kernel → Kernel × Option ℕ
timer_part int_no sp k =
    let (p, s, switched) = pit_handler k.pit k.scheduler sp in
    if int_no == 32 then (record k { pit = p; scheduler = s }, switched) else (k, none)

unfoldable pub keyboard_part : Hardware → ℕ → Kernel → Kernel
keyboard_part hw int_no k =
    let (scancode, h) = inb hw 0x60 k.ports in
    if int_no == 33
    then record k { keyboard = keyboard_handler k.keyboard scancode; ports = h }
    else k

-- What follows the call of `pit_handler`. A task that is switched away from does it when it runs again.
unfoldable pub after_timer : Hardware → ℕ → Kernel → Kernel
after_timer hw int_no k =
    let k1 = keyboard_part hw int_no k in
    record k1 { ports = pic_send_eoi (u8 (int_no + 4294967296 - 32)) k1.ports }

-- The handler up to its end, or up to the switch to another stack.
unfoldable pub irq_handler : Hardware → ℕ → ℕ → Kernel → Kernel × Option ℕ
irq_handler hw int_no sp k =
    let (k1, switched) = timer_part int_no sp k in
    elim switched [ none ↦ (after_timer hw int_no k1, none) | some sp' ↦ (k1, some sp') ]
