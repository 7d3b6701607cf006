-- ===== src/Gic.antt =====
-- arch/aarch64/gic64.c, timer64.c and irq_handler64.c over Mmio and Uart: the interrupt controller, the
-- timer and the handler of interrupts. The waits of the serial port and of `timer_sleep_ms` have numbers
-- of rounds as arguments.
pub mod Lines
pub mod Serve
mod Tests
use valiant_core.Base.{
  ℕ, ◌+◌, ◌-◌, ◌*◌, ◌/◌, ◌%◌, ◌^◌, Bool, true, not, Option, none, some, List, [], ltb, leb, ◌==◌,
  ◌>>=◌, if◌then◌else◌, u64, bit_and, codes, ◌++◌, ◌∷◌,
}
use valiant_core.Base.Waits.{wait_for}
use valiant_core.Mmio.{
  History, Device, cntfrq_el0, cntpct_el0, cntp_tval_el0, cntp_ctl_el0, write32, write8, read32,
  write_register, read_register,
}
use valiant_core.Uart.{uart_print}

abbrev pub gic_dist_base : ℕ
gic_dist_base = 0x08000000

abbrev pub gic_cpu_base : ℕ
gic_cpu_base = 0x08010000

abbrev pub max_irqs : ℕ
max_irqs = 1020

abbrev pub spurious : ℕ
spurious = 1023

unfoldable pub gic_init : History → History
gic_init h =
    write32 (gic_cpu_base + 0x004) 0xFF
      (write32 (gic_cpu_base + 0x00) 0x01 (write32 (gic_dist_base + 0x000) 0x01 h))

unfoldable pub gic_enable_irq : ℕ → History → History
gic_enable_irq irq h =
    let reg_offset = irq / 32 * 4 in
    let bit = irq % 32 in
    if leb max_irqs irq then h else write32 (gic_dist_base + 0x100 + reg_offset) (2 ^ bit) h

unfoldable pub gic_set_priority : ℕ → ℕ → History → History
gic_set_priority irq priority h =
    if leb max_irqs irq then h else write8 (gic_dist_base + 0x400 + irq) priority h

unfoldable pub gic_set_target : ℕ → ℕ → History → History
gic_set_target irq cpu_mask h =
    if leb max_irqs irq then h else write8 (gic_dist_base + 0x800 + irq) cpu_mask h

unfoldable pub gic_acknowledge : Device → History → ℕ × History
gic_acknowledge dev h =
    let (iar, h') = read32 dev (gic_cpu_base + 0x00C) h in (bit_and iar 0x3FF, h')

unfoldable pub gic_end_of_interrupt : ℕ → History → History
gic_end_of_interrupt irq h = write32 (gic_cpu_base + 0x010) irq h

-- `timer_freq` and `timer_ticks`.
pub record Timer : Type 0 where
  pub timer_freq : ℕ
  pub timer_ticks : ℕ

unfoldable pub timer_init : Device → ℕ → Timer → History → Timer × History
timer_init dev hz t h =
    let (freq, h1) = read_register dev cntfrq_el0 h in
    (
      record t { timer_freq = freq },
      write_register cntp_ctl_el0 1 (write_register cntp_tval_el0 (freq / hz) h1),
    )

unfoldable pub timer_handler : Timer → History → Timer × History
timer_handler t h = (
  record t { timer_ticks = u64 (t.timer_ticks + 1) },
  write_register cntp_tval_el0 (t.timer_freq / 1000) h,
)

-- `!((read_cntpct_el0() - start) < target)`
unfoldable pub elapsed : Device → ℕ → ℕ → History → Bool × History
elapsed dev start target h =
    let (now, h') = read_register dev cntpct_el0 h in
    (not (ltb (u64 (now + 18446744073709551616 - start)) target), h')

unfoldable pub timer_sleep_ms : Device → ℕ → ℕ → Timer → History → Option History
timer_sleep_ms dev fuel ms t h =
    let (start, h1) = read_register dev cntpct_el0 h in
    wait_for (elapsed dev start (u64 (t.timer_freq * ms) / 1000)) fuel h1

unfoldable pub irq_message : ℕ → List ℕ
irq_message irq =
    if irq == 33
    then codes "[IRQ] Uart interrput" ++ (10 ∷ [])
    else codes "[IRQ] Unknown" ++ (10 ∷ [])

-- The branches of the handler on the number of the interrupt.
unfoldable pub serve : Device → ℕ → ℕ → Timer × History → Option (Timer × History)
serve dev fuel irq (t, h) =
    if irq == 30
    then some (timer_handler t h)
    else do h' ← uart_print dev fuel (irq_message irq) h; some (t, h')

unfoldable pub irq_handler_aarch64 : Device → ℕ → Timer × History → Option (Timer × History)
irq_handler_aarch64 dev fuel (t, h) =
    let (irq, h1) = gic_acknowledge dev h in
    if irq == spurious
    then some (t, h1)
    else do (t', h2) ← serve dev fuel irq (t, h1); some (t', gic_end_of_interrupt irq h2)

unfoldable pub fiq_handler_aarch64 : Device → ℕ → History → Option History
fiq_handler_aarch64 dev fuel h =
    uart_print dev fuel (codes "[FIQ] Fast intterput received" ++ (10 ∷ [])) h
