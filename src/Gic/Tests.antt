-- ===== src/Gic/Tests.antt =====
-- The handler of interrupts at concrete values.
use valiant_core.Base.{ℕ, refl, arith, List, [], ◌∷◌, ◌==◌, if◌then◌else◌}
use valiant_core.Base.Waits.{after}
use valiant_core.Mmio.{Device, load32}
use valiant_core.Uart.{has_room}
use valiant_core.Uart.Print.{Drains}
use valiant_core.Gic.{Timer}
use valiant_core.Gic.Serve.{Serves, interrupts, interrupts-Serves}

-- The timer's interrupt each time, and a serial port that always has room.
unfoldable ticking : Device
ticking [] = 0
ticking (load32 addr ∷ h) = if addr == 0x0801000C then 30 else 0
ticking (_ ∷ h) = 0

ticking_drains : Drains ticking 1
unfolding has_room after ticking
ticking_drains h = (0, omega arith, ((λ j lt. absurd (omega arith)), refl))

abbrev start : Timer
start = record { timer_freq = 62500000; timer_ticks = 7 }

interrupts-Serves_example :
    (irqs : List ℕ) × Serves ticking 1 ticking_drains irqs
      (start, [])
      (interrupts ticking 1 3 (start, []))
interrupts-Serves_example = interrupts-Serves ticking 1 ticking_drains 3 start [] (omega arith)
