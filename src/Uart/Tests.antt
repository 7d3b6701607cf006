-- ===== src/Uart/Tests.antt =====
-- The serial port at concrete values.
use valiant_core.Base.{ℕ, ◌≡◌, refl, arith, codes, [], true}
use valiant_core.Base.Waits.{after}
use valiant_core.Mmio.{Device}
use valiant_core.Uart.{has_room, uart_print}
use valiant_core.Uart.Print.{Drains, Sends, are_chars, with_returns, uart_print-Sends}

-- A port that always has room.
abbrev idle : Device
idle h = 0

idle_drains : Drains idle 1
unfolding has_room after
idle_drains h = (0, omega arith, ((λ j lt. absurd (omega arith)), refl))

text_are_chars : are_chars (codes "ok") ≡ true
unfolding are_chars
text_are_chars = refl

uart_print-Sends_example :
    Sends idle 1 idle_drains
      (λ h. ℕ)
      (λ h p. p)
      (λ c h p. p)
      (with_returns (codes "ok"))
      []
      (uart_print idle 1 (codes "ok") [])
uart_print-Sends_example =
    uart_print-Sends idle 1 idle_drains (λ h. ℕ) (λ h p. p) (λ c h p. p) (codes "ok") []
      text_are_chars
