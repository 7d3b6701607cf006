-- ===== src/Keyboard/Tests.antt =====
-- Runs of the keyboard driver, and its theorems at those states.
use valiant_core.Base.{◌≡◌, refl, false, [], ◌∷◌, map, arith, update}
use valiant_core.Keyboard.{
  Keyboard, kbd_buffer_push, keyboard_getchar, keyboard_handler, key_down, char_of, caps,
}
use valiant_core.Keyboard.Queue.{IsValid, queue}
use valiant_core.Keyboard.Keys.{key}
use valiant_core.Keyboard.Refine.{view, press, keyboard_handler-press}
use valiant_core.Keyboard.Typing.{feed, drain, drain-feed}

abbrev boot : Keyboard
boot = record {
  shift_pressed = false;
  ctrl_pressed = false;
  caps_lock = false;
  kbd_buffer = λ i. 0;
  kbd_head = 0;
  kbd_tail = 0;
}

-- Left shift, h, left shift up, i.
shifted_h : drain 3 (feed boot (42 ∷ 35 ∷ 170 ∷ 23 ∷ [])) ≡ b'H' ∷ b'i' ∷ 0 ∷ []
unfolding drain feed keyboard_handler keyboard_getchar key_down char_of caps kbd_buffer_push
shifted_h = refl

-- One character at the end of the ring.
abbrev at_end : Keyboard
at_end = record boot { kbd_head = 0; kbd_tail = 255; kbd_buffer = update (λ i. 0) 255 b'q' }

keyboard_handler-press_example :
    IsValid (keyboard_handler at_end 58)
    × (view (keyboard_handler at_end 58) ≡ press (view at_end) 58)
keyboard_handler-press_example =
    keyboard_handler-press at_end 58 (omega arith, omega arith) (omega arith)

drain-feed_example : drain 2 (feed boot (35 ∷ 23 ∷ [])) ≡ map (key false false) (35 ∷ 23 ∷ [])
unfolding queue key
drain-feed_example =
    drain-feed boot (35 ∷ 23 ∷ []) (omega arith, omega arith) refl
      (
        (
          omega arith,
          (λ e. absurd (omega arith)),
          (λ e. absurd (omega arith)),
          (λ e. absurd (omega arith)),
          (λ e. absurd (omega arith)),
          λ e. absurd (omega arith),
        ),
        (
          (
            omega arith,
            (λ e. absurd (omega arith)),
            (λ e. absurd (omega arith)),
            (λ e. absurd (omega arith)),
            (λ e. absurd (omega arith)),
            λ e. absurd (omega arith),
          ),
          tt,
        ),
      )
      (omega arith)
