-- ===== src/Framebuffer/Aarch64/Vertical.antt =====
-- A line straight down in `fb64_draw_line` of arch/aarch64/framebuffer64.c.
use valiant_core.Base.{
  ℕ, zero, suc, ◌+◌, ◌-◌, ◌^◌, ◌≤◌, ◌<◌, ◌⊎◌, inl, inr, Bool-cases, ◌≡◌, refl, ap, ◌∙◌, arith, Bool,
  true, false, not, ◌&&◌, leb, if◌then◌else◌, ℤ, pos, negsuc, ◌+ℤ◌, ◌-ℤ◌, le_ℤ, lt_ℤ,
}
use valiant_core.Framebuffer.{Fb}
use valiant_core.Framebuffer.Shapes.{eq_ℤ}
use valiant_core.Framebuffer.Aarch64.{
  put_signed, is_int, overflow, go_on, turn64, overflowed, running, line_loop64, fb64_draw_line,
}

minus_self : (x : ℤ) → x -ℤ x ≡ pos 0
minus_self (pos zero) = refl
minus_self (pos (suc a)) = ground arith
minus_self (negsuc a) = ground arith

lt_self : (x : ℤ) → lt_ℤ x x ≡ false
lt_self (pos a) = ground arith
lt_self (negsuc a) = ground arith

down : (y0 y1 : ℤ) → lt_ℤ y0 y1 ≡ true → (d : ℕ) × (y1 -ℤ y0 ≡ pos (suc d))
down (pos zero) (pos (suc b)) lt = (b, ap pos (omega arith))
down (pos zero) (pos zero) lt = absurd (ground arith)
down (pos (suc a)) (pos b) lt = (b - a - 2, ground arith)
down (pos zero) (negsuc b) lt = absurd (ground arith)
down (pos (suc a)) (negsuc b) lt = absurd (ground arith)
down (negsuc a) (pos b) lt = (b + a, ground arith)
down (negsuc a) (negsuc b) lt = (a - b - 1, ground arith)

apart : (y0 y1 : ℤ) → lt_ℤ y0 y1 ≡ true → le_ℤ y1 y0 ≡ false
apart y0 y1 lt = ground arith

-- With a step of 0 across and a positive one down, `y0` never moves and the error grows in every round.
vertical_turn :
    (x0 y0 x1 y1 sx sy : ℤ) (d e : ℕ)
    → le_ℤ y1 y0 ≡ false
    → suc d ≤ e
    → (turn64 x0 y0 x1 y1 (pos 0) (pos (suc d)) sx sy (pos e) ≡ overflow)
      ⊎ ((turn64 x0 y0 x1 y1 (pos 0) (pos (suc d)) sx sy (pos e)
            ≡ go_on (x0 +ℤ sx) y0 (pos (e + suc d)))
          × (e + e ≤ 2147483647))
unfolding turn64 is_int
vertical_turn x0 y0 x1 y1 sx sy d e off le =
    let go : (eq_ℤ x0 x1 && eq_ℤ y0 y1) ≡ false = ground arith in
    let across : leb (suc d) (e + e) ≡ true = ground arith in
    let stay : leb (e + e) 0 ≡ false = ground arith in
    let ints =
      is_int (pos (e + e))
      && is_int (pos (e + suc d))
      && is_int (pos (e + suc d))
      && is_int (x0 +ℤ sx)
      && is_int y0 in
    elim (Bool-cases ints) [
      | inr over ↦ rw (go, across, stay, over) (inl refl)
      | inl fits ↦ rw (go, across, stay, fits) (inr (refl, ground arith))
    ]

vertical_loop :
    (color rounds : ℕ) (x0 y0 x1 y1 sx sy : ℤ) (d e : ℕ) (s : Fb)
    → le_ℤ y1 y0 ≡ false
    → suc d ≤ e
    → (line_loop64 rounds color x0 y0 x1 y1 (pos 0) (pos (suc d)) sx sy (pos e) s ≡ overflowed)
      ⊎ ((line_loop64 rounds color x0 y0 x1 y1 (pos 0) (pos (suc d)) sx sy (pos e) s ≡ running)
          × ((rounds ≡ 0) ⊎ (rounds + e ≤ 2 ^ 30)))
unfolding line_loop64
vertical_loop color zero x0 y0 x1 y1 sx sy d e s off le = inr (refl, inl refl)
vertical_loop color (suc rounds) x0 y0 x1 y1 sx sy d e s off le =
    elim (vertical_turn x0 y0 x1 y1 sx sy d e off le) [
      | inl over ↦ rw (over, line_loop64) (inl refl)
      | inr (next, small) ↦
          rw (next, line_loop64)
            (elim (vertical_loop color rounds (x0 +ℤ sx) y0 x1 y1 sx sy d (e + suc d)
              (put_signed color x0 y0 s) off (omega arith)) [
                | inl over ↦ inl over
                | inr (on, inl none_left) ↦ inr (on, inr (omega arith))
                | inr (on, inr few) ↦ inr (on, inr (omega arith))
              ])
    ]

started {ℓ} :
    {A : Type ℓ} (ready : Bool) (x y : A) → ready ≡ true → (if not ready then x else y) ≡ y
started true x y e = refl
started false x y e = cc

-- A line straight down is never drawn to its end: `y0` stays where it is and the error grows, until,
-- within 2^30 rounds, an `int` overflows.
pub fb64_draw_line_vertical :
    (rounds color : ℕ) (x y0 y1 : ℤ) (s : Fb)
    → s.fb_ready ≡ true
    → lt_ℤ y0 y1 ≡ true
    → (fb64_draw_line rounds color x y0 x y1 s ≡ overflowed)
      ⊎ ((fb64_draw_line rounds color x y0 x y1 s ≡ running) × (rounds < 2 ^ 30))
unfolding fb64_draw_line
fb64_draw_line_vertical rounds color x y0 y1 s ready lt =
    let (d, e) = down y0 y1 lt in
    elim (Bool-cases (is_int (pos 0) && is_int (pos (suc d)) && is_int (pos (0 + suc d)))) [
      | inr over ↦ rw (lt_self x, lt, minus_self x, e, over) (inl (started s.fb_ready _ _ ready))
      | inl fits ↦
          rw (lt_self x, lt, minus_self x, e, fits)
            (elim (vertical_loop color rounds x y0 x y1 (negsuc 0) (pos 1) d (0 + suc d) s
              (apart y0 y1 lt) (omega arith)) [
                | inl over ↦ inl (started s.fb_ready _ _ ready ∙ over)
                | inr (on, inl none_left) ↦ inr (started s.fb_ready _ _ ready ∙ on, omega arith)
                | inr (on, inr few) ↦ inr (started s.fb_ready _ _ ready ∙ on, omega arith)
              ])
    ]
