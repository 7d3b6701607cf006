-- ===== src/Framebuffer/Shapes.antt =====
-- The lines of drivers/framebuffer.c, and the circles and discs of it and of
-- arch/aarch64/framebuffer64.c, over a function that draws a pixel.
pub mod Ends
use valiant_core.Base.{
  ℕ, zero, suc, ◌+◌, ◌*◌, Bool, true, false, ◌&&◌, Option, none, some, leb, if◌then◌else◌,
  for_range, ℤ, pos, negsuc, ◌+ℤ◌, neg_ℤ, ◌-ℤ◌, square, le_ℤ, lt_ℤ, to_u32,
}

abbrev pub eq_ℤ : ℤ → ℤ → Bool
eq_ℤ a b = le_ℤ a b && le_ℤ b a

-- The amount of `a - b`.
abbrev pub distance : ℤ → ℤ → ℤ
distance a b = if lt_ℤ b a then a -ℤ b else b -ℤ a

abbrev pub double : ℤ → ℤ
double a = a +ℤ a

-- `for (x = -r; x <= r; x++)` has this many rounds.
unfoldable pub span : ℤ → ℕ
span (pos r) = 2 * r + 1
span (negsuc r) = 0

-- A pixel of a line has signed coordinates.
module _ {S : Type 0} (plot : ℤ → ℤ → S → S) where
  -- `while (1)` of the line; `none` where the rounds run out.
  unfoldable pub line_loop : ℕ → ℤ → ℤ → ℤ → ℤ → ℤ → ℤ → ℤ → ℤ → ℤ → S → Option S
  line_loop zero x0 y0 x1 y1 dx dy sx sy err s = none
  line_loop (suc rounds) x0 y0 x1 y1 dx dy sx sy err s =
      let s' = plot x0 y0 s in
      let e2 = double err in
      let mx = le_ℤ dy e2 in
      let my = le_ℤ e2 dx in
      let err1 = if mx then err +ℤ dy else err in
      elim (eq_ℤ x0 x1 && eq_ℤ y0 y1) [
        | true ↦ some s'
        | false ↦
            line_loop rounds (if mx then x0 +ℤ sx else x0) (if my then y0 +ℤ sy else y0) x1 y1 dx dy
              sx sy (if my then err1 +ℤ dx else err1) s'
      ]

  -- From the two differences on.
  unfoldable pub line : ℕ → ℤ → ℤ → ℤ → ℤ → ℤ → ℤ → S → Option S
  line rounds dx dy x0 y0 x1 y1 s =
      line_loop rounds x0 y0 x1 y1 dx dy (if lt_ℤ x0 x1 then pos 1 else negsuc 0)
        (if lt_ℤ y0 y1 then pos 1 else negsuc 0) (dx +ℤ dy) s

module _ {S : Type 0} (plot : ℕ → ℕ → S → S) where
  -- The eight pixels of a round.
  unfoldable pub octants : ℤ → ℤ → ℤ → ℤ → S → S
  octants cx cy x y s = plot (to_u32 (cx +ℤ x)) (to_u32 (cy -ℤ y)) (
      plot (to_u32 (cx +ℤ y)) (to_u32 (cy -ℤ x)) (
        plot (to_u32 (cx -ℤ y)) (to_u32 (cy -ℤ x)) (
          plot (to_u32 (cx -ℤ x)) (to_u32 (cy -ℤ y)) (
            plot (to_u32 (cx -ℤ x)) (to_u32 (cy +ℤ y)) (
              plot (to_u32 (cx -ℤ y)) (to_u32 (cy +ℤ x)) (
                plot (to_u32 (cx +ℤ y)) (to_u32 (cy +ℤ x))
                  (plot (to_u32 (cx +ℤ x)) (to_u32 (cy +ℤ y)) s)))))))

  -- `while (x >= y)` of the circle; `y` is never negative. `none` where the rounds run out.
  unfoldable pub circle_loop : ℕ → ℤ → ℤ → ℤ → ℕ → ℤ → S → Option S
  circle_loop zero cx cy x y err s = none
  circle_loop (suc rounds) cx cy x y err s =
      let err1 = err +ℤ pos (1 + 2 * suc y) in
      let inward = lt_ℤ (pos 0) (double (err1 -ℤ x) +ℤ pos 1) in
      let x' = if inward then x -ℤ pos 1 else x in
      let err' = if inward then err1 +ℤ (pos 1 -ℤ double x') else err1 in
      elim (le_ℤ (pos y) x) [
        | true ↦ circle_loop rounds cx cy x' (suc y) err' (octants cx cy x (pos y) s)
        | false ↦ some s
      ]

  unfoldable pub circle : ℕ → ℤ → ℤ → ℤ → S → Option S
  circle rounds cx cy r s = circle_loop rounds cx cy r 0 (pos 0) s

  unfoldable pub disc : ℤ → ℤ → ℤ → S → S
  disc cx cy r s =
      for_range (span r) 0
        (λ i. for_range (span r) 0 (λ j t.
          let y = pos i -ℤ r in
          let x = pos j -ℤ r in
          if leb (square x + square y) (square r)
          then plot (to_u32 (cx +ℤ x)) (to_u32 (cy +ℤ y)) t
          else t))
        s
