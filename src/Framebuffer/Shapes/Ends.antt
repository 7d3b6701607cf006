-- ===== src/Framebuffer/Shapes/Ends.antt =====
-- The loops of the shapes: they end, and keep what each pixel keeps.
use valiant_core.Base.{
  ℕ, zero, suc, ◌+◌, ◌*◌, ◌<◌, ◌≡◌, refl, subst, inl, inr, arith, Bool, true, false, Bool-cases,
  ◌&&◌, Option, none, some, ltb, leb, if◌then◌else◌, for_range_inv, ℤ, pos, negsuc, ◌+ℤ◌, ◌-ℤ◌,
  square, le_ℤ, lt_ℤ, to_u32,
}
use valiant_core.Framebuffer.Shapes.{
  eq_ℤ, double, line_loop, line, octants, circle_loop, circle, span, disc,
}

-- `x < n`
abbrev Below : ℤ → ℕ → Type 0
Below (pos a) n = a < n
Below (negsuc a) n = Unit

step_down : (x : ℤ) (n : ℕ) → Below x n → Below (x -ℤ pos 1) n
step_down (pos a) n lt = elim (Bool-cases (ltb 0 a)) [
  | inl more ↦ rw more (omega arith)
  | inr done ↦ rw done tt
]
step_down (negsuc a) n lt = tt

step_if : (b : Bool) (x : ℤ) (n : ℕ) → Below x n → Below (if b then x -ℤ pos 1 else x) n
step_if true x n lt = step_down x n lt
step_if false x n lt = lt

bound_lem : (x : ℤ) (y n : ℕ) → Below x n → le_ℤ (pos y) x ≡ true → y < n
bound_lem (pos a) y n lt le = ground arith
bound_lem (negsuc a) y n lt le = cc

move_bound : (x : ℤ) (n m : ℕ) → n ≡ m → Below x n → Below x m
move_bound x n m e lt = subst (Below x) e lt

-- The state, if there is one, has the property.
abbrev pub Keeps : {S : Type 0} → (S → Type 0) → Option S → Type 0
Keeps P none = Unit
Keeps P (some s) = P s

module _ {S : Type 0} (plot : ℤ → ℤ → S → S) (P : S → Type 0)
    (keep : (x y : ℤ) (s : S) → P s → P (plot x y s)) where
  line_loop_keep :
      (rounds : ℕ) (x0 y0 x1 y1 dx dy sx sy err : ℤ) (s : S)
      → P s
      → Keeps P (line_loop plot rounds x0 y0 x1 y1 dx dy sx sy err s)
  unfolding line_loop
  line_loop_keep zero x0 y0 x1 y1 dx dy sx sy err s h = tt
  line_loop_keep (suc rounds) x0 y0 x1 y1 dx dy sx sy err s h =
      let s' = plot x0 y0 s in
      let e2 = double err in
      let mx = le_ℤ dy e2 in
      let my = le_ℤ e2 dx in
      let err1 = if mx then err +ℤ dy else err in
      let h' = keep x0 y0 s h in
      elim (Bool-cases (eq_ℤ x0 x1 && eq_ℤ y0 y1)) [
        | inl there ↦ rw (there, line_loop) h'
        | inr go ↦
            rw (go, line_loop)
              (line_loop_keep rounds (if mx then x0 +ℤ sx else x0) (if my then y0 +ℤ sy else y0) x1
                y1 dx dy sx sy (if my then err1 +ℤ dx else err1) s' h')
      ]

  -- A line keeps it, where it ends within the rounds.
  pub line_keep :
      (rounds : ℕ) (dx dy x0 y0 x1 y1 : ℤ) (s : S)
      → P s
      → Keeps P (line plot rounds dx dy x0 y0 x1 y1 s)
  unfolding line
  line_keep rounds dx dy x0 y0 x1 y1 s h = line_loop_keep rounds x0 y0 x1 y1 dx dy _ _ _ s h

module _ {S : Type 0} (plot : ℕ → ℕ → S → S) (P : S → Type 0)
    (keep : (x y : ℕ) (s : S) → P s → P (plot x y s)) where
  octants_keep : (cx cy x y : ℤ) (s : S) → P s → P (octants plot cx cy x y s)
  unfolding octants
  octants_keep cx cy x y s h =
      keep _ _ _
        (keep _ _ _ (keep _ _ _ (keep _ _ _ (keep _ _ _ (keep _ _ _ (keep _ _ _ (keep _ _ s h)))))))

  -- Each round moves `y` up and `x` not up, so they meet.
  circle_loop_ends :
      (rounds : ℕ) (cx cy x : ℤ) (y : ℕ) (err : ℤ) (s : S)
      → Below x (y + rounds)
      → P s
      → (t : S) × (circle_loop plot (suc rounds) cx cy x y err s ≡ some t) × P t
  unfolding circle_loop
  circle_loop_ends zero cx cy x y err s lt h = elim (Bool-cases (le_ℤ (pos y) x)) [
    | inr stop ↦ rw (stop, circle_loop) (s, refl, h)
    | inl go ↦ absurd (omega (arith, bound_lem x y (y + 0) lt go))
  ]
  circle_loop_ends (suc rounds) cx cy x y err s lt h = elim (Bool-cases (le_ℤ (pos y) x)) [
    | inr stop ↦ rw (stop, circle_loop) (s, refl, h)
    | inl go ↦
        let err1 = err +ℤ pos (1 + 2 * suc y) in
        let inward = lt_ℤ (pos 0) (double (err1 -ℤ x) +ℤ pos 1) in
        let x' = if inward then x -ℤ pos 1 else x in
        let err' = if inward then err1 +ℤ (pos 1 -ℤ double x') else err1 in
        let lower =
          step_if inward x (suc y + rounds)
            (move_bound x (y + suc rounds) (suc y + rounds) (omega arith) lt) in
        let rest =
          circle_loop_ends rounds cx cy x' (suc y) err' (octants plot cx cy x (pos y) s) lower
            (octants_keep cx cy x (pos y) s h) in
        rw (go, circle_loop) rest
  ]

  -- A circle of radius `r` ends in `r + 2` rounds.
  pub circle_ends :
      (cx cy : ℤ) (r : ℕ) (s : S)
      → P s
      → (t : S) × (circle plot (r + 2) cx cy (pos r) s ≡ some t) × P t
  unfolding circle
  circle_ends cx cy r s h =
      let e : r + 2 ≡ suc (suc r) = omega arith in
      rw e (circle_loop_ends (suc r) cx cy (pos r) 0 (pos 0) s (omega arith) h)

  pub disc_keep : (cx cy r : ℤ) (s : S) → P s → P (disc plot cx cy r s)
  unfolding disc
  disc_keep cx cy r s h =
      for_range_inv (λ k t. P t) _ (span r) 0 (span r) s (omega arith)
        (λ i t lt ht.
          for_range_inv (λ k u. P u) _ (span r) 0 (span r) t (omega arith)
            (λ j u lt2 hu.
              elim (Bool-cases (leb (square (pos j -ℤ r) + square (pos i -ℤ r)) (square r))) [
                | inl inside ↦
                    rw inside
                      (keep (to_u32 (cx +ℤ (pos j -ℤ r))) (to_u32 (cy +ℤ (pos i -ℤ r))) u hu)
                | inr outside ↦ rw outside hu
              ])
            ht)
        h
