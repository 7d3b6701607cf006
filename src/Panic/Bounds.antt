-- ===== src/Panic/Bounds.antt =====
-- The screens of arch/x86/vcorepanic.c stay on the screen.
use valiant_core.Base.{
  ℕ, zero, suc, ◌+◌, ◌-◌, ◌*◌, ◌/◌, ◌≤◌, ◌<◌, sym, subst, inl, inr, arith, Bool-cases, length, List,
  [], ◌∷◌, ◌++◌, if_keep, if_not_keep, ◌||◌, ◌==◌, u32, codes, for_range_inv,
}
use valiant_core.Framebuffer.{Fb, store, fill_row, fb_clear, fb_fill_rect}
use valiant_core.Framebuffer.Bounds.{fb_fill_rect-IsSafe}
use valiant_core.Console.{Font, draw_chars, font_draw_string, font_draw_string_centered}
use valiant_core.Console.Cursor.{IsScreen, HasSize, font_draw_char-IsScreen}
use valiant_core.Keyboard.{Keyboard, keyboard_getchar, keyboard_has_input}
use valiant_core.Panic.{text_of, uint64_to_hex, uint32_to_hex}
use valiant_core.Panic.Screen.{
  Draw, clear, rect, text, centered, draw, draw_all, Registers, panic_draw_button, box_rows,
  main_head, main_foot, main_screen, panic_draw_main, fault_rows, detail_screen, panic_draw_detail,
  panic_round, panic_rounds, kernel_panic,
}

-- A rectangle lies on a screen of the size `w`, `h`; the other calls clip.
abbrev FitsOn : ℕ → ℕ → Draw → Type 0
FitsOn w h (clear color) = Unit
FitsOn w h (rect x y rw rh color) = (u32 x + u32 rw ≤ w) × (u32 y + u32 rh ≤ h)
FitsOn w h (text x y str fg bg) = Unit
FitsOn w h (centered y str fg bg) = Unit

abbrev AllFit : ℕ → ℕ → List Draw → Type 0
AllFit w h [] = Unit
AllFit w h (d ∷ ds) = FitsOn w h d × AllFit w h ds

AllFit-++ : (w h : ℕ) (a b : List Draw) → AllFit w h a → AllFit w h b → AllFit w h (a ++ b)
AllFit-++ w h [] b fa fb = fb
AllFit-++ w h (d ∷ a) b (f, fa) fb = (f, AllFit-++ w h a b fa fb)

module _ (w h : ℕ) (font : Font) where
  fb_fill_rect-IsScreen :
      (color x y rw rh : ℕ) (s : Fb)
      → x + rw ≤ w
      → y + rh ≤ h
      → IsScreen w h s
      → IsScreen w h (fb_fill_rect color x y rw rh s)
  unfolding fb_fill_rect fill_row store
  fb_fill_rect-IsScreen color x y rw rh s across down (safe, e, f) =
      let filled =
        for_range_inv (λ k t. HasSize w h t) (fill_row color x y rw) rh 0 rh s (omega arith)
          (λ row t lt size.
            for_range_inv (λ k u. HasSize w h u) _ rw 0 rw t (omega arith)
              (λ col u lt2 size2. size2) size)
          (e, f) in
      let size = if_not_keep (HasSize w h) s.fb_ready (e, f) filled in
      (
        fb_fill_rect-IsSafe color x y rw rh s (omega (arith, e)) (omega (arith, f)) safe,
        size.0,
        size.1,
      )

  draw_chars-IsScreen :
      (x cx y : ℕ) (str : List ℕ) (fg bg scale : ℕ) (s : Fb)
      → IsScreen w h s
      → IsScreen w h (draw_chars font x cx y str fg bg scale s)
  unfolding draw_chars
  draw_chars-IsScreen x cx y [] fg bg scale s on = on
  draw_chars-IsScreen x cx y (c ∷ str) fg bg scale s on = elim (Bool-cases (c == 10)) [
    | inl feed ↦ rw (feed, draw_chars) (draw_chars-IsScreen x x _ str fg bg scale s on)
    | inr plain ↦
        rw (plain, draw_chars)
          (draw_chars-IsScreen x _ y str fg bg scale _
            (font_draw_char-IsScreen w h font cx y c fg bg scale s on))
  ]

  draw-IsScreen : (d : Draw) (s : Fb) → FitsOn w h d → IsScreen w h s → IsScreen w h (draw font d s)
  unfolding draw fb_clear font_draw_string font_draw_string_centered
  draw-IsScreen (clear color) s fits on = if_not_keep (IsScreen w h) s.fb_ready on (
      fb_fill_rect-IsScreen color 0 0 s.fb_width s.fb_height s (omega (arith, on.1))
        (omega (arith, on.2)) on)
  draw-IsScreen (rect x y rw rh color) s (across, down) on =
      fb_fill_rect-IsScreen color (u32 x) (u32 y) (u32 rw) (u32 rh) s across down on
  draw-IsScreen (text x y str fg bg) s fits on =
      draw_chars-IsScreen (u32 x) (u32 x) (u32 y) str fg bg 1 s on
  draw-IsScreen (centered y str fg bg) s fits on = draw_chars-IsScreen _ _ (u32 y) str fg bg 1 s on

  draw_all-IsScreen :
      (ds : List Draw) (s : Fb) → AllFit w h ds → IsScreen w h s → IsScreen w h (draw_all font ds s)
  unfolding draw_all
  draw_all-IsScreen [] s fits on = on
  draw_all-IsScreen (d ∷ ds) s (fit, fits) on =
      draw_all-IsScreen ds (draw font d s) fits (draw-IsScreen d s fit on)

-- A screen that has room for what is drawn, and whose sizes are far from a wrap.
abbrev pub IsRoomy : ℕ → ℕ → ℕ → ℕ → Type 0
IsRoomy fw fh w h = (fw * 36 + 24 ≤ w) × (fh * 10 + 120 ≤ h) × (w < 1073741824) × (h < 1073741824)

module _ (fw fh w h : ℕ) (roomy : IsRoomy fw fh w h) where
  main_head-AllFit : (y : ℕ) → y + (fh * 6 + 24) ≤ h → AllFit w h (main_head fh w y)
  unfolding main_head
  main_head-AllFit y le =
      (tt, ((omega arith, omega arith), (tt, (tt, (tt, ((omega arith, omega arith), tt))))))

  main_foot-AllFit : (y : ℕ) → AllFit w h (main_foot fh w h y)
  unfolding main_foot
  main_foot-AllFit y = (tt, (tt, ((omega arith, omega arith), (tt, tt))))

  box_rows-AllFit :
      (x y : ℕ) (cr2 : List ℕ) (regs : Registers) → AllFit w h (box_rows fw fh x y cr2 regs)
  unfolding box_rows
  box_rows-AllFit x y cr2 regs = (
    tt,
    (
      tt,
      (
        tt,
        (tt, (tt, (tt, (tt, (tt, if_keep (AllFit w h) (regs.int_no == 14) (tt, (tt, tt)) tt))))),
      ),
    ),
  )

  panic_draw_button-AllFit :
      (x y bg : ℕ) (str : List ℕ)
      → 0 < length str * fw + 24
      → x + (length str * fw + 24) ≤ w
      → y + (fh + 12) ≤ h
      → AllFit w h (panic_draw_button fw fh x y str bg)
  unfolding panic_draw_button
  panic_draw_button-AllFit x y bg str some_width across down = (
    (omega arith, omega arith),
    (
      (omega arith, omega arith),
      (
        (omega arith, omega arith),
        ((omega arith, omega arith), ((omega arith, omega arith), (tt, tt))),
      ),
    ),
  )

  main_screen-AllFit :
      (cr2 : List ℕ) (regs : Registers) → AllFit w h (main_screen fw fh w h cr2 regs)
  unfolding main_screen
  main_screen-AllFit cr2 regs =
      let y = fh + 32 + (fh + 8) + (fh + 24) in
      let btn_y = y + (fh * 6 + 24 + 20) in
      let btn_x = u32 (w + 4294967296 - u32 (fw * 26 + 24)) / 2 in
      let button = codes "[D] Show Full Diagnostic Report" in
      AllFit-++ w h (main_head fh w y) _ (main_head-AllFit y (omega arith)) (
        AllFit-++ w h (box_rows fw fh (w / 6) y cr2 regs) _ (box_rows-AllFit (w / 6) y cr2 regs) (
          AllFit-++ w h (panic_draw_button fw fh btn_x btn_y button 0x1976D2) _
            (panic_draw_button-AllFit btn_x btn_y 0x1976D2 button (omega arith) (omega arith)
              (omega arith))
            (main_foot-AllFit btn_y)))

  fault_rows-AllFit : (y : ℕ) (cr2 err : List ℕ) → AllFit w h (fault_rows fw fh w h y cr2 err)
  unfolding fault_rows
  fault_rows-AllFit y cr2 err = (tt, (tt, (tt, (tt, ((omega arith, omega arith), (tt, tt))))))

  detail_screen-AllFit :
      (cr2 err : List ℕ) (regs : Registers) → AllFit w h (detail_screen fw fh w h cr2 err regs)
  unfolding detail_screen
  detail_screen-AllFit cr2 err regs = (
    tt,
    (
      (omega arith, omega arith),
      (
        tt,
        (
          tt,
          (
            tt,
            (
              tt,
              (
                tt,
                (
                  tt,
                  (
                    tt,
                    (
                      tt,
                      (
                        tt,
                        if_keep (AllFit w h) (regs.int_no == 14) (fault_rows-AllFit _ cr2 err) tt,
                      ),
                    ),
                  ),
                ),
              ),
            ),
          ),
        ),
      ),
    ),
  )

module _ (font : Font) (w h : ℕ) (roomy : IsRoomy font.width font.height w h) (cr2 : ℕ)
    (junk : ℕ → ℕ) (regs : Registers) where
  panic_draw_main-IsScreen :
      (s : Fb) → IsScreen w h s → IsScreen w h (panic_draw_main font cr2 junk regs s)
  unfolding panic_draw_main
  panic_draw_main-IsScreen s on =
      let numeral = text_of 20 (uint64_to_hex cr2 junk) in
      let screen = λ (sw sh : ℕ). main_screen font.width font.height sw sh numeral regs in
      draw_all-IsScreen w h font (screen s.fb_width s.fb_height) s
        (subst (λ t. AllFit w h (screen t s.fb_height)) (sym on.1)
          (subst (λ t. AllFit w h (screen w t)) (sym on.2)
            (main_screen-AllFit font.width font.height w h roomy numeral regs)))
        on

  panic_draw_detail-IsScreen :
      (s : Fb) → IsScreen w h s → IsScreen w h (panic_draw_detail font cr2 junk regs s)
  unfolding panic_draw_detail
  panic_draw_detail-IsScreen s on =
      let numeral = text_of 20 (uint64_to_hex cr2 junk) in
      let err = text_of 12 (uint32_to_hex regs.err_code junk) in
      let screen = λ (sw sh : ℕ). detail_screen font.width font.height sw sh numeral err regs in
      draw_all-IsScreen w h font (screen s.fb_width s.fb_height) s
        (subst (λ t. AllFit w h (screen t s.fb_height)) (sym on.1)
          (subst (λ t. AllFit w h (screen w t)) (sym on.2)
            (detail_screen-AllFit font.width font.height w h roomy numeral err regs)))
        on

  panic_rounds-IsScreen :
      (n : ℕ) (x : Keyboard × Fb)
      → IsScreen w h x.1
      → IsScreen w h (panic_rounds n font cr2 junk regs x).1
  unfolding panic_rounds panic_round
  panic_rounds-IsScreen zero x on = on
  panic_rounds-IsScreen (suc n) (k, s) on =
      let P = λ (x : Keyboard × Fb). IsScreen w h x.1 in
      let c = (keyboard_getchar k).1 in
      panic_rounds-IsScreen n (panic_round font cr2 junk regs (k, s)) (
        if_not_keep P (keyboard_has_input k) on
          (if_keep P (c == 100 || c == 68) (panic_draw_detail-IsScreen s on) on))

  -- On a screen with room for the two screens of a panic, a panic stores on the screen only, whatever
  -- the exception, the fault address and the keys are, in any number of rounds of its loop.
  pub kernel_panic-IsScreen :
      (n : ℕ) (k : Keyboard) (s : Fb)
      → IsScreen w h s
      → IsScreen w h (kernel_panic n font cr2 junk regs (k, s)).1
  unfolding kernel_panic
  kernel_panic-IsScreen n k s on =
      if_not_keep (λ (x : Keyboard × Fb). IsScreen w h x.1) s.fb_ready on
        (panic_rounds-IsScreen n (k, panic_draw_main font cr2 junk regs s)
          (panic_draw_main-IsScreen s on))
