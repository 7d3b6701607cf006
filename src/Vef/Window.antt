-- ===== src/Vef/Window.antt =====
-- The window of loaders/vef-loader.c: `vef_win_open`, `vef_win_print` and `vef_win_close`. What they
-- draw is a list, the last call first; the sizes of the screen and of the font are an argument.
use valiant_core.Base.{
  ℕ, ◌+◌, ◌-◌, ◌/◌, Bool, true, false, not, ◌||◌, List, [], ◌∷◌, ltb, ◌==◌, if◌then◌else◌, u32,
}

-- `fb_get_width`, `fb_get_height`, `font_get_width`, `font_get_height`
pub record Screen : Type 0 where
  pub sw : ℕ
  pub sh : ℕ
  pub fw : ℕ
  pub fh : ℕ

-- The calls of `fb_fill_rect` and `font_draw_string`.
pub data Draw : Type 0 where
  fill_rect : ℕ → ℕ → ℕ → ℕ → ℕ → Draw
  draw_string : ℕ → ℕ → List ℕ → ℕ → ℕ → Draw

-- `vef_win`, and what has been drawn.
pub record Window : Type 0 where
  pub x : ℕ
  pub y : ℕ
  pub w : ℕ
  pub h : ℕ
  pub text_x : ℕ
  pub text_y : ℕ
  pub text_start_y : ℕ
  pub active : Bool
  pub drawn : List Draw

abbrev pub win_fg : ℕ
win_fg = 0x00FF00

abbrev pub win_err : ℕ
win_err = 0xFF4444

-- `a - b` on 32 bits.
abbrev pub sub32 : ℕ → ℕ → ℕ
sub32 a b = u32 (a + 4294967296 - b)

unfoldable pub vef_win_open : Screen → List ℕ → Window → Window
vef_win_open screen title win =
    let x = sub32 screen.sw 600 / 2 in
    let y = sub32 screen.sh 400 / 2 in
    let text_y = u32 (y + screen.fh + 18) in
    record {
      x = x;
      y = y;
      w = 600;
      h = 400;
      text_x = u32 (x + 8);
      text_y = text_y;
      text_start_y = text_y;
      active = true;
      drawn =
          fill_rect x (u32 (y + screen.fh + 10)) 600 (sub32 (sub32 400 screen.fh) 10) 0x000000
          ∷ draw_string (u32 (x + 8)) (u32 (y + 5)) title 0xCCCCCC 0x1A1A2E
          ∷ fill_rect x y 600 (u32 (screen.fh + 10)) 0x1A1A2E
          ∷ fill_rect (sub32 x 2) (sub32 y 2) 604 404 0x444444
          ∷ win.drawn;
    }

-- A new line of text, or the cleared window where there is none left.
unfoldable pub new_line : Screen → Window → Window
new_line screen win =
    let text_y = u32 (win.text_y + screen.fh + 2) in
    let max_y = sub32 (sub32 (u32 (win.y + win.h)) screen.fh) 4 in
    let moved = record win { text_x = u32 (win.x + 8); text_y = text_y } in
    if ltb max_y text_y
    then record moved {
      text_y = win.text_start_y;
      drawn =
          fill_rect win.x (u32 (win.y + screen.fh + 10)) win.w (sub32 (u32 (win.h + screen.fh)) 10)
            0x000000
          ∷ win.drawn;
    }
    else moved

unfoldable pub put_char : Screen → ℕ → ℕ → Window → Window
put_char screen color c win = record win {
  text_x = u32 (win.text_x + screen.fw);
  drawn = draw_string win.text_x win.text_y (c ∷ []) color 0x000000 ∷ win.drawn;
}

-- One round of the loop of `vef_win_print`.
unfoldable pub print_char : Screen → ℕ → ℕ → Window → Window
print_char screen color c win =
    let max_x = sub32 (u32 (win.x + win.w)) 8 in
    let placed =
      if c == 10 || ltb max_x (u32 (win.text_x + screen.fw)) then new_line screen win else win in
    if c == 10 then placed else put_char screen color c placed

unfoldable pub print_chars : Screen → ℕ → List ℕ → Window → Window
print_chars screen color [] win = win
print_chars screen color (c ∷ s) win = print_chars screen color s (print_char screen color c win)

unfoldable pub vef_win_print : Screen → List ℕ → ℕ → Window → Window
vef_win_print screen s color win = if not win.active then win else print_chars screen color s win

unfoldable pub vef_win_close : Window → Window
vef_win_close win = record win {
  active = false;
  drawn =
      fill_rect (sub32 win.x 2) (sub32 win.y 2) (u32 (win.w + 4)) (u32 (win.h + 4)) 0x000000
      ∷ win.drawn;
}
