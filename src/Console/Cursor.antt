-- ===== src/Console/Cursor.antt =====
-- The cursor of `kprint` stays on the screen, and so does what it draws.
use valiant_core.Base.{
  ℕ, suc, ◌+◌, ◌-◌, ◌*◌, ◌/◌, ◌^◌, ◌<◌, ◌≡◌, refl, sym, subst, arith, if_not_keep, if_keep,
  if_cases, ◌&&◌, Option, none, some, List, [], ◌∷◌, ltb, leb, ◌==◌, if◌then◌else◌, u32, bit_and,
  for_range_inv,
}
use valiant_core.Framebuffer.{Fb, store, fb_but_pixel, fill_row, fb_fill_rect}
use valiant_core.Framebuffer.Bounds.{IsSafe, fb_but_pixel-IsSafe, fb_fill_rect-IsSafe}
use valiant_core.Console.{
  Font, Console, font_set_color, draw_bit, font_draw_char, draw_here, line_end, put_char, wrap,
  put_chars, kprint, kprint_color,
}

abbrev pub HasSize : ℕ → ℕ → Fb → Type 0
HasSize w h s = (s.fb_width ≡ w) × (s.fb_height ≡ h)

-- A screen of a size, with every store on it.
abbrev pub IsScreen : ℕ → ℕ → Fb → Type 0
IsScreen w h s = IsSafe s × (s.fb_width ≡ w) × (s.fb_height ≡ h)

module _ (w h : ℕ) where
  fb_but_pixel-IsScreen :
      (color x y : ℕ) (s : Fb) → IsScreen w h s → IsScreen w h (fb_but_pixel color x y s)
  unfolding fb_but_pixel store
  fb_but_pixel-IsScreen color x y s (safe, e, f) =
      let size = if_keep (HasSize w h) _ (e, f) (e, f) in
      (fb_but_pixel-IsSafe color x y s safe, size.0, size.1)

  draw_bit-IsScreen :
      (color x y col row scale : ℕ) (s : Fb)
      → IsScreen w h s
      → IsScreen w h (draw_bit color x y col row scale s)
  unfolding draw_bit
  draw_bit-IsScreen color x y col row scale s on =
      for_range_inv (λ k t. IsScreen w h t) _ scale 0 scale s (omega arith)
        (λ sy t lt ont.
          for_range_inv (λ k u. IsScreen w h u) _ scale 0 scale t (omega arith)
            (λ sx u lt2 onu.
              fb_but_pixel-IsScreen color (u32 (x + col * scale + sx)) (u32 (y + row * scale + sy))
                u onu)
            ont)
        on

  pub font_draw_char-IsScreen :
      (font : Font) (x y c fg bg scale : ℕ) (s : Fb)
      → IsScreen w h s
      → IsScreen w h (font_draw_char font x y c fg bg scale s)
  unfolding font_draw_char
  font_draw_char-IsScreen font x y c fg bg scale s on =
      let idx = if leb font.numglyph c then b'?' else c in
      if_not_keep (IsScreen w h) (font.ready && s.fb_ready) on (
        for_range_inv (λ k t. IsScreen w h t) _ font.height 0 font.height s (omega arith)
          (λ row t lt ont.
            for_range_inv (λ k u. IsScreen w h u) _ font.width 0 font.width t (omega arith)
              (λ col u lt2 onu.
                draw_bit-IsScreen
                  (if bit_and (font.glyphs (idx * font.charsize + row)) (0x80 / 2 ^ col) == 0
                    then bg
                    else fg)
                  x y col row scale u onu)
              ont)
          on)

  clear-IsScreen :
      (color : ℕ) (s : Fb)
      → IsScreen w h s
      → IsScreen w h (fb_fill_rect color 0 0 s.fb_width s.fb_height s)
  unfolding fb_fill_rect fill_row store
  clear-IsScreen color s (safe, e, f) =
      let filled =
        for_range_inv (λ k t. HasSize w h t) (fill_row color 0 0 s.fb_width) s.fb_height 0
          s.fb_height s (omega arith)
          (λ row t lt size.
            for_range_inv (λ k u. HasSize w h u) _ s.fb_width 0 s.fb_width t (omega arith)
              (λ col u lt2 size2. size2) size)
          (e, f) in
      let size = if_not_keep (HasSize w h) s.fb_ready (e, f) filled in
      (
        fb_fill_rect-IsSafe color 0 0 s.fb_width s.fb_height s (omega arith) (omega arith) safe,
        size.0,
        size.1,
      )

module _ (w h : ℕ) (font : Font) (cols rows : ℕ) where
  -- The cursor stands in a column, in a row or just below the last one.
  Within : ℕ → Console → Type 0
  Within last k = (k.cursor_x < cols) × (k.cursor_y < last) × IsScreen w h k.fb

  draw_here-Within : (c last : ℕ) (k : Console) → Within last k → Within last (draw_here font c k)
  unfolding Within draw_here
  draw_here-Within c last k (x, y, on) =
      let drawn =
        font_draw_char-IsScreen w h font (u32 (k.cursor_x * font.width))
          (u32 (k.cursor_y * font.height)) c k.fg_color k.bg_color 1 k.fb on in
      (x, y, drawn)

  line_end-Within : (last : ℕ) (k : Console) → Within last k → Within (suc last) (line_end k)
  unfolding Within line_end
  line_end-Within last k (x, y, on) = (omega arith, omega arith, on)

  one_more : (k : Console) → Within rows k → Within (suc rows) k
  unfolding Within
  one_more k (x, y, on) = (x, omega arith, on)

  back_step :
      (k : Console) → Within rows k → Within (suc rows) (record k { cursor_x = k.cursor_x - 1 })
  unfolding Within
  back_step k (x, y, on) = (omega arith, omega arith, on)

  forth :
      (k : Console) (x : ℕ)
      → x < cols
      → Within rows k
      → Within (suc rows) (record k { cursor_x = x })
  unfolding Within
  forth k x lt (_, y, on) = (lt, omega arith, on)

  put_char-Within :
      (c : ℕ) (k : Console) → Within rows k → Within (suc rows) (put_char font cols c k)
  unfolding put_char
  put_char-Within c k within =
      if_keep (Within (suc rows)) (c == 10) (line_end-Within rows k within) (
        if_keep (Within (suc rows)) (c == 8)
          (if_keep (Within (suc rows)) (ltb 0 k.cursor_x)
            (draw_here-Within b' ' (suc rows) (record k { cursor_x = k.cursor_x - 1 })
              (back_step k within))
            (one_more k within))
          (if_cases (Within (suc rows)) (leb cols (u32 (k.cursor_x + 1)))
            (λ full. line_end-Within rows (draw_here font c k) (draw_here-Within c rows k within))
            (λ room.
              forth (draw_here font c k) (u32 (k.cursor_x + 1)) (ground arith)
                (draw_here-Within c rows k within))))

  wrap-Within : (k : Console) → 0 < rows → Within (suc rows) k → Within rows (wrap rows k)
  unfolding wrap Within
  wrap-Within k some_row (x, y, on) =
      if_cases (Within rows) (leb rows k.cursor_y)
        (λ below. (omega arith, some_row, clear-IsScreen w h k.bg_color k.fb on))
        (λ above. (x, ground arith, on))

  put_chars-Within :
      (s : List ℕ) (k : Console)
      → 0 < rows
      → Within rows k
      → Within rows (put_chars font cols rows s k)
  unfolding put_chars
  put_chars-Within [] k some_row within = within
  put_chars-Within (c ∷ s) k some_row within =
      put_chars-Within s (wrap rows (put_char font cols c k)) some_row
        (wrap-Within (put_char font cols c k) some_row (put_char-Within c k within))

-- The cursor is on the screen of characters, and the framebuffer is sound.
abbrev pub IsConsole : Font → Console → Type 0
IsConsole font k =
    (k.cursor_x < k.fb.fb_width / font.width)
    × (k.cursor_y < k.fb.fb_height / font.height)
    × IsSafe k.fb

printed :
    (font : Font) (s : Option (List ℕ)) (k : Console)
    → IsConsole font k
    → IsConsole font (kprint font s k)
unfolding kprint Within
printed font none k on = on
printed font (some s) k on =
    let w = k.fb.fb_width in
    let h = k.fb.fb_height in
    let cols = w / font.width in
    let rows = h / font.height in
    let p = put_chars font cols rows s k in
    let (x, y, (safe, ew, eh)) =
      put_chars-Within w h font cols rows s k (omega (arith, on.1))
        (on.0, on.1, (on.2, refl, refl)) in
    if_not_keep (IsConsole font) (k.fb.fb_ready && font.ready) on (
      subst (λ (t : ℕ). p.cursor_x < t / font.width) (sym ew) x,
      subst (λ (t : ℕ). p.cursor_y < t / font.height) (sym eh) y,
      safe,
    )

-- `kprint`, with the colours of the console or with given ones, keeps the cursor on the screen and
-- stores to the screen only, for every string, with line ends, backspaces, full lines and full
-- screens; `kprint_color` leaves the colours as they were.
pub kprint-IsConsole :
    (font : Font) (s : Option (List ℕ)) (fg bg : ℕ) (k : Console)
    → IsConsole font k
    → IsConsole font (kprint font s k)
      × IsConsole font (kprint_color font s fg bg k)
      × ((kprint_color font s fg bg k).fg_color ≡ k.fg_color)
      × ((kprint_color font s fg bg k).bg_color ≡ k.bg_color)
unfolding kprint_color font_set_color
kprint-IsConsole font s fg bg k on =
    (printed font s k on, printed font s (font_set_color fg bg k) on, refl, refl)
