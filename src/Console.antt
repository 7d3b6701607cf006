-- ===== src/Console.antt =====
-- drivers/font.c: the font, text on the framebuffer of the 32-bit kernel, and the console `kprint`.
-- A string is its bytes without the final 0. A scale is a positive number, or 0 for one that is not.
pub mod Cursor
mod Tests
use valiant_core.Base.{
  ℕ, zero, suc, ◌+◌, ◌-◌, ◌*◌, ◌/◌, ◌%◌, ◌^◌, Bool, true, false, not, ◌&&◌, ◌||◌, Option, none,
  some, List, [], ◌∷◌, ltb, leb, ◌==◌, if◌then◌else◌, u32, bit_and, for_range, length,
}
use valiant_core.Framebuffer.{Fb, fb_but_pixel, fb_fill_rect}

-- `font`: `glyphs` is the memory from its pointer on.
pub record Font : Type 0 where
  pub glyphs : ℕ → ℕ
  pub numglyph : ℕ
  pub charsize : ℕ
  pub width : ℕ
  pub height : ℕ
  pub ready : Bool

-- The cursor, the colours, and the framebuffer.
pub record Console : Type 0 where
  pub cursor_x : ℕ
  pub cursor_y : ℕ
  pub fg_color : ℕ
  pub bg_color : ℕ
  pub fb : Fb

-- The memory from `data` on, as `bytes`, or none for NULL. The font and the result; `false` is -1.
unfoldable pub font_init : Font → Option (ℕ → ℕ) → Font × Bool
font_init font none = (font, false)
font_init font (some bytes) =
    if not (bytes 0 == 0x36) || not (bytes 1 == 0x04) then (font, false) else (
      record {
        glyphs = λ i. bytes (4 + i);
        numglyph = if bit_and (bytes 2) 0x01 == 0 then 256 else 512;
        charsize = bytes 3;
        width = 8;
        height = bytes 3;
        ready = true;
      },
      true,
    )

unfoldable pub font_set_color : ℕ → ℕ → Console → Console
font_set_color fg bg k = record k { fg_color = fg; bg_color = bg }

unfoldable pub font_set_cursor : ℕ → ℕ → Console → Console
font_set_cursor x y k = record k { cursor_x = x; cursor_y = y }

-- The square of one bit of a glyph.
unfoldable pub draw_bit : ℕ → ℕ → ℕ → ℕ → ℕ → ℕ → Fb → Fb
draw_bit color x y col row scale s =
    for_range scale 0
      (λ sy.
        for_range scale 0
          (λ sx. fb_but_pixel color (u32 (x + col * scale + sx)) (u32 (y + row * scale + sy))))
      s

unfoldable pub font_draw_char : Font → ℕ → ℕ → ℕ → ℕ → ℕ → ℕ → Fb → Fb
font_draw_char font x y c fg bg scale s =
    let idx = if leb font.numglyph c then b'?' else c in
    if not (font.ready && s.fb_ready)
    then s
    else for_range font.height 0
        (λ row.
          let bits = font.glyphs (idx * font.charsize + row) in
          for_range font.width 0 (λ col.
            draw_bit (if bit_and bits (0x80 / 2 ^ col) == 0 then bg else fg) x y col row scale))
        s

-- The loop of `font_draw_string`, with `cx` and `y`.
unfoldable pub draw_chars : Font → ℕ → ℕ → ℕ → List ℕ → ℕ → ℕ → ℕ → Fb → Fb
draw_chars font x cx y [] fg bg scale s = s
draw_chars font x cx y (c ∷ str) fg bg scale s = elim (c == 10) [
  | true ↦ draw_chars font x x (u32 (y + font.height * scale)) str fg bg scale s
  | false ↦
      draw_chars font x (u32 (cx + font.width * scale)) y str fg bg scale
        (font_draw_char font cx y c fg bg scale s)
]

-- `none` is NULL.
unfoldable pub font_draw_string : Font → ℕ → ℕ → Option (List ℕ) → ℕ → ℕ → ℕ → Fb → Fb
font_draw_string font x y none fg bg scale s = s
font_draw_string font x y (some str) fg bg scale s = draw_chars font x x y str fg bg scale s

unfoldable pub font_draw_string_centered : Font → ℕ → Option (List ℕ) → ℕ → ℕ → ℕ → Fb → Fb
font_draw_string_centered font y none fg bg scale s = s
font_draw_string_centered font y (some str) fg bg scale s =
    let tw = u32 (length str * font.width * scale) in
    let x = if ltb tw s.fb_width then (s.fb_width - tw) / 2 else 0 in
    font_draw_string font x y (some str) fg bg scale s

-- `font_draw_char(cursor_x * char_w, cursor_y * char_h, c, ...)`
unfoldable pub draw_here : Font → ℕ → Console → Console
draw_here font c k = record k {
  fb =
      font_draw_char font (u32 (k.cursor_x * font.width)) (u32 (k.cursor_y * font.height)) c
        k.fg_color k.bg_color 1 k.fb;
}

unfoldable pub line_end : Console → Console
line_end k = record k { cursor_x = 0; cursor_y = u32 (k.cursor_y + 1) }

-- One character, up to the test for the last row.
unfoldable pub put_char : Font → ℕ → ℕ → Console → Console
put_char font cols c k =
    if c == 10
    then line_end k
    else if c == 8
    then (if ltb 0 k.cursor_x
        then draw_here font b' ' (record k { cursor_x = k.cursor_x - 1 })
        else k)
    else if leb cols (u32 (k.cursor_x + 1))
    then line_end (draw_here font c k)
    else record (draw_here font c k) { cursor_x = u32 (k.cursor_x + 1) }

unfoldable pub wrap : ℕ → Console → Console
wrap rows k =
    if leb rows k.cursor_y
    then record k {
      cursor_x = 0;
      cursor_y = 0;
      fb = fb_fill_rect k.bg_color 0 0 k.fb.fb_width k.fb.fb_height k.fb;
    }
    else k

unfoldable pub put_chars : Font → ℕ → ℕ → List ℕ → Console → Console
put_chars font cols rows [] k = k
put_chars font cols rows (c ∷ s) k = put_chars font cols rows s (wrap rows (put_char font cols c k))

unfoldable pub kprint : Font → Option (List ℕ) → Console → Console
kprint font none k = k
kprint font (some s) k =
    if not (k.fb.fb_ready && font.ready)
    then k
    else put_chars font (k.fb.fb_width / font.width) (k.fb.fb_height / font.height) s k

unfoldable pub kprint_color : Font → Option (List ℕ) → ℕ → ℕ → Console → Console
kprint_color font s fg bg k =
    font_set_color k.fg_color k.bg_color (kprint font s (font_set_color fg bg k))

unfoldable pub kprint_at : Font → ℕ → ℕ → Option (List ℕ) → ℕ → ℕ → ℕ → Console → Console
kprint_at font x y s fg bg scale k = record k { fb = font_draw_string font x y s fg bg scale k.fb }
