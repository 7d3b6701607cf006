-- ===== src/Framebuffer/Aarch64.antt =====
-- arch/aarch64/framebuffer64.c: the framebuffer of the AArch64 kernel, with addresses of 64 bits.
pub mod Vertical
use valiant_core.Base.{
  ℕ, zero, suc, ◌+◌, ◌*◌, ◌/◌, Bool, true, false, not, ◌&&◌, ◌||◌, Option, none, some, leb, ◌==◌,
  if◌then◌else◌, u32, u64, for_range, ℤ, pos, negsuc, ◌+ℤ◌, ◌-ℤ◌, le_ℤ, lt_ℤ, to_u32,
}
use valiant_core.Framebuffer.{Fb, store}
use valiant_core.Framebuffer.Shapes.{eq_ℤ, double, circle, disc}

unfoldable pub fb64_init : Fb → ℕ → ℕ → ℕ → ℕ → ℕ → Fb × Bool
fb64_init s addt pitch width height bpp =
    if addt == 0 || width == 0 || height == 0 then (s, false) else (
      record s {
        fb_addr = addt;
        fb_pitch = pitch;
        fb_width = width;
        fb_height = height;
        fb_bpp = bpp;
        fb_ready = true;
      },
      true,
    )

unfoldable pub fb64_put_pixel : ℕ → ℕ → ℕ → Fb → Fb
fb64_put_pixel color x y s =
    if not s.fb_ready || leb s.fb_width x || leb s.fb_height y
    then s
    else store (u64 (s.fb_addr + u64 (y * s.fb_pitch + x * (s.fb_bpp / 8)))) color s

unfoldable pub fb64_fill_rect : ℕ → ℕ → ℕ → ℕ → ℕ → Fb → Fb
fb64_fill_rect color x y w h s =
    if not s.fb_ready
    then s
    else for_range h 0
        (λ row t.
          let offset = u64 (u32 (y + row) * t.fb_pitch + x * (t.fb_bpp / 8)) in
          for_range w 0 (λ col. store (u64 (t.fb_addr + offset + 4 * col)) color) t)
        s

unfoldable pub fb64_clear : ℕ → Fb → Fb
fb64_clear color s = if not s.fb_ready then s else fb64_fill_rect color 0 0 s.fb_width s.fb_height s

-- `if (x0 >= 0 && y0 >= 0) fb64_put_pixel(...)`
unfoldable pub put_signed : ℕ → ℤ → ℤ → Fb → Fb
put_signed color x y s =
    if le_ℤ (pos 0) x && le_ℤ (pos 0) y then fb64_put_pixel color (to_u32 x) (to_u32 y) s else s

-- An `int` of 32 bits can hold the number.
unfoldable pub is_int : ℤ → Bool
is_int a = le_ℤ (negsuc 2147483647) a && le_ℤ a (pos 2147483647)

-- How the drawing of a line ends: `overflowed` is undefined behaviour, where an `int` overflows, and
-- `running` stands where the rounds run out.
pub data Drawn : Type 0 where
  drawn : Fb → Drawn
  overflowed running : Drawn

-- What a round of the line comes to: the end of the line, an overflow, or the next `x0`, `y0` and `err`.
pub data Turn : Type 0 where
  at_end overflow : Turn
  go_on : ℤ → ℤ → ℤ → Turn

unfoldable pub turn64 : ℤ → ℤ → ℤ → ℤ → ℤ → ℤ → ℤ → ℤ → ℤ → Turn
turn64 x0 y0 x1 y1 dx dy sx sy err =
    let e2 = double err in
    let mx = le_ℤ dy e2 in
    let my = le_ℤ e2 dx in
    let err1 = if mx then err +ℤ dy else err in
    let err2 = if my then err1 +ℤ dx else err1 in
    let x0' = if mx then x0 +ℤ sx else x0 in
    let y0' = if my then y0 +ℤ sy else y0 in
    if eq_ℤ x0 x1 && eq_ℤ y0 y1
    then at_end
    else if is_int e2 && is_int err1 && is_int err2 && is_int x0' && is_int y0'
    then go_on x0' y0' err2
    else overflow

-- `while (1)` of the line.
unfoldable pub line_loop64 : ℕ → ℕ → ℤ → ℤ → ℤ → ℤ → ℤ → ℤ → ℤ → ℤ → ℤ → Fb → Drawn
line_loop64 zero color x0 y0 x1 y1 dx dy sx sy err s = running
line_loop64 (suc rounds) color x0 y0 x1 y1 dx dy sx sy err s =
    let s' = put_signed color x0 y0 s in
    elim (turn64 x0 y0 x1 y1 dx dy sx sy err) [
      | at_end ↦ drawn s'
      | overflow ↦ overflowed
      | go_on x y e ↦ line_loop64 rounds color x y x1 y1 dx dy sx sy e s'
    ]

unfoldable pub fb64_draw_line : ℕ → ℕ → ℤ → ℤ → ℤ → ℤ → Fb → Drawn
fb64_draw_line rounds color x0 y0 x1 y1 s =
    let dx = if lt_ℤ x0 x1 then x1 -ℤ y0 else x0 -ℤ x1 in
    let dy = if lt_ℤ y0 y1 then y1 -ℤ y0 else y0 -ℤ y1 in
    let sx = if lt_ℤ x0 x1 then pos 1 else negsuc 0 in
    let sy = if lt_ℤ y0 y1 then pos 1 else negsuc 0 in
    let err = dx +ℤ dy in
    if not s.fb_ready
    then drawn s
    else if not (is_int dx && is_int dy && is_int err)
    then overflowed
    else line_loop64 rounds color x0 y0 x1 y1 dx dy sx sy err s

-- `none` where the rounds run out.
unfoldable pub fb64_draw_circle : ℕ → ℕ → ℤ → ℤ → ℤ → Fb → Option Fb
fb64_draw_circle rounds color cx cy r s =
    if not s.fb_ready then some s else circle (fb64_put_pixel color) rounds cx cy r s

unfoldable pub fb64_fill_circle : ℕ → ℤ → ℤ → ℤ → Fb → Fb
fb64_fill_circle color cx cy r s =
    if not s.fb_ready then s else disc (fb64_put_pixel color) cx cy r s
