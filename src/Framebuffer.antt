-- ===== src/Framebuffer.antt =====
-- drivers/framebuffer.c for the 32-bit kernel. What it stores is a list of addresses and colours, the
-- last store first; each store has 4 bytes. The signed numbers of the shapes do not overflow.
pub mod Shapes
pub mod Bounds
pub mod Aarch64
mod Tests
use valiant_core.Base.{
  ℕ, zero, suc, ◌+◌, ◌*◌, ◌/◌, Bool, true, false, not, ◌||◌, Option, none, some, List, ◌∷◌, leb,
  ◌==◌, if◌then◌else◌, u32, for_range, ℤ, neg_ℤ, to_u32,
}
use Shapes.{distance, line, circle, disc}

-- The static variables, and the stores to the screen.
pub record Fb : Type 0 where
  pub fb_addr : ℕ
  pub fb_pitch : ℕ
  pub fb_width : ℕ
  pub fb_height : ℕ
  pub fb_bpp : ℕ
  pub fb_ready : Bool
  pub stores : List (ℕ × ℕ)

-- The state and the result; `false` is -1.
unfoldable pub fb_init : Fb → ℕ → ℕ → ℕ → ℕ → ℕ → Fb × Bool
fb_init s addr pitch width height bpp = if addr == 0 then (s, false) else (
  record s {
    fb_addr = u32 addr;
    fb_pitch = pitch;
    fb_width = width;
    fb_height = height;
    fb_bpp = bpp;
    fb_ready = true;
  },
  true,
)

-- `*pixel = color`
unfoldable pub store : ℕ → ℕ → Fb → Fb
store a color s = record s { stores = (a, color) ∷ s.stores }

unfoldable pub fb_but_pixel : ℕ → ℕ → ℕ → Fb → Fb
fb_but_pixel color x y s =
    if not s.fb_ready || leb s.fb_width x || leb s.fb_height y
    then s
    else store (u32 (s.fb_addr + u32 (y * s.fb_pitch + x * (s.fb_bpp / 8)))) color s

-- One row of `fb_fill_rect`.
unfoldable pub fill_row : ℕ → ℕ → ℕ → ℕ → ℕ → Fb → Fb
fill_row color x y w row s =
    let offset = u32 (u32 (y + row) * s.fb_pitch + x * (s.fb_bpp / 8)) in
    for_range w 0 (λ col. store (u32 (s.fb_addr + offset + 4 * col)) color) s

unfoldable pub fb_fill_rect : ℕ → ℕ → ℕ → ℕ → ℕ → Fb → Fb
fb_fill_rect color x y w h s = if not s.fb_ready then s else for_range h 0 (fill_row color x y w) s

unfoldable pub fb_clear : ℕ → Fb → Fb
fb_clear color s = if not s.fb_ready then s else fb_fill_rect color 0 0 s.fb_width s.fb_height s

-- `none` where the rounds run out.
unfoldable pub fb_draw_line : ℕ → ℕ → ℤ → ℤ → ℤ → ℤ → Fb → Option Fb
fb_draw_line rounds color x0 y0 x1 y1 s =
    if not s.fb_ready
    then some s
    else line (λ x y. fb_but_pixel color (to_u32 x) (to_u32 y)) rounds (distance x1 x0)
        (neg_ℤ (distance y1 y0)) x0 y0 x1 y1 s

unfoldable pub fb_draw_circle : ℕ → ℕ → ℤ → ℤ → ℤ → Fb → Option Fb
fb_draw_circle rounds color cx cy r s =
    if not s.fb_ready then some s else circle (fb_but_pixel color) rounds cx cy r s

unfoldable pub fb_fill_circle : ℕ → ℤ → ℤ → ℤ → Fb → Fb
fb_fill_circle color cx cy r s = if not s.fb_ready then s else disc (fb_but_pixel color) cx cy r s
