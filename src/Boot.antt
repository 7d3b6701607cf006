-- ===== src/Boot.antt =====
-- kernel/vcore_bootscreen.c: the logo and the spinner. The pixels of the logo are an argument. The
-- angles are never negative, so the two additions of 360 to a negative one are left out.
pub mod Tables
pub mod Spin
use valiant_core.Base.{
  ℕ, zero, suc, ◌+◌, ◌-◌, ◌*◌, ◌/◌, ◌%◌, Bool, not, some, List, ltb, leb, ◌==◌, if◌then◌else◌, u32,
  get_or, for_range, codes, ℤ, pos, negsuc, ◌+ℤ◌, ◌-ℤ◌, neg_ℤ, square, to_u32,
}
use valiant_core.Framebuffer.{Fb, fb_but_pixel, fb_clear}
use valiant_core.Console.{Font, font_draw_string_centered}
use Tables.{sin_table, cos_table}

-- `spinner_offset`, `spinner_cx`, `spinner_cy` and the framebuffer.
pub record Boot : Type 0 where
  pub spinner_offset : ℕ
  pub spinner_cx : ℤ
  pub spinner_cy : ℤ
  pub fb : Fb

-- `fb_but_pixel((uint32_t)x, (uint32_t)y, color)`
unfoldable pub plot : ℕ → ℤ → ℤ → Fb → Fb
plot color x y s = fb_but_pixel color (to_u32 x) (to_u32 y) s

unfoldable pub draw_logo : (ℕ → ℕ) → Fb → Fb
draw_logo logo s =
    let logo_x = u32 (s.fb_width + 4294967296 - 128) / 2 in
    let logo_y = s.fb_height / 2 + 4294967296 - 128 - 60 in
    for_range 128 0
      (λ row.
        for_range 128 0
          (λ col. fb_but_pixel (logo (row * 128 + col)) (u32 (logo_x + col)) (u32 (logo_y + row))))
      s

-- `(r * entry) / 1000`, which rounds towards 0.
unfoldable pub scaled : ℕ → ℤ → ℤ
scaled r (pos n) = pos (r * n / 1000)
scaled r (negsuc n) = neg_ℤ (pos (r * suc n / 1000))

-- The inner loop of `draw_segment`.
unfoldable pub draw_ray : ℤ → ℤ → ℕ → ℕ → ℕ → ℕ → Fb → Fb
draw_ray cx cy r_out r_in color deg s =
    let d = deg % 360 in
    for_range (suc r_out - r_in) r_in
      (λ r.
        plot color (cx +ℤ scaled r (get_or cos_table d (pos 0)))
          (cy +ℤ scaled r (get_or sin_table d (pos 0))))
      s

unfoldable pub draw_segment : ℤ → ℤ → ℕ → ℕ → ℕ → ℕ → ℕ → Fb → Fb
draw_segment cx cy s e r_out r_in color fb =
    for_range (suc e - s) s (draw_ray cx cy r_out r_in color) fb

unfoldable pub segment_color : ℕ → ℕ
segment_color i =
    let active = (12 - 1 - i) % 12 in
    if active == 0
    then 0xFFFFFF
    else (if active == 1 then 0xCCCCCC else (if leb active 3 then 0x888888 else 0x333333))

-- The body of the first loop of `draw_spinner`.
unfoldable pub draw_part : ℤ → ℤ → ℕ → ℕ → Fb → Fb
draw_part cx cy offset i fb =
    let s = (i * 30 + 4 / 2 + offset) % 360 in
    let e = s + 30 + 4 in
    draw_segment cx cy s (if leb 360 e then 359 else e) 24 14 (segment_color i) fb

-- The pixels of a square from -r to r that are nearer to the middle than a bound on the squares.
unfoldable pub fill_near : ℤ → ℤ → ℕ → ℕ → Fb → Fb
fill_near cx cy r bound fb =
    for_range (2 * r + 1) 0
      (λ j.
        let dy = pos j -ℤ pos r in
        for_range (2 * r + 1) 0 (λ i t.
          let dx = pos i -ℤ pos r in
          if ltb (square dx + square dy) bound then plot 0x0A0A14 (cx +ℤ dx) (cy +ℤ dy) t else t))
      fb

unfoldable pub draw_spinner : ℤ → ℤ → ℕ → Fb → Fb
draw_spinner cx cy offset fb =
    fill_near cx cy 14 (14 * 14) (for_range 12 0 (draw_part cx cy offset) fb)

unfoldable pub boot_screen_show : Font → (ℕ → ℕ) → Boot → Boot
boot_screen_show font logo b =
    let cx = pos (b.fb.fb_width / 2) in
    let cy = pos (b.fb.fb_height / 2 + 20) in
    let spun = draw_spinner cx cy 0 (draw_logo logo (fb_clear 0x0A0A14 b.fb)) in
    if not b.fb.fb_ready then b else record {
      spinner_offset = 0;
      spinner_cx = cx;
      spinner_cy = cy;
      fb =
          font_draw_string_centered font (to_u32 (cy +ℤ pos 24 +ℤ pos 20))
            (some (codes "By Finn Dev")) 0x888888 0x0A0A14 1 spun;
    }

-- The test of the first loop is `<=` on the squares.
unfoldable pub boot_screen_spin : Boot → Boot
boot_screen_spin b =
    let offset = (b.spinner_offset + 30) % 360 in
    let cleared = fill_near b.spinner_cx b.spinner_cy 26 (suc (26 * 26)) b.fb in
    if not b.fb.fb_ready then b else record b {
      spinner_offset = offset;
      fb = draw_spinner b.spinner_cx b.spinner_cy offset cleared;
    }
