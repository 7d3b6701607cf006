-- ===== src/Framebuffer/Tests.antt =====
-- The theorems on the framebuffers at concrete input.
use valiant_core.Base.{◌+◌, ◌^◌, ◌<◌, ◌⊎◌, ◌≡◌, refl, arith, true, some, [], pos, negsuc}
use valiant_core.Framebuffer.{
  Fb, fb_but_pixel, fb_clear, fb_fill_circle, fb_draw_line, fb_draw_circle,
}
use valiant_core.Framebuffer.Shapes.Ends.{Keeps}
use valiant_core.Framebuffer.Aarch64.{overflowed, running, fb64_draw_line}
use valiant_core.Framebuffer.Aarch64.Vertical.{fb64_draw_line_vertical}
use valiant_core.Framebuffer.Bounds.{IsSafe, fb_draw-IsSafe}

-- 640 x 480 pixels of 32 bits.
abbrev vga : Fb
vga = record {
  fb_addr = 0xE0000000;
  fb_pitch = 2560;
  fb_width = 640;
  fb_height = 480;
  fb_bpp = 32;
  fb_ready = true;
  stores = [];
}

fb_draw-IsSafe_example :
    IsSafe (fb_but_pixel 255 639 479 vga)
    × IsSafe (fb_clear 255 vga)
    × IsSafe (fb_fill_circle 255 (pos 5) (negsuc 4) (pos 40) vga)
    × Keeps IsSafe (fb_draw_line 50 255 (pos 5) (negsuc 4) (pos 40) (pos 7) vga)
    × ((t : Fb) × (fb_draw_circle (3 + 2) 255 (pos 5) (negsuc 4) (pos 3) vga ≡ some t) × IsSafe t)
fb_draw-IsSafe_example =
    fb_draw-IsSafe 255 639 479 50 3 (pos 5) (negsuc 4) (pos 40) (pos 7) vga
      ((omega arith, omega arith, omega arith), tt)

fb64_draw_line_vertical_example :
    (fb64_draw_line 1000 255 (pos 5) (pos 0) (pos 5) (pos 7) vga ≡ overflowed)
    ⊎ ((fb64_draw_line 1000 255 (pos 5) (pos 0) (pos 5) (pos 7) vga ≡ running) × (1000 < 2 ^ 30))
fb64_draw_line_vertical_example =
    fb64_draw_line_vertical 1000 255 (pos 5) (pos 0) (pos 7) vga refl refl
