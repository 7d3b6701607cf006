-- ===== src/Console/Tests.antt =====
-- The theorem on the console at concrete input.
use valiant_core.Base.{◌≡◌, arith, true, some, [], codes}
use valiant_core.Console.{Font, Console, kprint, kprint_color}
use valiant_core.Console.Cursor.{IsConsole, kprint-IsConsole}

-- A font of 8 x 16 pixels, all set.
abbrev font : Font
font = record {
  glyphs = λ i. 255;
  numglyph = 256;
  charsize = 16;
  width = 8;
  height = 16;
  ready = true;
}

-- The last column of the last row of 640 x 480 pixels.
abbrev corner : Console
corner = record {
  cursor_x = 79;
  cursor_y = 29;
  fg_color = 0xFFFFFF;
  bg_color = 0;
  fb = record {
    fb_addr = 0xE0000000;
    fb_pitch = 2560;
    fb_width = 640;
    fb_height = 480;
    fb_bpp = 32;
    fb_ready = true;
    stores = [];
  };
}

kprint-IsConsole_example :
    IsConsole font (kprint font (some (codes "ab\n")) corner)
    × IsConsole font (kprint_color font (some (codes "ab\n")) 255 0 corner)
    × ((kprint_color font (some (codes "ab\n")) 255 0 corner).fg_color ≡ 0xFFFFFF)
    × ((kprint_color font (some (codes "ab\n")) 255 0 corner).bg_color ≡ 0)
kprint-IsConsole_example =
    kprint-IsConsole font (some (codes "ab\n")) 255 0 corner
      (omega arith, omega arith, ((omega arith, omega arith, omega arith), tt))
