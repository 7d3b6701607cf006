-- ===== src/Panic/Tests.antt =====
-- The panic screens at concrete values.
use valiant_core.Base.{true, false, refl, [], arith}
use valiant_core.Panic.{uint64_to_hex, uint32_to_hex}
use valiant_core.Framebuffer.{Fb}
use valiant_core.Console.{Font}
use valiant_core.Console.Cursor.{IsScreen}
use valiant_core.Keyboard.{Keyboard}
use valiant_core.Panic.Screen.{Registers, kernel_panic}
use valiant_core.Panic.Bounds.{kernel_panic-IsScreen}
use valiant_core.Panic.Hex.{IsHex, to_hex-IsHex}

to_hex-IsHex_example :
    IsHex 16 0x96000045 (λ i. 0) (uint64_to_hex 0x96000045 (λ i. 0))
    × IsHex 8 0xDEADBEEF (λ i. 0) (uint32_to_hex 0xDEADBEEF (λ i. 0))
to_hex-IsHex_example = to_hex-IsHex 0x96000045 0xDEADBEEF (λ i. 0) (omega arith) (omega arith)

abbrev font : Font
font = record {
  glyphs = λ i. 0xAA;
  numglyph = 256;
  charsize = 16;
  width = 8;
  height = 16;
  ready = true;
}

-- 800 columns and 600 rows.
abbrev screen : Fb
screen = record {
  fb_addr = 0xE0000000;
  fb_pitch = 3200;
  fb_width = 800;
  fb_height = 600;
  fb_bpp = 32;
  fb_ready = true;
  stores = [];
}

-- A key has been typed before.
abbrev typed : Keyboard
typed = record {
  shift_pressed = false;
  ctrl_pressed = false;
  caps_lock = false;
  kbd_buffer = λ i. 100;
  kbd_head = 0;
  kbd_tail = 1;
}

abbrev page_fault : Registers
page_fault = record { int_no = 14; err_code = 2 }

kernel_panic-IsScreen_example :
    IsScreen 800 600 (kernel_panic 3 font 0xC0000000 (λ i. 0) page_fault (typed, screen)).1
kernel_panic-IsScreen_example =
    kernel_panic-IsScreen font 800 600 (omega arith, omega arith, omega arith, omega arith)
      0xC0000000 (λ i. 0) page_fault 3 typed screen
      ((((omega arith, omega arith, omega arith), tt)), refl, refl)
