-- ===== src/Panic/Screen.antt =====
-- The screen of a panic on the PC, arch/x86/vcorepanic.c for 32 bits. A screen is a list of drawing
-- calls, which `draw_all` makes in turn. Every coordinate wraps at 32 bits. The address of a page fault and
-- what a buffer of a numeral holds before are arguments.
use valiant_core.Base.{
  ℕ, zero, suc, ◌+◌, ◌-◌, ◌*◌, ◌/◌, ◌%◌, not, ◌||◌, some, List, [], ◌∷◌, ◌++◌, length, ◌==◌,
  if◌then◌else◌, u8, u32, get_or, codes,
}
use valiant_core.Framebuffer.{Fb, fb_clear, fb_fill_rect}
use valiant_core.Console.{Font, font_draw_string, font_draw_string_centered}
use valiant_core.Keyboard.{Keyboard, keyboard_getchar, keyboard_has_input}
use valiant_core.Panic.{choose, text_of, uint64_to_hex, uint32_to_hex}

abbrev detect_names : List (ℕ × List ℕ)
detect_names =
    (0, codes "ERR_DIVIDE_BY_ZERO")
    ∷ (1, codes "ERR_DEBUG_EXCEPTION")
    ∷ (2, codes "ERR_NMI")
    ∷ (3, codes "ERR_BREAKPOINT")
    ∷ (4, codes "ERR_OVERFLOW")
    ∷ (5, codes "ERR_BOUND_RANGE_EXCEEDED")
    ∷ (6, codes "ERR_INVALID_OPCODE")
    ∷ (7, codes "ERR_DEVICE_NOT_AVAILABLE")
    ∷ (8, codes "ERR_DOUBLE_FAULT")
    ∷ (9, codes "ERR_COPROCESSOR_OVERRUN")
    ∷ (10, codes "ERR_INVALID_TSS")
    ∷ (11, codes "ERR_SEGMENT_NOT_PRESENT")
    ∷ (12, codes "ERR_STACK_SEGMENT_FAULT")
    ∷ (13, codes "ERR_GENERAL_PROTECTION_FAULT")
    ∷ (14, codes "ERR_PAGE_FAULT")
    ∷ (16, codes "ERR_FPU_EXCEPTION")
    ∷ (17, codes "ERR_ALIGNMENT_CHECK")
    ∷ (18, codes "ERR_MACHINE_CHECK")
    ∷ (19, codes "ERR_SIMD_EXCEPTION")
    ∷ (20, codes "ERR_VIRTUALIZATION_EXCEPTION")
    ∷ (21, codes "ERR_CONTROL_PROTECTION")
    ∷ (28, codes "ERR_HYPERVISOR_INJECTION")
    ∷ (29, codes "ERR_VMM_COMMUNICATION")
    ∷ (30, codes "ERR_SECURITY_EXCEPTION")
    ∷ []

unfoldable pub panic_detect : ℕ → List ℕ
panic_detect int_no = choose int_no detect_names (codes "ERR_UNKOWN")

abbrev describe_names : List (ℕ × List ℕ)
describe_names =
    (0, codes "Division by zero in arithmetic operation")
    ∷ (1, codes "Debug exception triggered")
    ∷ (2, codes "Non-maskable interrupt received")
    ∷ (3, codes "Breakpoint instruction executed")
    ∷ (4, codes "Overflow condition detected")
    ∷ (5, codes "Array index out of bounds")
    ∷ (6, codes "CPU encountered an illegal instruction")
    ∷ (7, codes "FPU/SSE instruction on unavailable device")
    ∷ (8, codes "Critical: exception while handling exception")
    ∷ (12, codes "Stack operation caused segment violation")
    ∷ (13, codes "Memory access violated protection rules")
    ∷ (14, codes "Access to unmapped or protected memory page")
    ∷ (16, codes "Floating point arithmetic error")
    ∷ (17, codes "Unaligned memory access detected")
    ∷ (18, codes "Critical hardware error detected")
    ∷ []

unfoldable pub panic_describe : ℕ → List ℕ
panic_describe int_no = choose int_no describe_names (codes "An unexpected exception occurred")

-- The two fields of `struct registers` that are read.
pub record Registers : Type 0 where
  pub int_no : ℕ
  pub err_code : ℕ

-- The calls of the drawing functions, with their arguments in the order of the code, at scale 1.
pub data Draw : Type 0 where
  clear : (color : ℕ) → Draw
  rect : (x y w h color : ℕ) → Draw
  text : (x y : ℕ) → (str : List ℕ) → (fg bg : ℕ) → Draw
  centered : (y : ℕ) → (str : List ℕ) → (fg bg : ℕ) → Draw

unfoldable pub draw : Font → Draw → Fb → Fb
draw font (clear color) s = fb_clear color s
draw font (rect x y w h color) s = fb_fill_rect color (u32 x) (u32 y) (u32 w) (u32 h) s
draw font (text x y str fg bg) s = font_draw_string font (u32 x) (u32 y) (some str) fg bg 1 s
draw font (centered y str fg bg) s = font_draw_string_centered font (u32 y) (some str) fg bg 1 s

unfoldable pub draw_all : Font → List Draw → Fb → Fb
draw_all font [] s = s
draw_all font (d ∷ ds) s = draw_all font ds (draw font d s)

unfoldable pub panic_draw_button : ℕ → ℕ → ℕ → ℕ → List ℕ → ℕ → List Draw
panic_draw_button fw fh x y str bg =
    let btn_w = u32 (length str * fw + 24) in
    let btn_h = u32 (fh + 12) in
    rect x y btn_w btn_h bg
    ∷ rect x y btn_w 1 0xFFFFFF
    ∷ rect x (y + btn_h + 4294967295) btn_w 1 0xFFFFFF
    ∷ rect x y 1 btn_h 0xFFFFFF
    ∷ rect (x + btn_w + 4294967295) y 1 btn_h 0xFFFFFF
    ∷ text (x + 12) (y + 6) str 0xFFFFFF bg
    ∷ []

-- The two digits of the number of the exception behind a text, up to a zero byte.
unfoldable pub with_number : List ℕ → ℕ → List ℕ
with_number str int_no =
    text_of (length str + 3)
      (λ i. get_or (str ++ (u8 (48 + int_no / 10) ∷ u8 (48 + int_no % 10) ∷ [])) i 0)

-- The rows of the box at `y`.
unfoldable pub box_rows : ℕ → ℕ → ℕ → ℕ → List ℕ → Registers → List Draw
box_rows fw fh box_x y cr2_str regs =
    let name = box_x + 16 in
    let value = box_x + 16 + fw * 13 in
    text name (y + 8) (codes "Error Code :") 0xF1C40F 0xA93226
    ∷ text value (y + 8) (panic_detect regs.int_no) 0xFFFFFF 0xA93226
    ∷ text name (y + 8 + fh + 4) (codes "Description:") 0xF1C40F 0xA93226
    ∷ text value (y + 8 + fh + 4) (panic_describe regs.int_no) 0xFFFFFF 0xA93226
    ∷ text name (y + 8 + (fh + 4) * 2) (codes "Exception :") 0xF1C40F 0xA93226
    ∷ text value (y + 8 + (fh + 4) * 2) (with_number (codes "Exception #") regs.int_no) 0xFFFFFF
        0xA93226
    ∷ text name (y + 8 + (fh + 4) * 3) (codes "Architecture:") 0xF1C40F 0xA93226
    ∷ text value (y + 8 + (fh + 4) * 3) (codes "i386") 0xFFFFFF 0xA93226
    ∷ (if regs.int_no == 14
        then text name (y + 8 + (fh + 4) * 4) (codes "Fault Addr :") 0xF1C40F 0xA93226
          ∷ text value (y + 8 + (fh + 4) * 4) cr2_str 0x00E5FF 0xA93226
          ∷ []
        else [])

-- The last bar's text has a dash of three bytes.
abbrev press_d : List ℕ
press_d = codes "ValiantCore Kernel " ++ (226 ∷ 128 ∷ 148 ∷ codes " Press [D] for full details")

-- The parts above the box, with the box, and below it.
unfoldable pub main_head : ℕ → ℕ → ℕ → List Draw
main_head fh w y =
    clear 0xC0392B
    ∷ rect 0 0 w (fh + 12) 0xF1C40F
    ∷ centered 6 (codes "!!! VALIANTCORE PANIC !!!") 0x000000 0xF1C40F
    ∷ centered (fh + 32) (codes "A critical error has been detected.") 0xFFFFFF 0xC0392B
    ∷ centered (fh + 32 + (fh + 8)) (codes "The system has been halted to prevent damage.") 0xFFCDD2
        0xC0392B
    ∷ rect (w / 6) y (u32 (w * 2) / 3) (fh * 6 + 24) 0xA93226
    ∷ []

unfoldable pub main_foot : ℕ → ℕ → ℕ → ℕ → List Draw
main_foot fh w h y =
    centered (y + (fh + 12 + 20)) (codes "Cannot resolve this issue? Open an issue at:") 0xFFCDD2
      0xC0392B
    ∷ centered (y + (fh + 12 + 20) + (fh + 6))
        (codes "github.com/finndev62/valiantcore -> Issue tab") 0xF1C40F 0xC0392B
    ∷ rect 0 (h + 8589934592 - u32 fh - 12) w (fh + 12) 0xF1C40F
    ∷ centered (h + 8589934592 - u32 fh - 6) press_d 0x000000 0xF1C40F
    ∷ []

unfoldable pub main_screen : ℕ → ℕ → ℕ → ℕ → List ℕ → Registers → List Draw
main_screen fw fh w h cr2_str regs =
    let y = fh + 32 + (fh + 8) + (fh + 24) in
    let btn_y = y + (fh * 6 + 24 + 20) in
    let btn_x = u32 (w + 4294967296 - u32 (fw * 26 + 24)) / 2 in
    let button = codes "[D] Show Full Diagnostic Report" in
    main_head fh w y
    ++ (box_rows fw fh (w / 6) y cr2_str regs
        ++ (panic_draw_button fw fh btn_x btn_y button 0x1976D2 ++ main_foot fh w h btn_y))

unfoldable pub panic_draw_main : Font → ℕ → (ℕ → ℕ) → Registers → Fb → Fb
panic_draw_main font cr2 junk regs s =
    draw_all font
      (main_screen font.width font.height s.fb_width s.fb_height
        (text_of 20 (uint64_to_hex cr2 junk)) regs)
      s

-- The part that only a page fault has; its last two calls are the bar at the bottom.
unfoldable pub fault_rows : ℕ → ℕ → ℕ → ℕ → ℕ → List ℕ → List ℕ → List Draw
fault_rows fw fh w h y cr2_str err_hex =
    let lh = fh + 6 in
    text 40 y (codes "[FAULT ADDRESS]") 0x00E5FF 0x1565C0
    ∷ text 40 (y + (lh + 4)) cr2_str 0xFFFFFF 0x1565C0
    ∷ text 40 (y + (lh + 4) + (lh + 8)) (codes " Error Code (raw):") 0xBBDEFB 0x1565C0
    ∷ text (40 + fw * 20) (y + (lh + 4) + (lh + 8)) err_hex 0xFFFFFF 0x1565C0
    ∷ rect 0 (h + 8589934592 - u32 fh - 12) w (fh + 12) 0x0D47A1
    ∷ centered (h + 8589934592 - u32 fh - 6)
        (codes "github.com/finndev62/valiantcore -> Issues tab") 0xFFFFFF 0x0D47A1
    ∷ []

unfoldable pub detail_screen : ℕ → ℕ → ℕ → ℕ → List ℕ → List ℕ → Registers → List Draw
detail_screen fw fh w h cr2_str err_hex regs =
    let lh = fh + 6 in
    let y = fh + 24 in
    let y1 = y + (lh + 4) in
    let y2 = y1 + lh + lh + (lh + 8) in
    clear 0x1565C0
    ∷ rect 0 0 w (fh + 12) 0x0D47A1
    ∷ centered 6 (codes "VALIANTCORE FULL DIAGNOSTIC REPORT") 0xFFFFFF 0x0D47A1
    ∷ text 40 y (codes "[ EXCEPTION]") 0x00E5FF 0x1565C0
    ∷ text 40 y1 (codes " Exception") 0xBBDEFB 0x1565C0
    ∷ text (40 + fw * 16) y1 (with_number (codes "#") regs.int_no) 0xFFFFFF 0x1565C0
    ∷ text 40 (y1 + lh) (codes " Error Code :") 0xBBDEFB 0x1565C0
    ∷ text (40 + fw * 16) (y1 + lh) (panic_detect regs.int_no) 0xF1C40F 0x1565C0
    ∷ text 40 (y1 + lh + lh) (codes " Description:") 0xBBDEFB 0x1565C0
    ∷ text (40 + fw * 16) (y1 + lh + lh) (panic_describe regs.int_no) 0xFFFFFF 0x1565C0
    ∷ text 40 y2 (codes "[ REGISTER DUMP ]") 0x00E5FF 0x1565C0
    ∷ (if regs.int_no == 14 then fault_rows fw fh w h (y2 + (lh + 4)) cr2_str err_hex else [])

unfoldable pub panic_draw_detail : Font → ℕ → (ℕ → ℕ) → Registers → Fb → Fb
panic_draw_detail font cr2 junk regs s =
    draw_all font
      (detail_screen font.width font.height s.fb_width s.fb_height
        (text_of 20 (uint64_to_hex cr2 junk)) (text_of 12 (uint32_to_hex regs.err_code junk)) regs)
      s

-- A round of the endless loop of `kernel_panic`.
unfoldable pub panic_round : Font → ℕ → (ℕ → ℕ) → Registers → Keyboard × Fb → Keyboard × Fb
panic_round font cr2 junk regs (k, s) =
    let (k', c) = keyboard_getchar k in
    if not (keyboard_has_input k)
    then (k, s)
    else (if c == 100 || c == 68 then (k', panic_draw_detail font cr2 junk regs s) else (k', s))

unfoldable pub panic_rounds : ℕ → Font → ℕ → (ℕ → ℕ) → Registers → Keyboard × Fb → Keyboard × Fb
panic_rounds zero font cr2 junk regs x = x
panic_rounds (suc n) font cr2 junk regs x =
    panic_rounds n font cr2 junk regs (panic_round font cr2 junk regs x)

-- `kernel_panic`, with `n` rounds of its loop.
unfoldable pub kernel_panic : ℕ → Font → ℕ → (ℕ → ℕ) → Registers → Keyboard × Fb → Keyboard × Fb
kernel_panic n font cr2 junk regs (k, s) =
    if not s.fb_ready
    then (k, s)
    else panic_rounds n font cr2 junk regs (k, panic_draw_main font cr2 junk regs s)
