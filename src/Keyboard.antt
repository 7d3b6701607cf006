-- ===== src/Keyboard.antt =====
-- drivers/keyboard.c: the PS/2 keyboard driver. The scancode that `inb` reads is an argument.
pub mod Queue
pub mod Keys
pub mod Refine
pub mod Typing
mod Tests
use valiant_core.Base.{
  ℕ, ◌+◌, ◌-◌, ◌%◌, ◌≤◌, ◌<◌, Bool, true, false, not, ◌&&◌, ◌||◌, List, [], ◌∷◌, leb, ◌==◌,
  if◌then◌else◌, u8, u32, update, get_or, bit_and,
}

-- `kbd_map` and `kbd_map_shift`, as character codes: the entries that their initialisers write. The
-- others are 0.
abbrev pub kbd_map : List ℕ
kbd_map =
    0 ∷ 27 ∷ 49 ∷ 50 ∷ 51 ∷ 52 ∷ 53 ∷ 54 ∷ 55 ∷ 56 ∷ 57 ∷ 48 ∷ 45 ∷ 61 ∷ 8 ∷ 9 ∷ 113 ∷ 119 ∷ 101
    ∷ 114 ∷ 116 ∷ 121 ∷ 117 ∷ 105 ∷ 111 ∷ 112 ∷ 91 ∷ 93 ∷ 10 ∷ 0 ∷ 97 ∷ 115 ∷ 100 ∷ 102 ∷ 103 ∷ 104
    ∷ 106 ∷ 107 ∷ 108 ∷ 59 ∷ 39 ∷ 96 ∷ 0 ∷ 92 ∷ 122 ∷ 120 ∷ 99 ∷ 118 ∷ 98 ∷ 110 ∷ 109 ∷ 44 ∷ 46 ∷ 47
    ∷ 0 ∷ 42 ∷ 0 ∷ 32 ∷ 0 ∷ 0 ∷ 0 ∷ 0 ∷ 0 ∷ 0 ∷ 0 ∷ 0 ∷ 0 ∷ 0 ∷ 0 ∷ 0 ∷ 0 ∷ 0 ∷ 0 ∷ 0 ∷ 0 ∷ 0 ∷ 0
    ∷ 0 ∷ 0 ∷ 0 ∷ 0 ∷ 0 ∷ 0 ∷ 0 ∷ 0 ∷ 0 ∷ 0 ∷ 0 ∷ 0 ∷ 0 ∷ 0 ∷ 0 ∷ 0 ∷ 0 ∷ 0 ∷ 0 ∷ 0 ∷ 0 ∷ []

abbrev pub kbd_map_shift : List ℕ
kbd_map_shift =
    0 ∷ 27 ∷ 33 ∷ 64 ∷ 35 ∷ 36 ∷ 37 ∷ 94 ∷ 38 ∷ 42 ∷ 40 ∷ 41 ∷ 95 ∷ 43 ∷ 8 ∷ 9 ∷ 81 ∷ 87 ∷ 69 ∷ 82
    ∷ 84 ∷ 89 ∷ 85 ∷ 73 ∷ 79 ∷ 80 ∷ 123 ∷ 125 ∷ 10 ∷ 0 ∷ 65 ∷ 83 ∷ 68 ∷ 70 ∷ 71 ∷ 72 ∷ 74 ∷ 75 ∷ 76
    ∷ 58 ∷ 34 ∷ 126 ∷ 0 ∷ 124 ∷ 90 ∷ 88 ∷ 67 ∷ 86 ∷ 66 ∷ 78 ∷ 77 ∷ 60 ∷ 62 ∷ 63 ∷ 0 ∷ 42 ∷ 0 ∷ 32
    ∷ 0 ∷ 0 ∷ 0 ∷ 0 ∷ 0 ∷ 0 ∷ 0 ∷ 0 ∷ 0 ∷ 0 ∷ 0 ∷ 0 ∷ 0 ∷ 0 ∷ 0 ∷ 0 ∷ 0 ∷ 0 ∷ 0 ∷ 0 ∷ 0 ∷ 0 ∷ 0 ∷ 0
    ∷ 0 ∷ 0 ∷ 0 ∷ 0 ∷ 0 ∷ 0 ∷ 0 ∷ 0 ∷ 0 ∷ 0 ∷ 0 ∷ 0 ∷ 0 ∷ 0 ∷ 0 ∷ 0 ∷ []

abbrev pub kbd_buffer_size : ℕ
kbd_buffer_size = 256

-- The static variables of keyboard.c.
pub record Keyboard : Type 0 where
  pub shift_pressed : Bool
  pub ctrl_pressed : Bool
  pub caps_lock : Bool
  pub kbd_buffer : ℕ → ℕ
  pub kbd_head : ℕ
  pub kbd_tail : ℕ

unfoldable pub kbd_buffer_push : Keyboard → ℕ → Keyboard
kbd_buffer_push k c =
    let next = u32 (k.kbd_head + 1) % kbd_buffer_size in
    if next == k.kbd_tail
    then k
    else record k { kbd_buffer = update k.kbd_buffer k.kbd_head c; kbd_head = next }

unfoldable pub keyboard_getchar : Keyboard → Keyboard × ℕ
keyboard_getchar k =
    if k.kbd_head == k.kbd_tail
    then (k, 0)
    else (record k { kbd_tail = u32 (k.kbd_tail + 1) % kbd_buffer_size }, k.kbd_buffer k.kbd_tail)

unfoldable pub keyboard_has_input : Keyboard → Bool
keyboard_has_input k = not (k.kbd_head == k.kbd_tail)

-- `if (caps_lock && c >= 'a' && c <= 'z') c -= 32; else if (...) c += 32;`
unfoldable pub caps : Bool → ℕ → ℕ
caps on c =
    if on && leb b'a' c && leb c b'z'
    then c - 32
    else if on && leb b'A' c && leb c b'Z'
    then c + 32
    else c

-- The character of a pressed key that is no modifier.
unfoldable pub char_of : Bool → Bool → ℕ → ℕ
char_of shift on code =
    caps on (if shift then get_or kbd_map_shift code 0 else get_or kbd_map code 0)

-- The end of `keyboard_handler`, from `if (released) return;` on.
unfoldable pub key_down : Keyboard → Bool → ℕ → Keyboard
key_down k released code =
    let c = char_of k.shift_pressed k.caps_lock code in
    if released then k else if leb 128 code then k else if c == 0 then k else kbd_buffer_push k c

-- `~KBD_RELEASE_MASK` in `int` is 0xFFFFFF7F.
unfoldable pub keyboard_handler : Keyboard → ℕ → Keyboard
keyboard_handler k scancode =
    let released = not (bit_and scancode 0x80 == 0) in
    let code = u8 (bit_and scancode 0xFFFFFF7F) in
    if code == 42 || code == 54
    then record k { shift_pressed = not released }
    else if code == 29
    then record k { ctrl_pressed = not released }
    else if code == 58 && not released
    then record k { caps_lock = not k.caps_lock }
    else key_down k released code
