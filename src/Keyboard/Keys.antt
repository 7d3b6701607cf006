-- ===== src/Keyboard/Keys.antt =====
-- Which character a scancode means in drivers/keyboard.c.
use valiant_core.Base.{
  ℕ, ◌-◌, ◌%◌, ◌<◌, ◌≡◌, refl, arith, Bool, true, false, not, ◌&&◌, leb, ◌==◌, ==_iff,
  if◌then◌else◌, u8, get_or, bit_and, holds_below, holds_below_lem,
}
use valiant_core.Base.Bits.{bit_and_low, bit_and_bit, bit_and_fields}
use valiant_core.Keyboard.{kbd_map, kbd_map_shift, caps, char_of}

abbrev is_letter : ℕ → Bool
is_letter c = leb b'a' c && leb c b'z'

abbrev xor : Bool → Bool → Bool
xor a b = if a then not b else b

-- A letter is a capital if one of shift and caps lock is on, any other key heeds shift alone.
unfoldable pub key : Bool → Bool → ℕ → ℕ
key shift on code =
    let c = get_or kbd_map code 0 in
    if is_letter c
    then (if xor shift on then c - 32 else c)
    else if shift
    then get_or kbd_map_shift code 0
    else c

keys : Bool → Bool → ℕ → Bool
keys shift on code = char_of shift on code == key shift on code

keys_table : (shift on : Bool) → holds_below (keys shift on) 128 ≡ true
unfolding holds_below keys char_of caps key
keys_table false false = refl
keys_table false true = refl
keys_table true false = refl
keys_table true true = refl

pub char_of-key :
    (shift on : Bool) (code : ℕ) → code < 128 → char_of shift on code ≡ key shift on code
unfolding keys
char_of-key shift on code lt =
    (==_iff _ _).0 (holds_below_lem (keys shift on) 128 code (keys_table shift on) lt)

-- The release bit and the key of a scancode.
pub released_lem : (s : ℕ) → s < 256 → not (bit_and s 0x80 == 0) ≡ leb 128 s
released_lem s lt = ground (arith, bit_and_bit 7 s)

pub code_lem : (s : ℕ) → s < 256 → u8 (bit_and s 0xFFFFFF7F) ≡ s % 128
code_lem s lt = ground (
  arith,
  bit_and_fields 8 0 16777215 s 127,
  bit_and_low 7 s,
  Prim.Native.Nat.bit_and-bitwise 0 16777215,
)
