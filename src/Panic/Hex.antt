-- ===== src/Panic/Hex.antt =====
-- The numerals of the panic screens.
use native.Mathlib.Nat.{pow-suc, div-div-eq-div-mul}
use valiant_core.Base.{
  ℕ, zero, suc, ◌+◌, ◌-◌, ◌*◌, ◌/◌, ◌%◌, ◌^◌, ◌≤◌, ◌<◌, ◌≡◌, refl, sym, ap, ◌∙◌, arith, Bool, true,
  ltb, ◌==◌, if◌then◌else◌, update, update_self, update_ne, bit_and, for_range, for_range_inv,
  holds_below, holds_below_lem,
}
use valiant_core.Base.Bits.{bit_and_low}
use valiant_core.Panic.{hex_digit, put_digit, uint64_to_hex, uint32_to_hex}

-- The value of a hexadecimal digit.
unfoldable pub hex_value : ℕ → ℕ
hex_value c = if ltb c 58 then c - 48 else c - 55

-- The number whose digits are the first `n` characters behind the prefix.
unfoldable pub parse_hex : ℕ → (ℕ → ℕ) → ℕ
parse_hex zero out = 0
parse_hex (suc n) out = parse_hex n out * 16 + hex_value (out (2 + n))

abbrev digit_ok : ℕ → Bool
digit_ok d = hex_value (hex_digit d) == d

digit_table : holds_below digit_ok 16 ≡ true
unfolding holds_below hex_value hex_digit
digit_table = refl

hex_value-hex_digit : (d : ℕ) → d < 16 → hex_value (hex_digit d) ≡ d
hex_value-hex_digit d lt = let entry = holds_below_lem digit_ok 16 d digit_table lt in ground arith

parse_hex_ext :
    (f g : ℕ → ℕ) (n : ℕ)
    → ((j : ℕ) → j < n → f (2 + j) ≡ g (2 + j))
    → parse_hex n f ≡ parse_hex n g
unfolding parse_hex
parse_hex_ext f g zero same = refl
parse_hex_ext f g (suc n) same =
    ap (λ (t : ℕ). t * 16 + hex_value (f (2 + n)))
      (parse_hex_ext f g n (λ j lt. same j (omega arith)))
    ∙ ap (λ (c : ℕ). parse_hex n g * 16 + hex_value c) (same n (omega arith))

-- Four binary digits less.
shift_lem : (val s : ℕ) → val / 2 ^ (4 + s) ≡ val / 2 ^ s / 16
shift_lem val s =
    let power : 2 ^ s * 16 ≡ 2 ^ (4 + s) = omega (
      arith,
      pow-suc 2 s,
      pow-suc 2 (suc s),
      pow-suc 2 (suc (suc s)),
      pow-suc 2 (suc (suc (suc s))),
      ap (λ (t : ℕ). 2 ^ t) (four s),
    ) in
    ap (λ (t : ℕ). val / t) (sym power) ∙ sym (div-div-eq-div-mul val (2 ^ s) 16)
  where
    four : (s : ℕ) → 4 + s ≡ suc (suc (suc (suc s)))
    four s = omega arith

module _ (n top val : ℕ) (first : ℕ → ℕ) (last : top + 4 ≡ n * 4) where
  -- The first `k` digits have been written behind the prefix, which is as before, as is the rest.
  abbrev Written : ℕ → (ℕ → ℕ) → Type 0
  Written k out =
      (parse_hex k out ≡ val / 2 ^ (n * 4 - k * 4))
      × (out 0 ≡ first 0)
      × (out 1 ≡ first 1)
      × ((j : ℕ) → 2 + k ≤ j → out j ≡ first j)

  put_digit-Written :
      (k : ℕ) (out : ℕ → ℕ) → k < n → Written k out → Written (suc k) (put_digit top val k out)
  unfolding put_digit parse_hex
  put_digit-Written k out lt (value, zero_at, x_at, rest) =
      let s = top - k * 4 in
      let x = val / 2 ^ s in
      let digit = bit_and x 0xF in
      let low : digit ≡ x % 16 = bit_and_low 4 x in
      let out' = update out (2 + k) (hex_digit digit) in
      let wide : n * 4 - k * 4 ≡ 4 + s = omega arith in
      let narrow : n * 4 - suc k * 4 ≡ s = omega arith in
      let high : parse_hex k out ≡ x / 16 =
        value ∙ ap (λ (t : ℕ). val / 2 ^ t) wide ∙ shift_lem val s in
      let kept =
        parse_hex_ext out' out k
          (λ j below. update_ne out (2 + k) _ (2 + j) (λ e. omega (arith, e))) in
      let new : hex_value (out' (2 + k)) ≡ digit =
        ap hex_value (update_self out (2 + k) _) ∙ hex_value-hex_digit digit (omega (arith, low)) in
      (
        omega (arith, kept, high, new, low, ap (λ (t : ℕ). val / 2 ^ t) narrow),
        update_ne out (2 + k) _ 0 (λ e. omega (arith, e)) ∙ zero_at,
        update_ne out (2 + k) _ 1 (λ e. omega (arith, e)) ∙ x_at,
        λ j le. update_ne out (2 + k) _ j (λ e. omega (arith, e)) ∙ rest j (omega arith),
      )

  for_range-Written : val / 2 ^ (n * 4) ≡ 0 → Written n (for_range n 0 (put_digit top val) first)
  unfolding parse_hex
  for_range-Written small =
      for_range_inv Written (put_digit top val) n 0 n first (omega arith) put_digit-Written
        (sym (ap (λ (t : ℕ). val / 2 ^ t) start ∙ small), refl, refl, λ j le. refl)
    where
      start : n * 4 - 0 * 4 ≡ n * 4
      start = omega arith

-- `0x`, as many digits as are asked for, the digits of the number, and a zero are written, and
-- nothing behind them.
abbrev pub IsHex : ℕ → ℕ → (ℕ → ℕ) → (ℕ → ℕ) → Type 0
IsHex n val old out =
    (parse_hex n out ≡ val)
    × (out 0 ≡ 48)
    × (out 1 ≡ 120)
    × (out (2 + n) ≡ 0)
    × ((j : ℕ) → 2 + n < j → out j ≡ old j)

numeral-IsHex :
    (n top val : ℕ) (old : ℕ → ℕ)
    → top + 4 ≡ n * 4
    → val / 2 ^ (n * 4) ≡ 0
    → IsHex n val old
        (update (for_range n 0 (put_digit top val) (update (update old 0 48) 1 120)) (2 + n) 0)
numeral-IsHex n top val old last small =
    let first = update (update old 0 48) 1 120 in
    let out = for_range n 0 (put_digit top val) first in
    let (value, zero_at, x_at, rest) = for_range-Written n top val first last small in
    let all : n * 4 - n * 4 ≡ 0 = omega arith in
    let kept =
      parse_hex_ext (update out (2 + n) 0) out n
        (λ j below. update_ne out (2 + n) 0 (2 + j) (λ e. omega (arith, e))) in
    (
      omega (arith, kept, value, ap (λ (t : ℕ). val / 2 ^ t) all),
      update_ne out (2 + n) 0 0 (λ e. omega (arith, e)) ∙ zero_at,
      update_ne out (2 + n) 0 1 (λ e. omega (arith, e)) ∙ x_at,
      update_self out (2 + n) 0,
      λ j lt.
          update_ne out (2 + n) 0 j (λ e. omega (arith, e))
          ∙ rest j (omega arith)
          ∙ update_ne (update old 0 48) 1 120 j (λ e. omega (arith, e))
          ∙ update_ne old 0 48 j (λ e. omega (arith, e)),
    )

-- `uint64_to_hex` writes a numeral of 16 hexadecimal digits that reads back as its argument, in 19
-- bytes, and `uint32_to_hex` one of 8 in 11; the bytes behind stay.
pub to_hex-IsHex :
    (val word : ℕ) (out : ℕ → ℕ)
    → val < 2 ^ 64
    → word < 2 ^ 32
    → IsHex 16 val out (uint64_to_hex val out) × IsHex 8 word out (uint32_to_hex word out)
unfolding uint64_to_hex uint32_to_hex
to_hex-IsHex val word out lt lt32 =
    (numeral-IsHex 16 60 val out refl (omega arith), numeral-IsHex 8 28 word out refl (omega arith))
