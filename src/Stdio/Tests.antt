-- ===== src/Stdio/Tests.antt =====
-- Runs of the user library, and its theorems at concrete input.
use valiant_core.Base.{ℕ, ◌≡◌, refl, arith, none, some, List, [], ◌∷◌}
use valiant_core.Stdio.{
  negsuc, valiant_itoa, digit_loop, digit_char, swap_loop, finish, string_at, word, printf, put,
  convert, number, to_long,
}
use valiant_core.Stdio.Itoa.{Writes, valiant_itoa-Writes}

abbrev blank : ℕ → ℕ
blank i = 170

-- -120
itoa_minus_120 : number 32 (negsuc 119) blank 10 ≡ some (b'-' ∷ b'1' ∷ b'2' ∷ b'0' ∷ [])
unfolding number string_at valiant_itoa finish digit_loop digit_char swap_loop
itoa_minus_120 = refl

-- A number of 32 bits fits the 32 bytes of `num_buf` in base 10.
valiant_itoa-Writes_example :
    (out : ℕ → ℕ) × (valiant_itoa 32 (negsuc 2147483646) blank 10 ≡ some out)
    × Writes 10 10 blank out (negsuc 2147483646)
valiant_itoa-Writes_example =
    valiant_itoa-Writes 32 10 10 blank (negsuc 2147483646) (omega arith) (omega arith) (omega arith)
      (omega arith) refl (omega arith)

abbrev shown : List ℕ
shown = b'x' ∷ b'=' ∷ b'f' ∷ b'f' ∷ []

-- Where a `long` has 32 bits, the least one overflows.
itoa_least : number 32 (negsuc 2147483647) blank 10 ≡ none
unfolding number valiant_itoa
itoa_least = refl

printf_hex : printf 32 blank (b'x' ∷ b'=' ∷ b'%' ∷ b'x' ∷ []) (word 255 ∷ []) ≡ some (shown, 4)
unfolding printf put convert number to_long string_at valiant_itoa finish digit_loop digit_char
    swap_loop
printf_hex = refl
