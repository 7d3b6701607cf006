-- ===== src/Stdio.antt =====
-- bin/stdio.h: the C library of user programs. `sys_write(1, ..)` adds its bytes to the output,
-- `sys_read(0, ..)` takes bytes from the input and leaves the buffer as it is at its end. A C string
-- is its bytes without the final 0, a buffer that the code fills is a function of the index. A `long`
-- has `bits` bits, 32 or 64 by the machine.
pub mod Swap
pub mod Digits
pub mod Itoa
pub mod Printf
pub mod Fgets
mod Tests
use valiant_core.Base.{
  ℤ, pos, negsuc, ℕ, zero, suc, ◌+◌, ◌-◌, ◌/◌, ◌%◌, ◌^◌, ◌>>=◌, leb, Bool, true, false, ◌&&◌, ◌||◌,
  Option, none, some, List, [], ◌∷◌, ◌++◌, ltb, ◌==◌, if◌then◌else◌, u8, u32, update, length,
}

-- `(rem > 9) ? (rem - 10) + 'a' : rem + '0'`, with the remainder of a negative number below 0.
unfoldable pub digit_char : Bool → ℕ → ℕ
digit_char true rem = u8 (b'0' + 256 - rem)
digit_char false rem = if ltb 9 rem then rem - 10 + b'a' else rem + b'0'

-- `while (num != 0)`: the sign and the amount of `num`, and 64 rounds at most for its 64 bits. The
-- results are the buffer and `i`.
unfoldable pub digit_loop : ℕ → Bool → ℕ → (ℕ → ℕ) → ℕ → ℕ → (ℕ → ℕ) × ℕ
digit_loop zero neg base str i num = (str, i)
digit_loop (suc fuel) neg base str i num = elim (num == 0) [
  | true ↦ (str, i)
  | false ↦
      digit_loop fuel neg base (update str i (digit_char neg (num % base))) (suc i) (num / base)
]

-- `while (start < end)`: each round brings the two closer.
unfoldable pub swap_loop : ℕ → (ℕ → ℕ) → ℕ → ℕ → ℕ → ℕ
swap_loop zero str start end = str
swap_loop (suc fuel) str start end = elim (ltb start end) [
  | true ↦
      swap_loop fuel (update (update str start (str end)) end (str start)) (suc start) (end - 1)
  | false ↦ str
]

-- From `if (is_negative)` on; `i` is not 0 there.
unfoldable pub finish : Bool → (ℕ → ℕ) × ℕ → ℕ → ℕ
finish is_negative (str, i) =
    let signed = if is_negative then update str i b'-' else str in
    let n = if is_negative then suc i else i in swap_loop n (update signed n 0) 0 (n - 1)

-- `num` is in the range of a `long`. `none` is undefined behaviour: `-num` overflows for the least one.
unfoldable pub valiant_itoa : ℕ → ℤ → (ℕ → ℕ) → ℕ → Option (ℕ → ℕ)
valiant_itoa bits (pos num) str base =
    if num == 0
    then some (update (update str 0 b'0') 1 0)
    else some (finish false (digit_loop 64 false base str 0 num))
valiant_itoa bits (negsuc n) str base =
    if base == 10
    then (if leb (2 ^ (bits - 1)) (suc n)
        then none
        else some (finish true (digit_loop 64 false base str 0 (suc n))))
    else some (finish false (digit_loop 64 true base str 0 (suc n)))

-- The bytes of a buffer from `i` on up to the first 0, `n` at most.
unfoldable pub string_at : ℕ → (ℕ → ℕ) → ℕ → List ℕ
string_at zero str i = []
string_at (suc n) str i =
    let rest = string_at n str (suc i) in if str i == 0 then [] else str i ∷ rest

-- An argument of `printf`: an `int` as 32 bits, or a pointer to a string, which may be null.
pub data Arg : Type 0 where
  word : ℕ → Arg
  text : Option (List ℕ) → Arg

-- An `int` of 32 bits.
unfoldable pub to_int : ℕ → ℤ
to_int w = if ltb w 2147483648 then pos w else negsuc (4294967295 - w)

-- An `unsigned long` as a `long`.
unfoldable pub to_long : ℕ → ℕ → ℤ
to_long bits w = if ltb w (2 ^ (bits - 1)) then pos w else negsuc (2 ^ bits - 1 - w)

unfoldable pub or_null : Option (List ℕ) → List ℕ
or_null none = b'(' ∷ b'n' ∷ b'u' ∷ b'l' ∷ b'l' ∷ b')' ∷ []
or_null (some s) = s

-- `num_buf` after `valiant_itoa`, as the string that is printed. Its 32 bytes are a local array.
unfoldable pub number : ℕ → ℤ → (ℕ → ℕ) → ℕ → Option (List ℕ)
number bits num num_buf base = do
  str ← valiant_itoa bits num num_buf base
  some (string_at 32 str 0)

-- What the conversion after a `%` prints, and the arguments that it leaves. `none` is undefined
-- behaviour: the argument is missing or of another type, or a number overflows.
unfoldable pub convert : ℕ → (ℕ → ℕ) → ℕ → List Arg → Option (List ℕ × List Arg)
convert bits num_buf c args =
    if c == b'c'
    then char_arg args
    else if c == b's'
    then text_arg args
    else if c == b'd'
    then int_arg args
    else if c == b'x'
    then hex_arg args
    else some ([], args)
  where
    char_arg : List Arg → Option (List ℕ × List Arg)
    char_arg (word w ∷ args) = some (u8 w ∷ [], args)
    char_arg _ = none

    text_arg : List Arg → Option (List ℕ × List Arg)
    text_arg (text t ∷ args) = some (or_null t, args)
    text_arg _ = none

    int_arg : List Arg → Option (List ℕ × List Arg)
    int_arg (word w ∷ args) = do shown ← number bits (to_int w) num_buf 10; some (shown, args)
    int_arg _ = none

    hex_arg : List Arg → Option (List ℕ × List Arg)
    hex_arg (word w ∷ args) = do shown ← number bits (to_long bits w) num_buf 16; some (shown, args)
    hex_arg _ = none

-- The output and `count`.
abbrev pub Printed : Type 0
Printed = Option (List ℕ × ℕ)

unfoldable pub put : List ℕ → Printed → Printed
put bytes none = none
put bytes (some (out, count)) = some (bytes ++ out, length bytes + count)

unfoldable pub printf : ℕ → (ℕ → ℕ) → List ℕ → List Arg → Printed
printf bits num_buf [] args = some ([], 0)
printf bits num_buf (c ∷ []) args = some (c ∷ [], 1)
printf bits num_buf (c ∷ d ∷ format) args = elim (c == b'%') [
  | false ↦ put (c ∷ []) (printf bits num_buf (d ∷ format) args)
  | true ↦ elim (convert bits num_buf d args) [
    | none ↦ none
    | some (bytes, rest) ↦ put bytes (printf bits num_buf format rest)
  ]
]

-- The character and the input that is left; `c` is 0 at the end of the input.
unfoldable pub getchar : List ℕ → ℕ × List ℕ
getchar [] = (0, [])
getchar (c ∷ input) = (c, input)

-- What is printed; `none` is the result -1.
unfoldable pub puts : Option (List ℕ) → Option (List ℕ)
puts none = none
puts (some str) = some (str ++ b'\n' ∷ [])

-- The bytes that the loop of `fgets` stores, which it also prints, and the input that is left.
unfoldable pub fgets_loop : ℕ → List ℕ → List ℕ × List ℕ
fgets_loop zero input = ([], input)
fgets_loop (suc n) input =
    let (c, left) = getchar input in
    let (stored, last) = fgets_loop n left in
    if c == 0 || c == 13 || c == 10
    then ((if c == 10 then 10 ∷ [] else []), left)
    else (c ∷ stored, last)

-- `none` is NULL; `num` is 0 for what is not positive.
unfoldable pub fgets : ℕ → List ℕ → Option (List ℕ) × List ℕ
fgets zero input = (none, input)
fgets (suc n) input = let (stored, left) = fgets_loop n input in (some stored, left)
