-- ===== src/Stdio/Itoa.antt =====
-- `valiant_itoa` of bin/stdio.h writes a number that reads back as its argument.
use native.Mathlib.Nat.{pow-zero, pow-suc, div-lt_iff_lt-mul, mul_comm}
use valiant_core.Base.{
  ℤ, pos, negsuc, ℕ, zero, suc, ◌+◌, ◌-◌, ◌*◌, ◌/◌, ◌%◌, ◌^◌, ◌≤◌, ◌<◌, ◌≡◌, refl, sym, ap, ◌∙◌,
  arith, true, false, Bool-cases, inl, inr, ltb, leb, some, ◌==◌, if◌then◌else◌, update, ℕ_discrete,
}
use valiant_core.Stdio.{digit_char, digit_loop, finish, valiant_itoa}
use valiant_core.Stdio.Swap.{swap_loop-mirror}
use valiant_core.Stdio.Digits.{Digits, digit, backward, forward, digit_loop-Digits}

forward-backward :
    (base : ℕ) (g f : ℕ → ℕ) (n : ℕ)
    → ((k : ℕ) → k < n → g k ≡ f (n - 1 - k))
    → forward base g n ≡ backward base f n
forward-backward base g f zero h = refl
forward-backward base g f (suc n) h =
    let rest =
      forward-backward base g (λ k. f (suc k)) n
        (λ k lt.
          let same : suc n - 1 - k ≡ suc (n - 1 - k) = omega arith in
          h k (omega arith) ∙ ap f same) in
    let last : g n ≡ f 0 =
      let same : suc n - 1 - n ≡ 0 = omega arith in h n (omega arith) ∙ ap f same in
    omega (arith, ap (λ t. t * base) rest, last, mul_comm (backward base (λ k. f (suc k)) n) base)

digit_loop_none :
    (fuel base : ℕ) (str : ℕ → ℕ) (i num : ℕ)
    → num ≡ 0
    → digit_loop fuel false base str i num ≡ (str, i)
unfolding digit_loop
digit_loop_none zero base str i num e = refl
digit_loop_none (suc fuel) base str i num e =
    let done : num == 0 ≡ true = ground arith in rw (done, digit_loop) refl

-- Rounds beyond the digits of the number change nothing.
digit_loop_rounds :
    (m e base : ℕ) (str : ℕ → ℕ) (i num : ℕ)
    → 1 < base
    → num < base ^ m
    → digit_loop (m + e) false base str i num ≡ digit_loop m false base str i num
unfolding digit_loop
digit_loop_rounds zero e base str i num lo lt =
    digit_loop_none (0 + e) base str i num (omega (arith, lt, pow-zero base))
digit_loop_rounds (suc m) e base str i num lo lt =
    let more : suc m + e ≡ suc (m + e) = omega arith in
    elim (Bool-cases (num == 0)) [
      | inl done ↦
          digit_loop_none (suc m + e) base str i num (ground arith)
          ∙ sym (digit_loop_none (suc m) base str i num (ground arith))
      | inr left ↦
          rw (more, left, digit_loop)
            (digit_loop_rounds m e base (update str i (digit_char false (num % base))) (suc i)
              (num / base) lo
              ((div-lt_iff_lt-mul (omega arith)).1 (omega (arith, lt, pow-suc base m))))
    ]

-- The buffer `out` holds the digits of `num` from `off` on, with a 0 behind them; `m + 2` bytes of
-- `str` at most have changed.
pub record Numeral (base m : ℕ) (str out : ℕ → ℕ) (off num : ℕ) : Type 0 where
  pub count : ℕ
  pub some_digit : 0 < count
  pub few : count ≤ suc m
  pub value : forward base (λ k. digit (out (off + k))) count ≡ num
  pub chars : (k : ℕ) → k < count → b'0' ≤ out (off + k)
  pub ends : out (off + count) ≡ 0
  pub inside : (j : ℕ) → m + 2 ≤ j → out j ≡ str j

finish_plain :
    (str : ℕ → ℕ) (i j : ℕ)
    → 0 < i
    → finish false (str, i) j ≡ (if ltb j i then str (i - 1 - j) else if j == i then 0 else str j)
unfolding finish
finish_plain str i j more =
    swap_loop-mirror i (update str i 0) 0 (i - 1) j (omega arith) ∙ ground arith

finish_signed :
    (str : ℕ → ℕ) (i j : ℕ)
    → finish true (str, i) j ≡ (
        if j == 0
        then b'-'
        else if ltb j (suc i)
        then str (i - j)
        else if j == suc i
        then 0
        else str j)
unfolding finish
finish_signed str i j =
    swap_loop-mirror (suc i) (update (update str i b'-') (suc i) 0) 0 (suc i - 1) j (omega arith)
    ∙ ground arith

-- The tail of the routine, on the digits of a number other than 0.
module _ (base m : ℕ) (str : ℕ → ℕ) (num : ℕ) (s : ℕ → ℕ) (i : ℕ) (more : 0 < num)
    (d : Digits base str 0 num m (s, i)) where
  some_count : 0 < d.count
  some_count = elim (ℕ_discrete d.count 0) [
    | yes none_left ↦
        absurd (omega (arith, d.value, ap (backward base (λ k. digit (s (0 + k)))) none_left))
    | no ne ↦ omega arith
  ]

  -- The digits stand at `off`, the first one first.
  reversed-Numeral :
      (out : ℕ → ℕ) (off : ℕ)
      → off ≤ 1
      → ((k : ℕ) → k < d.count → out (off + k) ≡ s (0 + (d.count - 1 - k)))
      → out (off + d.count) ≡ 0
      → ((j : ℕ) → off + d.count < j → out j ≡ s j)
      → Numeral base m str out off num
  reversed-Numeral out off small turned ends rest = record {
    count = d.count;
    some_digit = some_count;
    few = omega (arith, d.few);
    value =
        forward-backward base (λ k. digit (out (off + k))) (λ k. digit (s (0 + k))) d.count
          (λ k lt. ap digit (turned k lt))
        ∙ d.value;
    chars = λ k lt. omega (arith, turned k lt, d.chars (d.count - 1 - k) (omega arith));
    ends = ends;
    inside = λ j le. rest j (omega (arith, d.few)) ∙ d.above j (omega arith);
  }

  finish-Numeral : Numeral base m str (finish false (s, i)) 0 num
  finish-Numeral =
      let out = finish false (s, i) in
      let c = d.last in
      let n = some_count in
      reversed-Numeral out 0 (omega arith)
        (λ k lt.
          let from : i - 1 - (0 + k) ≡ 0 + (d.count - 1 - k) = omega arith in
          ground (arith, c, finish_plain s i (0 + k), ap s from))
        (ground (arith, c, finish_plain s i (0 + d.count)))
        (λ j lt. ground (arith, c, finish_plain s i j))

  finish_signed-Numeral :
      (finish true (s, i) 0 ≡ b'-') × Numeral base m str (finish true (s, i)) 1 num
  finish_signed-Numeral =
      let out = finish true (s, i) in
      let c = d.last in
      (
        finish_signed s i 0,
        reversed-Numeral out 1 (omega arith)
            (λ k lt.
              let from : i - (1 + k) ≡ 0 + (d.count - 1 - k) = omega arith in
              ground (arith, c, finish_signed s i (1 + k), ap s from))
            (ground (arith, c, finish_signed s i (1 + d.count)))
            (λ j lt. ground (arith, c, finish_signed s i j)),
      )

abbrev pub amount : ℤ → ℕ
amount (pos num) = num
amount (negsuc n) = suc n

-- What stands in the buffer afterwards.
abbrev pub Writes : ℕ → ℕ → (ℕ → ℕ) → (ℕ → ℕ) → ℤ → Type 0
Writes base m str out (pos num) = Numeral base m str out 0 num
Writes base m str out (negsuc n) = (out 0 ≡ b'-') × Numeral base m str out 1 (suc n)

-- The number is positive, or the base is ten, which alone has a sign.
abbrev pub HasSign : ℕ → ℤ → Type 0
HasSign base (pos num) = Unit
HasSign base (negsuc n) = base ≡ 10

base_ten_fits :
    (base m : ℕ) (str : ℕ → ℕ) (num : ℕ)
    → 1 < base
    → base ≤ 36
    → m ≤ 64
    → num < base ^ m
    → Digits base str 0 num m (digit_loop 64 false base str 0 num)
base_ten_fits base m str num lo hi le lt =
    let rounds : 64 ≡ m + (64 - m) = omega arith in
    rw (rounds, digit_loop_rounds m (64 - m) base str 0 num lo lt)
      (digit_loop-Digits m base str 0 num lo hi lt)

zero-Numeral : (base m : ℕ) (str : ℕ → ℕ) → Numeral base m str (update (update str 0 b'0') 1 0) 0 0
zero-Numeral base m str = record {
  count = 1;
  some_digit = omega arith;
  few = omega arith;
  value = omega arith;
  chars = λ k lt. ground arith;
  ends = refl;
  inside = λ j le. ground arith;
}

-- For a base from 2 to 36 and a number of at most `m` digits, `m` up to 64, a negative one in base
-- ten only, and all above the least `long`, the digits that `valiant_itoa` writes read back as the number, behind a minus sign if it
-- is negative; a 0 byte ends them, and no byte from `m + 2` on has changed.
pub valiant_itoa-Writes :
    (bits base m : ℕ) (str : ℕ → ℕ) (num : ℤ)
    → 1 < base
    → base ≤ 36
    → m ≤ 64
    → amount num < base ^ m
    → HasSign base num
    → amount num < 2 ^ (bits - 1)
    → (out : ℕ → ℕ) × (valiant_itoa bits num str base ≡ some out) × Writes base m str out num
unfolding valiant_itoa
valiant_itoa-Writes bits base m str (pos num) lo hi le lt sign in_long =
    elim (Bool-cases (num == 0)) [
      | inl none_left ↦ let e : num ≡ 0 = ground arith in rw e (_, refl, zero-Numeral base m str)
      | inr more ↦
          let r = digit_loop 64 false base str 0 num in
          rw more (
            _,
            refl,
            finish-Numeral base m str num r.0 r.1 (ground arith)
                (base_ten_fits base m str num lo hi le lt),
          )
    ]
valiant_itoa-Writes bits base m str (negsuc n) lo hi le lt sign in_long =
    let ten : base == 10 ≡ true = ground arith in
    let fits : leb (2 ^ (bits - 1)) (suc n) ≡ false = ground arith in
    let r = digit_loop 64 false base str 0 (suc n) in
    rw (ten, fits)
      (
        _,
        refl,
        finish_signed-Numeral base m str (suc n) r.0 r.1 (omega arith)
            (base_ten_fits base m str (suc n) lo hi le lt),
      )
