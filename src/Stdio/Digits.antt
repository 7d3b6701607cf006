-- ===== src/Stdio/Digits.antt =====
-- The digit loop of `valiant_itoa` in bin/stdio.h.
use native.Mathlib.Nat.{pow-zero, pow-suc, div-add-mod, mod-lt, div-lt_iff_lt-mul}
use valiant_core.Base.{
  ℕ, zero, suc, ◌+◌, ◌-◌, ◌*◌, ◌/◌, ◌%◌, ◌^◌, ◌≤◌, ◌<◌, ◌≡◌, refl, ap, ◌∙◌, arith, false,
  Bool-cases, inl, inr, leb, ◌==◌, if◌then◌else◌, update, update_self, update_ne,
}
use valiant_core.Stdio.{digit_char, digit_loop}

-- The digit that a character stands for.
abbrev pub digit : ℕ → ℕ
digit c = if leb c b'9' then c - b'0' else c - 87

digit-digit_char : (rem : ℕ) → rem < 36 → digit (digit_char false rem) ≡ rem
unfolding digit_char
digit-digit_char rem lt = ground arith

-- The number that `n` digits stand for, the last one first.
abbrev pub backward : ℕ → (ℕ → ℕ) → ℕ → ℕ
backward base d zero = 0
backward base d (suc n) = d 0 + base * backward base (λ k. d (suc k)) n

-- And the first one first, as a reader takes them.
abbrev pub forward : ℕ → (ℕ → ℕ) → ℕ → ℕ
forward base d zero = 0
forward base d (suc n) = forward base d n * base + d n

-- What the digit loop leaves from `i` on.
pub record Digits (base : ℕ) (str : ℕ → ℕ) (i num fuel : ℕ) (r : (ℕ → ℕ) × ℕ) : Type 0 where
  pub count : ℕ
  pub last : r.1 ≡ i + count
  pub few : count ≤ fuel
  pub value : backward base (λ k. digit (r.0 (i + k))) count ≡ num
  pub chars : (k : ℕ) → k < count → (b'0' ≤ r.0 (i + k))
  pub below : (j : ℕ) → j < i → r.0 j ≡ str j
  pub above : (j : ℕ) → i + fuel ≤ j → r.0 j ≡ str j

mod_small : (n m : ℕ) → 1 < m → n % m < m
mod_small n m h = mod-lt n (omega arith)

digit_char_low : (rem : ℕ) → b'0' ≤ digit_char false rem
unfolding digit_char
digit_char_low rem = ground arith

chars_suc :
    (str : ℕ → ℕ) (i n : ℕ)
    → b'0' ≤ str (i + 0)
    → ((k : ℕ) → k < n → b'0' ≤ str (suc i + k))
    → (k : ℕ) → k < suc n
    → b'0' ≤ str (i + k)
chars_suc str i n first later zero lt = first
chars_suc str i n first later (suc k) lt =
    let same : i + suc k ≡ suc i + k = omega arith in rw same (later k (omega arith))

add_zero : (i : ℕ) → i + 0 ≡ i
add_zero i = omega arith

backward_ext :
    (base : ℕ) (d e : ℕ → ℕ) (n : ℕ) → ((k : ℕ) → d k ≡ e k) → backward base d n ≡ backward base e n
backward_ext base d e zero h = refl
backward_ext base d e (suc n) h =
    rw (h 0, backward_ext base (λ k. d (suc k)) (λ k. e (suc k)) n (λ k. h (suc k))) refl

shift-backward :
    (base : ℕ) (str : ℕ → ℕ) (i n : ℕ)
    → backward base (λ k. digit (str (i + suc k))) n
      ≡ backward base (λ k. digit (str (suc i + k))) n
shift-backward base str i n =
    backward_ext base (λ k. digit (str (i + suc k))) (λ k. digit (str (suc i + k))) n
      (λ k. let same : i + suc k ≡ suc i + k = omega arith in ap (λ j. digit (str j)) same)

pub digit_loop-Digits :
    (fuel base : ℕ) (str : ℕ → ℕ) (i num : ℕ)
    → 1 < base
    → base ≤ 36
    → num < base ^ fuel
    → Digits base str i num fuel (digit_loop fuel false base str i num)
unfolding digit_loop
digit_loop-Digits zero base str i num lo hi lt = record {
  count = 0;
  last = omega arith;
  few = omega arith;
  value = omega (arith, lt, pow-zero base);
  chars = λ k h. absurd (omega arith);
  below = λ j h. refl;
  above = λ j h. refl;
}
digit_loop-Digits (suc fuel) base str i num lo hi lt = elim (Bool-cases (num == 0)) [
  | inl done ↦
      rw (done, digit_loop)
        (record {
          count = 0;
          last = omega arith;
          few = omega arith;
          value = ground arith;
          chars = λ k h. absurd (omega arith);
          below = λ j h. refl;
          above = λ j h. refl;
        })
  | inr more ↦
      let c = digit_char false (num % base) in
      let str' = update str i c in
      let rest =
        digit_loop-Digits fuel base str' (suc i) (num / base) lo hi
          ((div-lt_iff_lt-mul (omega arith)).1 (omega (arith, lt, pow-suc base fuel))) in
      let out = (digit_loop fuel false base str' (suc i) (num / base)).0 in
      let first : out (i + 0) ≡ c =
        omega (arith, rest.below i (omega arith), update_self str i c, ap out (add_zero i)) in
      let rem : digit (out (i + 0)) ≡ num % base =
        ap digit first ∙ digit-digit_char (num % base) (omega (arith, mod_small num base lo)) in
      rw (more, digit_loop)
        (record {
          count = suc rest.count;
          last = omega (arith, rest.last);
          few = omega (arith, rest.few);
          value =
              ap (λ t. t + base * backward base (λ k. digit (out (i + suc k))) rest.count) rem
              ∙ ap (λ t. num % base + base * t)
                  (shift-backward base (digit_loop fuel false base str' (suc i) (num / base)).0 i
                      rest.count
                    ∙ rest.value)
              ∙ omega (arith, div-add-mod num base);
          chars =
              chars_suc out i rest.count (omega (arith, first, digit_char_low (num % base)))
                rest.chars;
          below = λ j h. rest.below j (omega arith) ∙ update_ne str i c j (λ e. omega arith);
          above = λ j h. rest.above j (omega arith) ∙ update_ne str i c j (λ e. omega arith);
        })
]
