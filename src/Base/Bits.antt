-- ===== src/Base/Bits.antt =====
-- `&` and `|` of C as arithmetic, for every width: the native operations recur on binary digits.
use Prim.Native.Nat.{
  ℕ, zero, suc, ◌+◌, ◌-◌, ◌*◌, ◌/◌, ◌%◌, ◌^◌, ◌≤◌, ◌<◌, min, max, bit_and, bit_or, digits,
  bit_and-bitwise, bit_or-bitwise,
}
use mathlib.Core.Path.{◌≡◌, refl, sym, ap, ◌∙◌}
use native.Mathlib.Nat.{pow-suc, one-le-pow, div-add-mod', mod-lt}
use native.Mathlib.Omega.{arith}

-- A digitwise operation: `z` is its result with no digit on the left, `f` its table.
module _ (z : ℕ → ℕ) (f op : ℕ → ℕ → ℕ) (op-digits : (a b : ℕ) → op a b ≡ digits z f a a b)
    (z_step : (b : ℕ) → z b ≡ z (b / 2) * 2 + f 0 (b % 2)) where
  none_left : (n b : ℕ) → digits z f n 0 b ≡ z b
  none_left zero b = refl
  none_left (suc n) b = refl

  -- Rounds beyond the digits of the first number change nothing.
  rounds : (n m a b : ℕ) → a ≤ n → a ≤ m → digits z f n a b ≡ digits z f m a b
  rounds n m zero b p q = none_left n b ∙ sym (none_left m b)
  rounds zero m (suc a) b p q = absurd (omega arith)
  rounds (suc n) zero (suc a) b p q = absurd (omega arith)
  rounds (suc n) (suc m) (suc a) b p q =
      let half = rounds n m (suc a / 2) (b / 2) (omega arith) (omega arith) in
      ap (λ t. t * 2 + f (suc a % 2) (b % 2)) half

  op_step : (a b : ℕ) → op a b ≡ op (a / 2) (b / 2) * 2 + f (a % 2) (b % 2)
  op_step zero b = omega (arith, z_step b, op-digits 0 b, op-digits 0 (b / 2))
  op_step (suc a) b =
      let a' = suc a / 2 in
      let shorter = rounds a a' a' (b / 2) (omega arith) (omega arith) in
      op-digits (suc a) b
      ∙ ap (λ t. t * 2 + f (suc a % 2) (b % 2)) (shorter ∙ sym (op-digits a' (b / 2)))

-- The lowest digit, and the rest.
pub bit_and_step : (x y : ℕ) → bit_and x y ≡ bit_and (x / 2) (y / 2) * 2 + min (x % 2) (y % 2)
bit_and_step = op_step (λ y. zero) min bit_and bit_and-bitwise (λ y. omega arith)

pub bit_or_step : (x y : ℕ) → bit_or x y ≡ bit_or (x / 2) (y / 2) * 2 + max (x % 2) (y % 2)
bit_or_step = op_step (λ y. y) max bit_or bit_or-bitwise (λ y. omega arith)

-- Two functions with one recurrence on the lowest digit are equal.
digitwise_ext :
    (g h d : ℕ → ℕ)
    → g 0 ≡ h 0
    → ((x : ℕ) → g x ≡ g (x / 2) * 2 + d (x % 2))
    → ((x : ℕ) → h x ≡ h (x / 2) * 2 + d (x % 2))
    → (n x : ℕ) → x ≤ n
    → g x ≡ h x
digitwise_ext g h d start gs hs n zero le = start
digitwise_ext g h d start gs hs zero (suc x) le = absurd (omega arith)
digitwise_ext g h d start gs hs (suc n) (suc x) le =
    let half = digitwise_ext g h d start gs hs n (suc x / 2) (omega arith) in
    gs (suc x) ∙ ap (λ t. t * 2 + d (suc x % 2)) half ∙ sym (hs (suc x))

pub bit_and-zero : (x : ℕ) → bit_and x 0 ≡ 0
bit_and-zero x =
    digitwise_ext (λ t. bit_and t 0) (λ t. 0) (λ t. min t 0) refl (λ t. bit_and_step t 0)
      (λ t. omega arith) x x (omega arith)

pub bit_or-zero : (x : ℕ) → bit_or x 0 ≡ x
bit_or-zero x =
    digitwise_ext (λ t. bit_or t 0) (λ t. t) (λ t. max t 0) refl (λ t. bit_or_step t 0)
      (λ t. omega arith) x x (omega arith)

pub zero-bit_or : (y : ℕ) → bit_or 0 y ≡ y
zero-bit_or y = bit_or-bitwise 0 y

mul_pow_suc : (q k : ℕ) → q * 2 ^ suc k ≡ 2 * (q * 2 ^ k)
mul_pow_suc q k = omega (arith, ap (λ (t : ℕ). q * t) (pow-suc 2 k))

-- Fields side by side: `|` of the two is taken field by field.
pub bit_or_fields :
    (k p q r s : ℕ)
    → r < 2 ^ k
    → s < 2 ^ k
    → bit_or (p * 2 ^ k + r) (q * 2 ^ k + s) ≡ bit_or p q * 2 ^ k + bit_or r s
bit_or_fields zero p q r s hr hs = ground (arith, bit_or-zero 0)
bit_or_fields (suc k) p q r s hr hs = ground (
  arith,
  pow-suc 2 k,
  mul_pow_suc p k,
  mul_pow_suc q k,
  mul_pow_suc (bit_or p q) k,
  bit_or_step (p * 2 ^ suc k + r) (q * 2 ^ suc k + s),
  bit_or_step r s,
  bit_or_fields k p q (r / 2) (s / 2) (omega (arith, pow-suc 2 k)) (omega (arith, pow-suc 2 k)),
)

pub bit_and_fields :
    (k p q r s : ℕ)
    → r < 2 ^ k
    → s < 2 ^ k
    → bit_and (p * 2 ^ k + r) (q * 2 ^ k + s) ≡ bit_and p q * 2 ^ k + bit_and r s
bit_and_fields zero p q r s hr hs = ground (arith, bit_and-zero 0)
bit_and_fields (suc k) p q r s hr hs = ground (
  arith,
  pow-suc 2 k,
  mul_pow_suc p k,
  mul_pow_suc q k,
  mul_pow_suc (bit_and p q) k,
  bit_and_step (p * 2 ^ suc k + r) (q * 2 ^ suc k + s),
  bit_and_step r s,
  bit_and_fields k p q (r / 2) (s / 2) (omega (arith, pow-suc 2 k)) (omega (arith, pow-suc 2 k)),
)

-- `p << k | s` for a field `s` that fits.
pub bit_or_add : (k p s : ℕ) → s < 2 ^ k → bit_or (p * 2 ^ k) s ≡ p * 2 ^ k + s
bit_or_add k p s hs =
    ground (arith, one-le-pow k 2, bit_or_fields k p 0 0 s, bit_or-zero p, zero-bit_or s)

bit_and_ones : (k r : ℕ) → r < 2 ^ k → bit_and r (2 ^ k - 1) ≡ r
bit_and_ones zero r h = omega (arith, bit_and-zero r)
bit_and_ones (suc k) r h = ground (
  arith,
  one-le-pow k 2,
  pow-suc 2 k,
  bit_and_step r (2 ^ suc k - 1),
  bit_and_ones k (r / 2) (omega (arith, pow-suc 2 k)),
)

-- A mask of `k` low ones.
pub bit_and_low : (k a : ℕ) → bit_and a (2 ^ k - 1) ≡ a % 2 ^ k
bit_and_low k a = ground (
  arith,
  one-le-pow k 2,
  div-add-mod' a (2 ^ k),
  bit_and_fields k (a / 2 ^ k) 0 (a % 2 ^ k) (2 ^ k - 1) (mod-lt a (omega (arith, one-le-pow k 2))),
  bit_and_ones k (a % 2 ^ k) (mod-lt a (omega (arith, one-le-pow k 2))),
  bit_and-zero (a / 2 ^ k),
)

-- A mask that leaves the `k` lowest digits out.
pub bit_and_high : (k a m : ℕ) → bit_and a (m * 2 ^ k) ≡ bit_and (a / 2 ^ k) m * 2 ^ k
bit_and_high k a m = ground (
  arith,
  one-le-pow k 2,
  div-add-mod' a (2 ^ k),
  bit_and_fields k (a / 2 ^ k) m (a % 2 ^ k) 0 (mod-lt a (omega (arith, one-le-pow k 2))),
  bit_and-zero (a % 2 ^ k),
)

-- The single bit `k`.
pub bit_and_bit : (k a : ℕ) → bit_and a (2 ^ k) ≡ a / 2 ^ k % 2 * 2 ^ k
bit_and_bit k a = ground (arith, bit_and_high k a 1, bit_and_low 1 (a / 2 ^ k))

-- `b | q << k` for a field `b` that fits.
pub or_above : (k b q : ℕ) → b < 2 ^ k → bit_or b (q * 2 ^ k) ≡ b + q * 2 ^ k
or_above k b q lt =
    ground (arith, one-le-pow k 2, bit_or_fields k 0 q b 0 lt, bit_or-zero b, zero-bit_or q)
