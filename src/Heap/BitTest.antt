-- ===== src/Heap/BitTest.antt =====
-- Single bits of the bitmap of memory/kheap.c.
use native.Mathlib.Nat.{pow-suc}
use valiant_core.Base.{
  ℕ, zero, suc, ◌+◌, ◌/◌, ◌%◌, ◌^◌, ◌≡◌, refl, ap, ◌∙◌, arith, Bool, true, false, ◌||◌, ◌&&◌, ltb,
  leb, ◌==◌, bit_or, update, update_self, update_ne, ℕ_discrete, for_range,
}
use valiant_core.Base.Bits.{bit_or_step}
use valiant_core.Heap.{set_bitmap, mark}

-- The bit `j` of a number.
unfoldable pub test_bit : ℕ → ℕ → Bool
test_bit a zero = a % 2 == 1
test_bit a (suc j) = test_bit (a / 2) j

pub test_bit-bit_or : (a b j : ℕ) → test_bit (bit_or a b) j ≡ (test_bit a j || test_bit b j)
unfolding test_bit
test_bit-bit_or a b zero = ground (arith, bit_or_step a b)
test_bit-bit_or a b (suc j) =
    let half : bit_or a b / 2 ≡ bit_or (a / 2) (b / 2) = omega (arith, bit_or_step a b) in
    rw half (test_bit-bit_or (a / 2) (b / 2) j)

test_bit_zero : (j : ℕ) → test_bit 0 j ≡ false
unfolding test_bit
test_bit_zero zero = refl
test_bit_zero (suc j) = test_bit_zero j

pub test_bit-pow : (k j : ℕ) → test_bit (2 ^ k) j ≡ (j == k)
unfolding test_bit
test_bit-pow zero zero = refl
test_bit-pow zero (suc j) = test_bit_zero j ∙ ground arith
test_bit-pow (suc k) zero = ground (arith, pow-suc 2 k)
test_bit-pow (suc k) (suc j) =
    let half : 2 ^ suc k / 2 ≡ 2 ^ k = omega (arith, pow-suc 2 k) in
    rw half (test_bit-pow k j ∙ ground arith)

or_comm : (a b : Bool) → (a || b) ≡ (b || a)
or_comm false false = refl
or_comm false true = refl
or_comm true false = refl
or_comm true true = refl

-- The bit of a block, as `set_bitmap` and `clear_bitmap` count them.
abbrev pub bitmap_bit : (ℕ → ℕ) → ℕ → Bool
bitmap_bit h bit = test_bit (h (bit / 8)) (bit % 8)

pub set_bitmap_bit :
    (h : ℕ → ℕ) (b c : ℕ) → bitmap_bit (set_bitmap h b) c ≡ (c == b || bitmap_bit h c)
unfolding set_bitmap
set_bitmap_bit h b c = elim (ℕ_discrete (c / 8) (b / 8)) [
  | yes same ↦
      let v = bit_or (h (b / 8)) (2 ^ (b % 8)) in
      let digit : (c % 8 == b % 8) ≡ (c == b) = ground arith in
      let here : update h (b / 8) v (c / 8) ≡ v = rw same (update_self h (b / 8) v) in
      let old : h (c / 8) ≡ h (b / 8) = ap h same in
      rw
        (
          here,
          old,
          test_bit-bit_or (h (b / 8)) (2 ^ (b % 8)) (c % 8),
          test_bit-pow (b % 8) (c % 8),
          digit,
        )
        (or_comm (test_bit (h (b / 8)) (c % 8)) (c == b))
  | no apart ↦
      let v = bit_or (h (b / 8)) (2 ^ (b % 8)) in
      let other : (c == b) ≡ false = ground (arith, ap (λ t. t / 8)) in
      rw (update_ne h (b / 8) v (c / 8) apart, other) refl
]

abbrev pub in_run : ℕ → ℕ → ℕ → Bool
in_run i n c = leb i c && ltb c (i + n)

pub mark_bit :
    (n i : ℕ) (h : ℕ → ℕ) (c : ℕ) → bitmap_bit (mark h i n) c ≡ (in_run i n c || bitmap_bit h c)
unfolding mark for_range
mark_bit zero i h c = ground arith
mark_bit (suc n) i h c =
    mark_bit n (suc i) (set_bitmap h i) c
    ∙ ap (λ t. in_run (suc i) n c || t) (set_bitmap_bit h i c)
    ∙ ground arith
