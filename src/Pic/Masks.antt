-- ===== src/Pic/Masks.antt =====
-- Which interrupt lines are masked, in arch/x86/i8259.c.
use valiant_core.Base.{
  ℕ, zero, suc, ◌+◌, ◌-◌, ◌*◌, ◌/◌, ◌%◌, ◌^◌, ◌<◌, ◌≡◌, refl, ap, subst, ◌∙◌, arith, Bool, true,
  not, ◌&&◌, ◌||◌, ltb, ◌==◌, if◌then◌else◌, u8, bit_and, bit_or, holds_below, holds_below_lem,
  same_bool, same_bool_lem,
}
use valiant_core.Base.Bits.{bit_and_step}
use valiant_core.Heap.BitTest.{test_bit, test_bit-bit_or, test_bit-pow}
use valiant_core.Pic.{Pic, with_bit, without_bit, pic_set_mask, pic_clear_mask}

test_bit-u8 : (a j : ℕ) → j < 8 → test_bit (u8 a) j ≡ test_bit a j
unfolding test_bit
test_bit-u8 a zero lt = ground arith
test_bit-u8 a (suc zero) lt = ground arith
test_bit-u8 a (suc (suc zero)) lt = ground arith
test_bit-u8 a (suc (suc (suc zero))) lt = ground arith
test_bit-u8 a (suc (suc (suc (suc zero)))) lt = ground arith
test_bit-u8 a (suc (suc (suc (suc (suc zero))))) lt = ground arith
test_bit-u8 a (suc (suc (suc (suc (suc (suc zero)))))) lt = ground arith
test_bit-u8 a (suc (suc (suc (suc (suc (suc (suc zero))))))) lt = ground arith
test_bit-u8 a (suc (suc (suc (suc (suc (suc (suc (suc j)))))))) lt = absurd (omega arith)

test_bit-bit_and : (a b j : ℕ) → test_bit (bit_and a b) j ≡ (test_bit a j && test_bit b j)
unfolding test_bit
test_bit-bit_and a b zero = ground (arith, bit_and_step a b)
test_bit-bit_and a b (suc j) =
    let half : bit_and a b / 2 ≡ bit_and (a / 2) (b / 2) = omega (arith, bit_and_step a b) in
    rw half (test_bit-bit_and (a / 2) (b / 2) j)

hole_at : ℕ → Bool
hole_at n = same_bool (test_bit (4294967295 - 2 ^ (n / 8)) (n % 8)) (not (n % 8 == n / 8))

hole_table : holds_below hole_at 64 ≡ true
unfolding holds_below hole_at same_bool test_bit
hole_table = refl

test_bit_hole : (k j : ℕ) → k < 8 → j < 8 → test_bit (4294967295 - 2 ^ k) j ≡ not (j == k)
unfolding hole_at
test_bit_hole k j hk hj =
    let n = k * 8 + j in
    let q : n / 8 ≡ k = omega arith in
    let r : n % 8 ≡ j = omega arith in
    let entry = holds_below_lem hole_at 64 n hole_table (omega arith) in
    same_bool_lem _ _ (
      subst (λ t. same_bool (test_bit (4294967295 - 2 ^ t) j) (not (j == t)) ≡ true) q
        (subst (λ t. same_bool (test_bit (4294967295 - 2 ^ (n / 8)) t) (not (t == n / 8)) ≡ true) r
          entry))

-- The line `irq` is masked.
abbrev pub masked : Pic → ℕ → Bool
masked m irq = if ltb irq 8 then test_bit m.mask1 irq else test_bit m.mask2 (irq - 8)

with_bit_lem : (v k j : ℕ) → j < 8 → test_bit (with_bit v k) j ≡ (test_bit v j || j == k)
unfolding with_bit
with_bit_lem v k j lt =
    test_bit-u8 (bit_or v (2 ^ k)) j lt
    ∙ test_bit-bit_or v (2 ^ k) j
    ∙ ap (λ t. test_bit v j || t) (test_bit-pow k j)

without_bit_lem :
    (v k j : ℕ) → k < 8 → j < 8 → test_bit (without_bit v k) j ≡ (test_bit v j && not (j == k))
unfolding without_bit
without_bit_lem v k j hk hj =
    test_bit-u8 (bit_and v (4294967295 - 2 ^ k)) j hj
    ∙ test_bit-bit_and v (4294967295 - 2 ^ k) j
    ∙ ap (λ t. test_bit v j && t) (test_bit_hole k j hk hj)

set_lem :
    (m : Pic) (irq line : ℕ)
    → line < 16
    → irq < 16
    → masked (pic_set_mask m irq) line ≡ (masked m line || line == irq)
unfolding pic_set_mask
set_lem m irq line hl hi =
    ground (arith, with_bit_lem m.mask1 irq line, with_bit_lem m.mask2 (irq - 8) (line - 8))

clear_lem :
    (m : Pic) (irq line : ℕ)
    → line < 16
    → irq < 16
    → masked (pic_clear_mask m irq) line ≡ (masked m line && not (line == irq))
unfolding pic_clear_mask
clear_lem m irq line hl hi =
    ground (arith, without_bit_lem m.mask1 irq line, without_bit_lem m.mask2 (irq - 8) (line - 8))

-- For the 16 lines, `pic_set_mask` masks the line given and `pic_clear_mask` unmasks it, and neither
-- changes another line.
pub pic_masks_lem :
    (m : Pic) (irq line : ℕ)
    → irq < 16
    → line < 16
    → (masked (pic_set_mask m irq) line ≡ (masked m line || line == irq))
      × (masked (pic_clear_mask m irq) line ≡ (masked m line && not (line == irq)))
pic_masks_lem m irq line hi hl = (set_lem m irq line hl hi, clear_lem m irq line hl hi)
