-- ===== src/Gic/Lines.antt =====
-- The interrupt lines of arch/aarch64/gic64.c.
use valiant_core.Base.{
  ℕ, ◌+◌, ◌*◌, ◌/◌, ◌%◌, ◌^◌, ◌<◌, ◌≡◌, refl, inl, inr, arith, Bool, true, false, Bool-cases, not,
  ◌&&◌, ◌||◌, bit_and, leb, [], ◌∷◌, ◌==◌, u32, subst, holds_below, holds_below_lem, same_bool,
  same_bool_lem,
}
use valiant_core.Mmio.{History, Access, store32}
use valiant_core.Gic.{gic_dist_base, max_irqs, gic_enable_irq}

-- The line `i` is enabled by an access: its bit is written to its register.
unfoldable pub enables : ℕ → Access → Bool
enables i (store32 addr v) =
    addr == gic_dist_base + 0x100 + i / 32 * 4 && not (bit_and v (2 ^ (i % 32)) == 0)
enables i _ = false

-- The line `i` has been enabled.
unfoldable pub is_enabled : ℕ → History → Bool
is_enabled i [] = false
is_enabled i (a ∷ h) = enables i a || is_enabled i h

bits_at : ℕ → Bool
bits_at n = same_bool (not (bit_and (u32 (2 ^ (n / 32))) (2 ^ (n % 32)) == 0)) (n % 32 == n / 32)

bits_table : holds_below bits_at 1024 ≡ true
unfolding holds_below bits_at same_bool
bits_table = refl

bits_lem : (a b : ℕ) → a < 32 → b < 32 → not (bit_and (u32 (2 ^ a)) (2 ^ b) == 0) ≡ (b == a)
unfolding bits_at
bits_lem a b ha hb =
    let n = a * 32 + b in
    let q : n / 32 ≡ a = omega arith in
    let r : n % 32 ≡ b = omega arith in
    let entry = holds_below_lem bits_at 1024 n bits_table (omega arith) in
    same_bool_lem _ _ (
      subst (λ t. same_bool (not (bit_and (u32 (2 ^ t)) (2 ^ b) == 0)) (b == t) ≡ true) q
        (subst
          (λ t. same_bool (not (bit_and (u32 (2 ^ (n / 32))) (2 ^ t) == 0)) (t == n / 32) ≡ true) r
          entry))

-- Enabling an interrupt enables its line and no other one, and one that the controller does not have
-- enables none.
pub gic_enable_irq-is_enabled :
    (irq i : ℕ) (h : History)
    → irq < 2 ^ 32
    → i < max_irqs
    → is_enabled i (gic_enable_irq irq h) ≡ (is_enabled i h || i == irq)
unfolding gic_enable_irq is_enabled enables
gic_enable_irq-is_enabled irq i h small lt =
    let bit = bits_lem (irq % 32) (i % 32) (omega arith) (omega arith) in
    elim (Bool-cases (leb max_irqs irq)) [
      | inl beyond ↦ rw (beyond, gic_enable_irq) (ground arith)
      | inr within ↦ rw (within, gic_enable_irq, bit) (ground arith)
    ]
