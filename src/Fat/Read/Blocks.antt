-- ===== src/Fat/Read/Blocks.antt =====
-- Positions in blocks of a size that is a variable.
use native.Mathlib.Nat.{
  div-add-mod', mod-eq_of_lt, div-eq_of_lt, mul-add-div_right, mul-add-mod_self_right,
}
use valiant_core.Base.{ℕ, suc, ◌+◌, ◌*◌, ◌/◌, ◌%◌, ◌≤◌, ◌<◌, ◌≡◌, sym, ap, ◌∙◌, arith, dec_lt}

-- Quotient and remainder are unique.
pub quotient_lem : (q r m : ℕ) → r < m → ((q * m + r) / m ≡ q) × ((q * m + r) % m ≡ r)
quotient_lem q r m lt =
    let pos : 0 < m = omega arith in
    (
      omega (arith, mul-add-div_right pos q r, div-eq_of_lt lt),
      mul-add-mod_self_right q m r ∙ mod-eq_of_lt lt,
    )

pub same_block : (m p j : ℕ) → p % m + j < m → ((p + j) / m ≡ p / m) × ((p + j) % m ≡ p % m + j)
same_block m p j lt =
    let split : p / m * m + (p % m + j) ≡ p + j = omega (arith, div-add-mod' p m) in
    let u = quotient_lem (p / m) (p % m + j) m lt in
    (ap (λ t. t / m) (sym split) ∙ u.0, ap (λ t. t % m) (sym split) ∙ u.1)

pub next_block :
    (m p j : ℕ) → 0 < m → p % m + j ≡ m → ((p + j) / m ≡ suc (p / m)) × ((p + j) % m ≡ 0)
next_block m p j pos e =
    let split : suc (p / m) * m + 0 ≡ p + j = omega (arith, div-add-mod' p m) in
    let u = quotient_lem (suc (p / m)) 0 m pos in
    (ap (λ t. t / m) (sym split) ∙ u.0, ap (λ t. t % m) (sym split) ∙ u.1)

-- Where the remainder comes back to 0, a block is full.
pub block_full : (m p j : ℕ) → 0 < j → p % m + j ≤ m → (p + j) % m ≡ 0 → p % m + j ≡ m
block_full m p j pos le e = elim (dec_lt (p % m + j) m) [
  | yes lt ↦ absurd (omega (arith, same_block m p j lt))
  | no stop ↦ omega arith
]
