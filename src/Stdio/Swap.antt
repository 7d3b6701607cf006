-- ===== src/Stdio/Swap.antt =====
-- The swap loop of `valiant_itoa` in bin/stdio.h reverses its range.
use valiant_core.Base.{
  ℕ, zero, suc, ◌+◌, ◌-◌, ◌≤◌, ◌<◌, ◌≡◌, refl, ap, ◌∙◌, arith, Bool-cases, inl, inr, ltb, leb, ◌&&◌,
  if◌then◌else◌, update,
}
use valiant_core.Stdio.{swap_loop}

-- The range from `start` to `end`, read backwards.
abbrev pub mirror : (ℕ → ℕ) → ℕ → ℕ → ℕ → ℕ
mirror str start end j = if leb start j && leb j end then str (start + end - j) else str j

mirror_step :
    (str : ℕ → ℕ) (start end j : ℕ)
    → start < end
    → mirror (update (update str start (str end)) end (str start)) (suc start) (end - 1) j
      ≡ mirror str start end j
mirror_step str start end j lt = ground arith

mirror_stop : (str : ℕ → ℕ) (start end j : ℕ) → end ≤ start → str j ≡ mirror str start end j
mirror_stop str start end j le = elim (Bool-cases (leb start j && leb j end)) [
  | inl inside ↦ let same : j ≡ start + end - j = ground arith in rw inside (ap str same)
  | inr outside ↦ rw outside refl
]

pub swap_loop-mirror :
    (fuel : ℕ) (str : ℕ → ℕ) (start end j : ℕ)
    → end ≤ start + fuel
    → swap_loop fuel str start end j ≡ mirror str start end j
unfolding swap_loop
swap_loop-mirror zero str start end j le = mirror_stop str start end j (omega arith)
swap_loop-mirror (suc fuel) str start end j le = elim (Bool-cases (ltb start end)) [
  | inl more ↦
      rw (more, swap_loop)
        (swap_loop-mirror fuel (update (update str start (str end)) end (str start)) (suc start)
            (end - 1) j (omega arith)
          ∙ mirror_step str start end j (ground arith))
  | inr stop ↦ rw (stop, swap_loop) (mirror_stop str start end j (ground arith))
]
