-- ===== src/Base/Waits.antt =====
-- The loops in which the drivers wait for a bit of a register: a test that changes the state, since
-- a read of a register is an access, is made until it passes or a counter runs out.
use Prim.Native.Nat.{ℕ, zero, suc, ◌+◌, ◌-◌, ◌<◌}
use mathlib.Core.Path.{◌≡◌, refl, ap}
use mathlib.Core.Logic.{◌⊎◌, inl, inr}
use mathlib.Core.Bool.{Bool, true, false}
use mathlib.Core.Option.{Option, none, some}
use native.Mathlib.Omega.{arith}
use native.Mathlib.Decide.{dec_lt}
use package.valiant_core.Base.Tests.{if◌then◌else◌, Bool-cases}
use package.valiant_core.Base.Integers.{ℤ, pos, negsuc, le_ℤ}

module _ {ℓ} {S : Type ℓ} (test : S → Bool × S) where
  -- `while (!test() && timeout--);`, with the last value of `timeout`.
  unfoldable pub count_down : ℕ → S → ℤ × S
  count_down zero s = let (done, s') = test s in (if done then pos 0 else negsuc 0, s')
  count_down (suc n) s =
      let (done, s') = test s in elim done [ true ↦ (pos (suc n), s') | false ↦ count_down n s' ]

  -- `for (i = 0; i < n; i++) if (test()) break;`
  unfoldable pub give_up : ℕ → S → S
  give_up zero s = s
  give_up (suc n) s = let (done, s') = test s in elim done [ true ↦ s' | false ↦ give_up n s' ]

  -- `while (!test());`, with `none` where the fuel runs out.
  unfoldable pub wait_for : ℕ → S → Option S
  wait_for zero s = none
  wait_for (suc fuel) s =
      let (done, s') = test s in elim done [ true ↦ some s' | false ↦ wait_for fuel s' ]

  -- The state after `k` tests.
  unfoldable pub after : ℕ → S → S
  after zero s = s
  after (suc k) s = after k (test s).1

  -- The tests up to the one numbered `k`, the first of which is numbered 0, fail.
  abbrev pub Fails : ℕ → S → Type 0
  Fails k s = (j : ℕ) → j < k → (test (after j s)).0 ≡ false

  -- The test numbered `k` is the first that passes.
  abbrev pub Passes : ℕ → S → Type 0
  Passes k s = Fails k s × ((test (after k s)).0 ≡ true)

  Fails-suc : (k : ℕ) (s : S) → (test s).0 ≡ false → Fails k (test s).1 → Fails (suc k) s
  unfolding after
  Fails-suc k s now later zero lt = now
  Fails-suc k s now later (suc j) lt = later j (omega arith)

  Passes-suc : (k : ℕ) (s : S) → (test s).0 ≡ false → Passes k (test s).1 → Passes (suc k) s
  unfolding after
  Passes-suc k s now (before, at) = (Fails-suc k s now before, at)

  -- One of the first `n` tests passes, or none does.
  pub first_pass : (n : ℕ) (s : S) → ((k : ℕ) × (k < n) × Passes k s) ⊎ Fails n s
  unfolding after
  first_pass zero s = inr (λ j lt. absurd (omega arith))
  first_pass (suc n) s = elim (Bool-cases (test s).0) [
    | inl pass ↦ inl (0, omega arith, ((λ j lt. absurd (omega arith)), pass))
    | inr fail ↦ elim (first_pass n (test s).1) [
      | inl (k, lt, p) ↦ inl (suc k, omega arith, Passes-suc k s fail p)
      | inr all ↦ inr (Fails-suc n s fail all)
    ]
  ]

  -- The tests up to the one numbered `n` are made, and the counter has what is left.
  pub count_down-Passes :
      (n k left : ℕ) (s : S)
      → k + left ≡ n
      → Passes k s
      → count_down n s ≡ (pos left, after (suc k) s)
  unfolding count_down after
  count_down-Passes zero zero left s e (before, at) =
      let none_left : 0 ≡ left = omega arith in
      rw at (ap (λ (m : ℕ). (pos m, (test s).1)) none_left)
  count_down-Passes zero (suc k) left s e p = absurd (omega arith)
  count_down-Passes (suc n) zero left s e (before, at) =
      let all_left : suc n ≡ left = omega arith in
      rw (at, count_down) (ap (λ (m : ℕ). (pos m, (test s).1)) all_left)
  count_down-Passes (suc n) (suc k) left s e (before, at) =
      rw (before 0 (omega arith), count_down)
        (count_down-Passes n k left (test s).1 (omega arith)
          ((λ j lt. before (suc j) (omega arith)), at))

  pub count_down-Fails :
      (n : ℕ) (s : S) → Fails (suc n) s → count_down n s ≡ (negsuc 0, after (suc n) s)
  unfolding count_down after
  count_down-Fails zero s all = rw (all 0 (omega arith)) refl
  count_down-Fails (suc n) s all =
      rw (all 0 (omega arith), count_down)
        (count_down-Fails n (test s).1 (λ j lt. all (suc j) (omega arith)))

  pub give_up-Passes : (n k : ℕ) (s : S) → k < n → Passes k s → give_up n s ≡ after (suc k) s
  unfolding give_up after
  give_up-Passes zero k s lt p = absurd (omega arith)
  give_up-Passes (suc n) zero s lt (before, at) = rw (at, give_up) refl
  give_up-Passes (suc n) (suc k) s lt (before, at) =
      rw (before 0 (omega arith), give_up)
        (give_up-Passes n k (test s).1 (omega arith) ((λ j lt. before (suc j) (omega arith)), at))

  pub give_up-Fails : (n : ℕ) (s : S) → Fails n s → give_up n s ≡ after n s
  unfolding give_up after
  give_up-Fails zero s all = refl
  give_up-Fails (suc n) s all =
      rw (all 0 (omega arith), give_up)
        (give_up-Fails n (test s).1 (λ j lt. all (suc j) (omega arith)))

  pub wait_for-Passes :
      (fuel k : ℕ) (s : S) → k < fuel → Passes k s → wait_for fuel s ≡ some (after (suc k) s)
  unfolding wait_for after
  wait_for-Passes zero k s lt p = absurd (omega arith)
  wait_for-Passes (suc n) zero s lt (before, at) = rw (at, wait_for) refl
  wait_for-Passes (suc n) (suc k) s lt (before, at) =
      rw (before 0 (omega arith), wait_for)
        (wait_for-Passes n k (test s).1 (omega arith) ((λ j lt. before (suc j) (omega arith)), at))

  pub wait_for-Fails : (fuel : ℕ) (s : S) → Fails fuel s → wait_for fuel s ≡ none
  unfolding wait_for after
  wait_for-Fails zero s all = refl
  wait_for-Fails (suc n) s all =
      rw (all 0 (omega arith), wait_for)
        (wait_for-Fails n (test s).1 (λ j lt. all (suc j) (omega arith)))

  -- One of the first `n` tests has passed, and no more tests have been made.
  abbrev pub InTime : ℕ → S → S → Type ℓ
  InTime n s s' = (k : ℕ) × (k < n) × Passes k s × (s' ≡ after (suc k) s)

  -- They have all failed, and one more has been made.
  abbrev pub IsLate : ℕ → S → S → Type ℓ
  IsLate n s s' = Fails n s × (s' ≡ after (suc n) s)

  Fails-last : (n : ℕ) (s : S) → Fails n s → (test (after n s)).0 ≡ false → Fails (suc n) s
  Fails-last n s all last j lt = elim (dec_lt j n) [
    | yes before ↦ all j before
    | no stop ↦ let here : n ≡ j = omega arith in rw (← here) last
  ]

  -- `timeout <= 0` after the loop.
  pub count_down-cases :
      (n : ℕ) (s : S)
      → (InTime n s (count_down n s).1 × (le_ℤ (count_down n s).0 (pos 0) ≡ false))
        ⊎ (IsLate n s (count_down n s).1 × (le_ℤ (count_down n s).0 (pos 0) ≡ true))
  count_down-cases n s = elim (first_pass n s) [
    | inl (k, lt, p) ↦
        let e = count_down-Passes n k (n - k) s (omega arith) p in
        rw e (inl ((k, lt, p, refl), ground arith))
    | inr all ↦ elim (Bool-cases (test (after n s)).0) [
      | inl pass ↦
          rw (count_down-Passes n n 0 s (omega arith) (all, pass)) (inr ((all, refl), refl))
      | inr fail ↦ rw (count_down-Fails n s (Fails-last n s all fail)) (inr ((all, refl), refl))
    ]
  ]

-- What a test keeps, the loops keep.
module _ {ℓ κ} {S : Type ℓ} (test : S → Bool × S) (P : S → Type κ)
    (keep : (s : S) → P s → P (test s).1) where
  pub give_up-keep : (n : ℕ) (s : S) → P s → P (give_up test n s)
  unfolding give_up
  give_up-keep zero s p = p
  give_up-keep (suc n) s p = elim (Bool-cases (test s).0) [
    | inl pass ↦ rw (pass, give_up) (keep s p)
    | inr fail ↦ rw (fail, give_up) (give_up-keep n (test s).1 (keep s p))
  ]

  pub after-keep : (k : ℕ) (s : S) → P s → P (after test k s)
  unfolding after
  after-keep zero s p = p
  after-keep (suc k) s p = after-keep k (test s).1 (keep s p)
