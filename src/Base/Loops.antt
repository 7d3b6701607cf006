-- ===== src/Base/Loops.antt =====
-- The shapes of the kernel's `for` loops: a loop that runs its whole range, and a scan that stops
-- at the first index that passes a test.
use Prim.Native.Nat.{ℕ, zero, suc, ◌+◌, ◌≤◌, ◌<◌}
use mathlib.Core.Path.{◌≡◌, refl, sym, ap}
use mathlib.Core.Logic.{inl, inr}
use mathlib.Core.Bool.{Bool, true, false, not}
use mathlib.Core.Option.{Option, none, some}
use native.Mathlib.Omega.{arith}
use native.Mathlib.Decide.{dec_lt}
use package.valiant_core.Base.Tests.{Bool-cases, if◌then◌else◌}

-- `for (k = i; k < i + n; k++) s = body(k, s);`
unfoldable pub for_range {ℓ} : {S : Type ℓ} → ℕ → ℕ → (ℕ → S → S) → S → S
for_range zero i body s = s
for_range (suc n) i body s = for_range n (suc i) body (body i s)

-- What holds before the first round and is kept by each round holds after the last one.
pub for_range_inv {ℓ κ} :
    {S : Type ℓ} (P : ℕ → S → Type κ) (body : ℕ → S → S) (n i j : ℕ) (s : S)
    → i + n ≡ j
    → ((k : ℕ) (t : S) → k < j → P k t → P (suc k) (body k t))
    → P i s
    → P j (for_range n i body s)
unfolding for_range
for_range_inv P body zero i j s e keep h = let same : i ≡ j = omega arith in rw (← same) h
for_range_inv P body (suc n) i j s e keep h =
    for_range_inv P body n (suc i) j (body i s) (omega arith) keep (keep i s (omega arith) h)

-- `for (k = i; k < i + n; k++) if (p(k)) return k;`, with `none` where the loop runs out.
unfoldable pub find_first : ℕ → ℕ → (ℕ → Bool) → Option ℕ
find_first zero i p = none
find_first (suc n) i p = elim (p i) [ true ↦ some i | false ↦ find_first n (suc i) p ]

abbrev pub First : (ℕ → Bool) → ℕ → ℕ → ℕ → Type 0
First p i n k = (i ≤ k) × (k < i + n) × (p k ≡ true) × ((j : ℕ) → i ≤ j → j < k → p j ≡ false)

-- A scan that succeeds returns the first index that passes.
pub find_first-some : (n i : ℕ) (p : ℕ → Bool) {k : ℕ} → find_first n i p ≡ some k → First p i n k
unfolding find_first
find_first-some zero i p e = cc
find_first-some (suc n) i p {k} e = elim (Bool-cases (p i)) [
  | inl hit ↦
      let here : i ≡ k = ground arith in
      (omega arith, omega arith, rw (← here) hit, λ j lo hi. absurd (omega arith))
  | inr miss ↦ first_later n i p k miss (find_first-some n (suc i) p (ground arith))
]
  where
    first_later :
        (n i : ℕ) (p : ℕ → Bool) (k : ℕ) → p i ≡ false → First p (suc i) n k → First p i (suc n) k
    first_later n i p k miss f = (
      omega arith,
      omega arith,
      f.2,
      λ j lo hi. elim (dec_lt i j) [
        | yes later ↦ f.3 j later hi
        | no stop ↦ let here : i ≡ j = omega arith in rw (← here) miss
      ],
    )

-- A scan that fails has seen no index that passes.
pub find_first-none :
    (n i : ℕ) (p : ℕ → Bool) → find_first n i p ≡ none → (j : ℕ) → i ≤ j → j < i + n → p j ≡ false
unfolding find_first
find_first-none zero i p e j lo hi = absurd (omega arith)
find_first-none (suc n) i p e j lo hi = elim (Bool-cases (p i)) [
  | inl hit ↦ ground arith
  | inr miss ↦ elim (dec_lt i j) [
    | yes later ↦ find_first-none n (suc i) p (ground arith) j later (omega arith)
    | no stop ↦ let here : i ≡ j = omega arith in rw (← here) miss
  ]
]

-- A scan over a range with a passing index, none of the earlier ones passing, finds that index.
pub find_first_eq : (n i : ℕ) (p : ℕ → Bool) {k : ℕ} → First p i n k → find_first n i p ≡ some k
unfolding find_first
find_first_eq zero i p f = absurd (omega arith)
find_first_eq (suc n) i p {k} f = elim (Bool-cases (p i)) [
  | inl hit ↦ elim (dec_lt i k) [
    | yes later ↦ ground (arith, f.3 i)
    | no stop ↦ let here : i ≡ k = omega arith in rw (hit, find_first) (ap some here)
  ]
  | inr miss ↦ elim (dec_lt i k) [
    | yes later ↦
        rw (miss, find_first)
          (find_first_eq n (suc i) p (later, omega arith, f.2, λ j lo hi. f.3 j (omega arith) hi))
    | no stop ↦ let here : k ≡ i = omega arith in let hit : p i ≡ true = rw (← here) f.2 in cc
  ]
]

-- A test that every index below `n` passes, by evaluation.
unfoldable pub holds_below : (ℕ → Bool) → ℕ → Bool
holds_below p zero = true
holds_below p (suc n) = elim (p n) [ true ↦ holds_below p n | false ↦ false ]

pub holds_below_lem : (p : ℕ → Bool) (n j : ℕ) → holds_below p n ≡ true → j < n → p j ≡ true
unfolding holds_below
holds_below_lem p zero j h lt = absurd (omega arith)
holds_below_lem p (suc n) j h lt = elim (Bool-cases (p n)) [
  | inl top ↦ elim (dec_lt j n) [
    | yes below ↦ holds_below_lem p n j (ground arith) below
    | no stop ↦ let here : n ≡ j = omega arith in rw (← here) top
  ]
  | inr bad ↦ ground arith
]

-- Equality of two tests, by evaluation.
unfoldable pub same_bool : Bool → Bool → Bool
same_bool a b = if a then b else not b

pub same_bool_lem : (a b : Bool) → same_bool a b ≡ true → a ≡ b
unfolding same_bool
same_bool_lem false false e = refl
same_bool_lem false true e = e
same_bool_lem true false e = sym e
same_bool_lem true true e = refl
