-- ===== src/Base/Arrays.antt =====
-- C arrays: a static array is a function of its index, a string or a buffer is a list.
use Prim.Native.Nat.{ℕ, zero, suc, ◌+◌, ◌≤◌, ◌<◌}
use mathlib.Core.Path.{◌≡◌, refl}
use mathlib.Core.Logic.{◌≢◌}
use mathlib.Core.Bool.{Bool}
use mathlib.Core.List.{List, [], ◌∷◌}
use native.Mathlib.Omega.{arith}
use native.Mathlib.Decide.{dec_lt}
use package.valiant_core.Base.Tests.{◌==◌, if◌then◌else◌}

-- `f[i] = a`
abbrev pub update {ℓ} : {A : Type ℓ} → (ℕ → A) → ℕ → A → ℕ → A
update f i a j = if j == i then a else f j

pub update_self {ℓ} : {A : Type ℓ} (f : ℕ → A) (i : ℕ) (a : A) → update f i a i ≡ a
update_self f i a = ground arith

pub update_ne {ℓ} : {A : Type ℓ} (f : ℕ → A) (i : ℕ) (a : A) (j : ℕ) → j ≢ i → update f i a j ≡ f j
update_ne f i a j h = ground arith

module _ {ℓ} {A : Type ℓ} where
  abbrev pub length : List A → ℕ
  length [] = 0
  length (x ∷ xs) = suc (length xs)

  abbrev pub get_or : List A → ℕ → A → A
  get_or [] i d = d
  get_or (x ∷ xs) zero d = x
  get_or (x ∷ xs) (suc i) d = get_or xs i d

-- The number of indices below `n` that pass a test.
unfoldable pub count : (ℕ → Bool) → ℕ → ℕ
count p zero = 0
count p (suc n) = count p n + (if p n then 1 else 0)

pub count-le : (p : ℕ → Bool) (n : ℕ) → count p n ≤ n
unfolding count
count-le p zero = omega arith
count-le p (suc n) = ground (arith, count-le p n)

pub count_ext : (p q : ℕ → Bool) (n : ℕ) → ((j : ℕ) → j < n → p j ≡ q j) → count p n ≡ count q n
unfolding count
count_ext p q zero h = refl
count_ext p q (suc n) h = rw (h n (omega arith), count_ext p q n (λ j lt. h j (omega arith)))

-- Tests that differ at one index only: the counts differ by what they say there.
pub count_change :
    (p q : ℕ → Bool) (n i : ℕ)
    → i < n
    → ((j : ℕ) → j ≢ i → p j ≡ q j)
    → count q n + (if p i then 1 else 0) ≡ count p n + (if q i then 1 else 0)
unfolding count
count_change p q zero i lt same = absurd (omega arith)
count_change p q (suc n) i lt same = elim (dec_lt i n) [
  | yes below ↦
      let last : p n ≡ q n = same n (omega arith) in
      rw last (omega (arith, count_change p q n i below same))
  | no stop ↦
      let here : i ≡ n = omega arith in
      let rest : count p n ≡ count q n = count_ext p q n (λ j h. same j (omega arith)) in
      rw (here, rest) (omega arith)
]
