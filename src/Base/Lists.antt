-- ===== src/Base/Lists.antt =====
-- Lengths and appends of buffers.
use Prim.Native.Nat.{◌+◌}
use mathlib.Core.Path.{◌≡◌, refl, ap}
use mathlib.Core.List.{List, [], ◌∷◌, ◌++◌, map}
use native.Mathlib.Omega.{arith}
use package.valiant_core.Base.Arrays.{length}

pub length-++ {ℓ} : {A : Type ℓ} (a b : List A) → length (a ++ b) ≡ length a + length b
length-++ [] b = omega arith
length-++ (x ∷ a) b = omega (arith, length-++ a b)

pub length-map {ℓ κ} :
    {A : Type ℓ} {B : Type κ} (f : A → B) (a : List A) → length (map f a) ≡ length a
length-map f [] = refl
length-map f (x ∷ a) = omega (arith, length-map f a)

pub ++-[] {ℓ} : {A : Type ℓ} (a : List A) → a ++ [] ≡ a
++-[] [] = refl
++-[] (x ∷ a) = ap (λ l. x ∷ l) (++-[] a)

pub ++_assoc {ℓ} : {A : Type ℓ} (a b c : List A) → (a ++ b) ++ c ≡ a ++ (b ++ c)
++_assoc [] b c = refl
++_assoc (x ∷ a) b c = ap (λ l. x ∷ l) (++_assoc a b c)
