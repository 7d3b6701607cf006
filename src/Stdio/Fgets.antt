-- ===== src/Stdio/Fgets.antt =====
-- `fgets` of bin/stdio.h: which part of the input it takes.
use valiant_core.Base.{
  ℕ, zero, suc, ◌≤◌, ◌<◌, ◌≡◌, ◌≢◌, refl, ap, ◌⊎◌, inl, inr, arith, true, false, Bool-cases, ◌||◌,
  some, none, List, [], ◌∷◌, ◌++◌, length, length-++, ◌==◌,
}
use valiant_core.Stdio.{getchar, fgets_loop, fgets}

-- No character that ends a line for `fgets`.
abbrev pub IsLine : List ℕ → Type 0
IsLine [] = Unit
IsLine (c ∷ cs) = (c ≢ 0) × (c ≢ 13) × (c ≢ 10) × IsLine cs

-- Why the loop ended, with room for `n` characters: there was no more room; a newline, which is
-- stored; a 0 or a carriage return, which is not; or the input ended.
pub data Ends (n : ℕ) (input : List ℕ) : List ℕ → List ℕ → Type 0 where
  full :
      (line left : List ℕ)
      → IsLine line
      → length line ≡ n
      → input ≡ line ++ left
      → Ends n input line left
  newline :
      (line left : List ℕ)
      → IsLine line
      → length line < n
      → input ≡ line ++ 10 ∷ left
      → Ends n input (line ++ 10 ∷ []) left
  cut :
      (line left : List ℕ) (c : ℕ)
      → IsLine line
      → length line < n
      → (c ≡ 0) ⊎ (c ≡ 13)
      → input ≡ line ++ c ∷ left
      → Ends n input line left
  ended : IsLine input → length input < n → Ends n input input []

Ends-cons :
    (n c : ℕ) (input stored left : List ℕ)
    → (c ≢ 0) × (c ≢ 13) × (c ≢ 10)
    → Ends n input stored left
    → Ends (suc n) (c ∷ input) (c ∷ stored) left
Ends-cons n c input stored left plain (full line rest is_line len e) =
    full (c ∷ line) rest (plain.0, plain.1, plain.2, is_line) (omega (arith, len))
      (ap (λ l. c ∷ l) e)
Ends-cons n c input stored left plain (newline line rest is_line len e) =
    newline (c ∷ line) rest (plain.0, plain.1, plain.2, is_line) (omega (arith, len))
      (ap (λ l. c ∷ l) e)
Ends-cons n c input stored left plain (cut line rest d is_line len why e) =
    cut (c ∷ line) rest d (plain.0, plain.1, plain.2, is_line) (omega (arith, len)) why
      (ap (λ l. c ∷ l) e)
Ends-cons n c input stored left plain (ended is_line len) =
    ended (plain.0, plain.1, plain.2, is_line) (omega (arith, len))

Ends-le : (n : ℕ) (input stored left : List ℕ) → Ends n input stored left → length stored ≤ n
Ends-le n input stored left (full line rest is_line len e) = omega (arith, len)
Ends-le n input stored left (newline line rest is_line len e) =
    omega (arith, len, length-++ line (10 ∷ []))
Ends-le n input stored left (cut line rest c is_line len why e) = omega (arith, len)
Ends-le n input stored left (ended is_line len) = omega (arith, len)

fgets_loop-Ends :
    (n : ℕ) (input : List ℕ) → Ends n input (fgets_loop n input).0 (fgets_loop n input).1
unfolding fgets_loop getchar
fgets_loop-Ends zero input = full [] input tt refl refl
fgets_loop-Ends (suc n) [] = ended tt (omega arith)
fgets_loop-Ends (suc n) (c ∷ input) = elim (Bool-cases (c == 10)) [
  | inl line_end ↦
      let e : c ≡ 10 = ground arith in
      let stop : (c == 0 || c == 13 || c == 10) ≡ true = ground arith in
      rw (stop, line_end) (newline [] input tt (omega arith) (ap (λ t. t ∷ input) e))
  | inr other ↦ elim (Bool-cases (c == 0 || c == 13)) [
    | inl cut_off ↦
        let why : (c ≡ 0) ⊎ (c ≡ 13) = ground arith in
        let stop : (c == 0 || c == 13 || c == 10) ≡ true = ground arith in
        rw (stop, other) (cut [] input c tt (omega arith) why refl)
    | inr plain ↦
        let go : (c == 0 || c == 13 || c == 10) ≡ false = ground arith in
        rw go (
          Ends-cons n c input (fgets_loop n input).0 (fgets_loop n input).1
            ((λ e. ground arith), (λ e. ground arith), λ e. ground arith) (fgets_loop-Ends n input))
  ]
]

-- With a buffer of `n + 1` bytes, `fgets` stores a line of the input, of at most `n` characters with
-- its newline, and leaves the rest of the input: it ends where the buffer is full, behind a newline,
-- at a 0 or a carriage return, which it drops, or with the input. With no buffer it yields NULL.
pub fgets-Ends :
    (n : ℕ) (input : List ℕ)
    → ((stored : List ℕ) × ((fgets (suc n) input).0 ≡ some stored)
        × Ends n input stored (fgets (suc n) input).1
        × (length stored ≤ n))
      × (fgets 0 input ≡ (none, input))
unfolding fgets
fgets-Ends n input =
    let e = fgets_loop-Ends n input in
    (
      (
        (fgets_loop n input).0,
        refl,
        e,
        Ends-le n input (fgets_loop n input).0 (fgets_loop n input).1 e,
      ),
      refl,
    )
