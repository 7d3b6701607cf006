-- ===== src/Stdio/Printf.antt =====
-- The result of `printf` in bin/stdio.h.
use valiant_core.Base.{
  ℕ, ◌≡◌, refl, subst, arith, Bool-cases, inl, inr, Option-cases, some, none, List, [], ◌∷◌, length,
  length-++, ◌==◌,
}
use valiant_core.Stdio.{Arg, Printed, printf, put, convert}

-- What was printed has as many characters as the result says.
abbrev IsCounted : Printed → Type 0
IsCounted none = Unit
IsCounted (some (out, count)) = count ≡ length out

put-IsCounted : (bytes : List ℕ) (p : Printed) → IsCounted p → IsCounted (put bytes p)
unfolding put
put-IsCounted bytes none v = tt
put-IsCounted bytes (some (out, count)) v = omega (arith, v, length-++ bytes out)

printf-IsCounted :
    (bits : ℕ) (num_buf : ℕ → ℕ) (format : List ℕ) (args : List Arg)
    → IsCounted (printf bits num_buf format args)
unfolding printf
printf-IsCounted bits num_buf [] args = refl
printf-IsCounted bits num_buf (c ∷ []) args = refl
printf-IsCounted bits num_buf (c ∷ d ∷ format) args = elim (Bool-cases (c == b'%')) [
  | inr plain ↦
      rw (plain, printf)
        (put-IsCounted (c ∷ []) (printf bits num_buf (d ∷ format) args)
          (printf-IsCounted bits num_buf (d ∷ format) args))
  | inl conversion ↦ elim (Option-cases (convert bits num_buf d args)) [
    | inl undefined ↦ rw (conversion, undefined, printf) tt
    | inr ((bytes, rest), e) ↦
        rw (conversion, e, printf)
          (put-IsCounted bytes (printf bits num_buf format rest)
            (printf-IsCounted bits num_buf format rest))
  ]
]

-- Where it is defined, `printf` returns the number of the characters that it prints.
pub printf_count :
    (bits : ℕ) (num_buf : ℕ → ℕ) (format : List ℕ) (args : List Arg) {out : List ℕ} {count : ℕ}
    → printf bits num_buf format args ≡ some (out, count)
    → count ≡ length out
printf_count bits num_buf format args e =
    subst IsCounted e (printf-IsCounted bits num_buf format args)
