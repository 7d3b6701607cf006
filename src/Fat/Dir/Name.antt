-- ===== src/Fat/Dir/Name.antt =====
-- Names in 8.3 form in directory entries of fs/fat32/fat32.c.
use valiant_core.Base.{
  ℕ, zero, suc, ◌+◌, ◌-◌, ◌≤◌, ◌<◌, ◌≡◌, ◌≢◌, refl, sym, ap, ◌∙◌, arith, true, false, List, [], ◌∷◌,
  ◌++◌, length, get_or, ◌==◌, ltb, if◌then◌else◌,
}
use valiant_core.Fat.{Sector}
use valiant_core.Fat.Dir.{copy_chars, display_name}

abbrev pub HasNoSpace : List ℕ → Type 0
HasNoSpace [] = Unit
HasNoSpace (c ∷ cs) = (c ≢ b' ') × HasNoSpace cs

-- The field of `n` bytes at `i` holds the characters and is filled up with spaces.
abbrev pub IsPadded : Sector → ℕ → ℕ → List ℕ → Type 0
IsPadded b i n cs = (length cs ≤ n) × ((j : ℕ) → j < n → b (i + j) ≡ get_or cs j b' ')

copy_chars_padded :
    (cs : List ℕ) (n room : ℕ) (b : Sector) (i : ℕ)
    → HasNoSpace cs
    → IsPadded b i n cs
    → length cs ≤ room
    → copy_chars n room b i ≡ cs
unfolding copy_chars
copy_chars_padded [] zero room b i h p fits = refl
copy_chars_padded [] (suc n) zero b i h p fits = refl
copy_chars_padded [] (suc n) (suc room) b i h p fits =
    let o : i + 0 ≡ i = omega arith in
    let here : b i ≡ b' ' = ap b (sym o) ∙ p.1 0 (omega arith) in ground (arith, here)
copy_chars_padded (c ∷ cs) zero room b i h p fits = absurd (omega (arith, p.0))
copy_chars_padded (c ∷ cs) (suc n) zero b i h p fits = absurd (omega (arith, fits))
copy_chars_padded (c ∷ cs) (suc n) (suc room) b i h p fits =
    let o : i + 0 ≡ i = omega arith in
    let here : b i ≡ c = ap b (sym o) ∙ p.1 0 (omega arith) in
    let later =
      copy_chars_padded cs n room b (i + 1) h.1
        (
          omega (arith, p.0),
          λ j lt. let q : i + 1 + j ≡ i + suc j = omega arith in ap b q ∙ p.1 (suc j) (omega arith),
        )
        (omega arith) in
    let letter : c == b' ' ≡ false = ground (arith, h.0) in rw (here, letter, later) refl

-- An entry whose two fields hold a stem of at most 8 and an extension of at most 3 characters, none
-- of them a space, is shown as the stem, followed by a dot and the extension where there is one.
pub display_name_lem :
    (b : Sector) (off : ℕ) (stem ext : List ℕ)
    → HasNoSpace stem
    → HasNoSpace ext
    → IsPadded b off 8 stem
    → IsPadded b (off + 8) 3 ext
    → display_name b off 64 ≡ (if ltb 0 (length ext) then stem ++ b'.' ∷ ext else stem)
unfolding display_name
display_name_lem b off stem [] hs he ps pe =
    let o : off + 8 + 0 ≡ off + 8 = omega arith in
    let blank : b (off + 8) ≡ b' ' = ap b (sym o) ∙ pe.1 0 (omega arith) in
    let name = copy_chars_padded stem 8 63 b off hs ps (omega (arith, ps.0)) in
    rw (name, blank) refl
display_name_lem b off stem (c ∷ ext) hs he ps pe =
    let o : off + 8 + 0 ≡ off + 8 = omega arith in
    let first : b (off + 8) ≡ c = ap b (sym o) ∙ pe.1 0 (omega arith) in
    let letter : c == b' ' ≡ false = ground (arith, he.0) in
    let some_room : ltb (length stem) 62 ≡ true = ground (arith, ps.0) in
    let name = copy_chars_padded stem 8 63 b off hs ps (omega (arith, ps.0)) in
    let rest =
      copy_chars_padded (c ∷ ext) 3 (63 - (length stem + 1)) b (off + 8) he pe
        (omega (arith, ps.0, pe.0)) in
    let has : ltb 0 (length (c ∷ ext)) ≡ true = ground arith in
    rw (name, first, letter, some_room, rest, has) refl
