-- ===== src/Vef/Loader/Copy.antt =====
-- The copy of a program from the file to its entry point.
use valiant_core.Base.{
  ℕ, zero, suc, ◌+◌, ◌-◌, ◌≤◌, ◌<◌, ◌≡◌, refl, ap, ◌∙◌, ◌⊎◌, inl, inr, arith, true, false,
  Bool-cases, ◌&&◌, ltb, leb, ◌==◌, if◌then◌else◌, u32, update,
}
use valiant_core.Vef.Loader.{get_word, text_size, payload, copy_loop}

-- `n` bytes from `src` on stand at `dst` too, and the rest is as in `m`.
abbrev pub copied : (ℕ → ℕ) → ℕ → ℕ → ℕ → ℕ → ℕ
copied m src dst n a = if leb dst a && ltb a (dst + n) then m (src + (a - dst)) else m a

-- The file of `n` bytes behind the header and the place of the program lie in memory, apart.
abbrev pub Apart : ℕ → ℕ → ℕ → Type 0
Apart buf dst n =
    (buf + 13 + n ≤ 4294967296)
    × (dst + n ≤ 4294967296)
    × ((dst + n ≤ buf) ⊎ (buf + 13 + n ≤ dst) ⊎ (n ≡ 0))

-- The bytes of the file stay as they are.
file_stays :
    (m : ℕ → ℕ) (buf dst n i k : ℕ)
    → Apart buf dst n
    → i ≤ n
    → k < 13 + n
    → copied m (buf + 13) dst i (buf + k) ≡ m (buf + k)
file_stays m buf dst n i k (file, place, inl below) le lt = ground arith
file_stays m buf dst n i k (file, place, inr (inl above)) le lt = ground arith
file_stays m buf dst n i k (file, place, inr (inr empty)) le lt = ground arith

get_word_ext :
    (m m' : ℕ → ℕ) (a : ℕ)
    → m' a ≡ m a
    → m' (u32 (a + 1)) ≡ m (u32 (a + 1))
    → m' (u32 (a + 2)) ≡ m (u32 (a + 2))
    → m' (u32 (a + 3)) ≡ m (u32 (a + 3))
    → get_word m' a ≡ get_word m a
unfolding get_word
get_word_ext m m' a e0 e1 e2 e3 = rw (e0, e1, e2, e3) refl

-- The numbers of the header stay as they are.
pub word_stays :
    (m m' : ℕ → ℕ) (buf dst n i k : ℕ)
    → Apart buf dst n
    → i ≤ n
    → k ≤ 9
    → ((a : ℕ) → m' a ≡ copied m (buf + 13) dst i a)
    → get_word m' (u32 (buf + k)) ≡ get_word m (u32 (buf + k))
word_stays m m' buf dst n i k apart le k_le same =
    get_word_ext m m' (u32 (buf + k)) (at k (omega arith) (u32 (buf + k)) (omega arith))
      (at (k + 1) (omega arith) (u32 (u32 (buf + k) + 1)) (omega arith))
      (at (k + 2) (omega arith) (u32 (u32 (buf + k) + 2)) (omega arith))
      (at (k + 3) (omega arith) (u32 (u32 (buf + k) + 3)) (omega arith))
  where
    at : (k : ℕ) → k < 13 → (a : ℕ) → a ≡ buf + k → m' a ≡ m a
    at k lt a e = rw e (same (buf + k) ∙ file_stays m buf dst n i k apart le (omega arith))

-- One round.
copy_round :
    (m m' : ℕ → ℕ) (buf dst n i : ℕ)
    → Apart buf dst n
    → i < n
    → ((a : ℕ) → m' a ≡ copied m (buf + 13) dst i a)
    → (a : ℕ)
    → update m' (u32 (dst + i)) (m' (u32 (payload buf + i))) a ≡ copied m (buf + 13) dst (suc i) a
copy_round m m' buf dst n i apart lt same a =
    let to : u32 (dst + i) ≡ dst + i = omega arith in
    let from : u32 (payload buf + i) ≡ buf + (13 + i) = omega arith in
    let byte =
      same (buf + (13 + i)) ∙ file_stays m buf dst n i (13 + i) apart (omega arith) (omega arith) in
    rw (to, from, byte)
      (elim (Bool-cases (a == dst + i)) [
        | inl here ↦
            let e : a ≡ dst + i = ground arith in
            let off : buf + 13 + (a - dst) ≡ buf + (13 + i) = omega arith in rw off (ground arith)
        | inr other ↦ ground (arith, same a)
      ])

-- From round `i` on, with as many rounds left as the fuel gives, or fewer.
copy_loop_from :
    (fuel : ℕ) (m m' : ℕ → ℕ) (buf dst i : ℕ)
    → Apart buf dst (text_size m buf)
    → i ≤ text_size m buf
    → text_size m buf ≤ i + fuel
    → ((a : ℕ) → m' a ≡ copied m (buf + 13) dst i a)
    → (a : ℕ) → copy_loop fuel buf dst i m' a ≡ copied m (buf + 13) dst (text_size m buf) a
unfolding copy_loop
copy_loop_from zero m m' buf dst i apart le enough same a =
    let e : i ≡ text_size m buf = omega arith in same a ∙ ap (λ t. copied m (buf + 13) dst t a) e
copy_loop_from (suc fuel) m m' buf dst i apart le enough same a =
    let size = word_stays m m' buf dst (text_size m buf) i 9 apart le (omega arith) same in
    elim (Bool-cases (ltb i (text_size m buf))) [
      | inl more ↦
          let go : ltb i (text_size m' buf) ≡ true = ap (λ t. ltb i t) size ∙ more in
          let lt : i < text_size m buf = ground arith in
          rw (go, copy_loop)
            (copy_loop_from fuel m (update m' (u32 (dst + i)) (m' (u32 (payload buf + i)))) buf dst
              (suc i) apart lt (omega arith)
              (copy_round m m' buf dst (text_size m buf) i apart lt same) a)
      | inr over ↦
          let stop : ltb i (text_size m' buf) ≡ false = ap (λ t. ltb i t) size ∙ over in
          let e : i ≡ text_size m buf = ground arith in
          rw (stop, copy_loop) (same a ∙ ap (λ t. copied m (buf + 13) dst t a) e)
    ]

-- With enough fuel, where the file and the place of the program lie apart, the loop ends with the
-- program copied and nothing else changed.
pub copy_loop-copied :
    (fuel : ℕ) (m : ℕ → ℕ) (buf dst : ℕ)
    → Apart buf dst (text_size m buf)
    → text_size m buf ≤ fuel
    → (a : ℕ) → copy_loop fuel buf dst 0 m a ≡ copied m (buf + 13) dst (text_size m buf) a
copy_loop-copied fuel m buf dst apart enough a =
    copy_loop_from fuel m m buf dst 0 apart (omega arith) (omega arith) (λ b. ground arith) a
