-- ===== src/Vef/Loader/Exec.antt =====
-- What `vef_exec` does with a file.
use valiant_core.Base.{
  ℕ, ◌+◌, ◌≤◌, ◌≡◌, ◌≢◌, refl, sym, ap, subst, ◌∙◌, inl, inr, arith, Bool, true, false, Bool-cases,
  ◌||◌, ◌∷◌, ltb, ◌==◌, u32,
}
use valiant_core.Vef.Window.{Screen}
use valiant_core.Vef.Loader.{
  map_user, switch_user, ring3, End, error, entered, Scan, Machine, magic_ok, arch, entry_point,
  text_size, payload, copy_loop, fail_with, launch, vef_exec,
}
use valiant_core.Vef.Loader.Copy.{copied, Apart, word_stays, copy_loop-copied}

-- The file passes every check before the scan.
abbrev pub Fits : (ℕ → ℕ) → ℕ → ℕ → Type 0
Fits m buf size =
    (buf ≢ 0)
    × (13 ≤ size)
    × (magic_ok m buf ≡ true)
    × (arch m buf ≡ 1)
    × (text_size m buf + 13 ≤ size)

-- A scan that returns 0 has left memory as it was, as that of security/security.rs does.
abbrev pub Keeps : Scan → Type 0
Keeps scan = (m : ℕ → ℕ) (a n : ℕ) → (scan m a n).0 ≡ true → (scan m a n).1 ≡ m

module _ (scan : Scan) (user_stack : ℕ) (s : Machine) (buf size : ℕ) where
  abbrev scanned : Bool × (ℕ → ℕ)
  scanned = scan s.memory (payload buf) (text_size s.memory buf)

  -- The state and the end of a call: the file is refused unscanned, or by the scan, or it runs.
  pub data Outcome : Machine × End → Type 0 where
    refused :
        (t : Machine)
        → ¬ Fits s.memory buf size
        → t.memory ≡ s.memory
        → t.effects ≡ s.effects
        → Outcome (t, error)
    blocked :
        (t : Machine)
        → Fits s.memory buf size
        → scanned.0 ≡ false
        → t.memory ≡ scanned.1
        → t.effects ≡ s.effects
        → Outcome (t, error)
    ran :
        (t : Machine)
        → Fits s.memory buf size
        → scanned.0 ≡ true
        → ((a : ℕ)
            → t.memory a
              ≡ copied s.memory (buf + 13) (entry_point s.memory buf) (text_size s.memory buf) a)
        → t.effects
          ≡ ring3 (entry_point s.memory buf) (u32 (user_stack + 4096))
            ∷ switch_user
            ∷ map_user
                (entry_point s.memory buf)
                (entry_point s.memory buf)
                (text_size s.memory buf)
            ∷ s.effects
        → Outcome (t, entered)

  launch-Outcome :
      (screen : Screen)
      → Fits s.memory buf size
      → scanned.0 ≡ true
      → Apart buf (entry_point s.memory buf) (text_size s.memory buf)
      → Outcome (launch screen user_stack s buf)
  unfolding launch
  launch-Outcome screen ok clean apart =
      let m = s.memory in
      let m' = copy_loop 4294967296 buf (entry_point m buf) 0 m in
      let same : ((a : ℕ) → m' a ≡ copied m (buf + 13) (entry_point m buf) (text_size m buf) a) =
        copy_loop-copied 4294967296 m buf (entry_point m buf) apart (omega arith) in
      let entry : entry_point m' buf ≡ entry_point m buf =
        word_stays m m' buf (entry_point m buf) (text_size m buf) (text_size m buf) 5 apart
          (omega arith) (omega arith) same in
      let length : text_size m' buf ≡ text_size m buf =
        word_stays m m' buf (entry_point m buf) (text_size m buf) (text_size m buf) 9 apart
          (omega arith) (omega arith) same in
      ran (launch screen user_stack s buf).0 ok clean same (
        ap
          (λ (e : ℕ).
            ring3 e (u32 (user_stack + 4096))
            ∷ switch_user
            ∷ map_user e e (text_size m' buf)
            ∷ s.effects)
          entry
        ∙ ap
            (λ (n : ℕ).
              ring3 (entry_point m buf) (u32 (user_stack + 4096))
              ∷ switch_user
              ∷ map_user (entry_point m buf) (entry_point m buf) n
              ∷ s.effects)
            length)

  -- Where the file and the place of its program lie apart, a call of `vef_exec` ends in one of three
  -- ways. It returns -1 for a file that does not pass the checks of its header and its size, and then
  -- touches neither memory nor paging nor the processor; or for one that the scan blocks, and then
  -- memory is what the scan has left, and paging and the processor are not touched. Or the file passes
  -- every check: the bytes of the program, and no other byte, have been copied to the entry point, the
  -- pages of just these bytes are mapped for the user, the user's page table is switched to, and the
  -- processor has entered ring 3 at the entry point, with the top of the user's stack.
  pub vef_exec-Outcome :
      (screen : Screen)
      → Apart buf (entry_point s.memory buf) (text_size s.memory buf)
      → Keeps scan
      → Outcome (vef_exec scan screen user_stack s buf size)
  unfolding vef_exec fail_with
  vef_exec-Outcome screen apart keeps =
      let m = s.memory in
      elim (Bool-cases (buf == 0 || ltb size 13)) [
        | inl bad ↦ rw bad (refused s (λ ok. ground (arith, ok.0, ok.1)) refl refl)
        | inr good ↦ elim (Bool-cases (magic_ok m buf)) [
          | inr bad ↦ rw (good, bad) (refused _ (λ ok. cc) refl refl)
          | inl magic ↦ elim (Bool-cases (arch m buf == 1)) [
            | inr bad ↦ rw (good, magic, bad) (refused _ (λ ok. ground arith) refl refl)
            | inl here ↦ elim (Bool-cases (ltb size (text_size m buf + 13))) [
              | inl bad ↦ rw (good, magic, here, bad) (refused _ (λ ok. ground arith) refl refl)
              | inr fits ↦
                  let ok : Fits m buf size =
                    ((λ e. ground arith), ground arith, magic, ground arith, ground arith) in
                  elim (Bool-cases scanned.0) [
                    | inr bad ↦ rw (good, magic, here, fits, bad) (blocked _ ok bad refl refl)
                    | inl clean ↦
                        rw (good, magic, here, fits, clean)
                          (subst
                            (λ (m' : ℕ → ℕ).
                              Outcome (launch screen user_stack (record s { memory = m' }) buf))
                            (sym (keeps m (payload buf) (text_size m buf) clean))
                            (launch-Outcome screen ok clean apart))
                  ]
            ]
          ]
        ]
      ]
