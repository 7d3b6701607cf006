-- ===== src/Sched/Ipc/Letters.antt =====
-- The message queue as the bag of its used slots.
use mathlib.Core.List.{Perm}
use mathlib.Core.List.Perm
use valiant_core.Base.{
  ℕ, zero, suc, ◌+◌, ◌≤◌, ◌<◌, ◌≡◌, refl, ap, ◌∙◌, inl, inr, arith, List, [], ◌∷◌, true, false,
  Bool-cases, update, update_self, update_ne, ℕ_discrete, if◌then◌else◌, length, subst,
}
use valiant_core.Sched.{Scheduler, IpcMsg, ipc_queue_size}

-- The used slots from `i` on, `n` slots long.
unfoldable pub letters : ℕ → ℕ → (ℕ → IpcMsg) → List IpcMsg
letters zero i q = []
letters (suc n) i q = let rest = letters n (suc i) q in if (q i).used then q i ∷ rest else rest

unfoldable pub pending : Scheduler → List IpcMsg
pending s = letters ipc_queue_size 0 s.ipc_queue

letters_ext :
    (n i : ℕ) (a b : ℕ → IpcMsg) → ((j : ℕ) → i ≤ j → a j ≡ b j) → letters n i a ≡ letters n i b
unfolding letters
letters_ext zero i a b h = refl
letters_ext (suc n) i a b h =
    rw (h i (omega arith), letters_ext n (suc i) a b (λ j lt. h j (omega arith)))

letters_used :
    (n i : ℕ) (q : ℕ → IpcMsg) → (q i).used ≡ true → letters (suc n) i q ≡ q i ∷ letters n (suc i) q
unfolding letters
letters_used n i q e = rw e

letters_free :
    (n i : ℕ) (q : ℕ → IpcMsg) → (q i).used ≡ false → letters (suc n) i q ≡ letters n (suc i) q
unfolding letters
letters_free n i q e = rw e

letters-update_here :
    (n i : ℕ) (q : ℕ → IpcMsg) (m : IpcMsg)
    → m.used ≡ true
    → letters (suc n) i (update q i m) ≡ m ∷ letters n (suc i) q
letters-update_here n i q m used =
    letters_used n i (update q i m) (ap (λ t. t.used) (update_self q i m) ∙ used)
    ∙ ap (λ t. t ∷ letters n (suc i) (update q i m)) (update_self q i m)
    ∙ ap (λ l. m ∷ l)
        (letters_ext n (suc i) (update q i m) q (λ j lt. update_ne q i m j (λ e. omega arith)))

-- Filling a free slot adds its message to the bag.
pub letters-update :
    (n i k : ℕ) (q : ℕ → IpcMsg) (m : IpcMsg)
    → i ≤ k
    → k < i + n
    → (q k).used ≡ false
    → m.used ≡ true
    → Perm (letters n i (update q k m)) (m ∷ letters n i q)
letters-update zero i k q m lo hi free used = absurd (omega arith)
letters-update (suc n) i k q m lo hi free used = elim (ℕ_discrete i k) [
  | yes here ↦
      let free_i : (q i).used ≡ false = rw here free in
      rw (← here, letters-update_here n i q m used, letters_free n i q free_i) Perm.rfl
  | no there ↦
      let rest = letters-update n (suc i) k q m (omega arith) (omega arith) free used in
      let same = update_ne q k m i there in
      elim (Bool-cases (q i).used) [
        | inl busy ↦
            rw
              (
                letters_used n i (update q k m) (ap (λ t. t.used) same ∙ busy),
                letters_used n i q busy,
                same,
              )
              (Perm.trans (Perm.cons (q i) rest) (Perm.swap m (q i) (letters n (suc i) q)))
        | inr idle ↦
            rw
              (
                letters_free n i (update q k m) (ap (λ t. t.used) same ∙ idle),
                letters_free n i q idle,
              )
              rest
      ]
]

-- Clearing a used slot takes its message out of the bag.
pub letters-clear :
    (n k : ℕ) (q : ℕ → IpcMsg)
    → k < n
    → (q k).used ≡ true
    → Perm (letters n 0 q) (q k ∷ letters n 0 (update q k (record (q k) { used = false })))
letters-clear n k q lt used =
    let cleared = update q k (record (q k) { used = false }) in
    subst (λ l. Perm l (q k ∷ letters n 0 cleared))
      (letters_ext n 0 (update cleared k (q k)) q (λ j lo. ground arith))
      (letters-update n 0 k cleared (q k) (omega arith) (omega arith) (ground arith) used)

-- With every slot used there are as many messages as slots.
pub letters_full :
    (n i : ℕ) (q : ℕ → IpcMsg)
    → ((j : ℕ) → i ≤ j → j < i + n → (q j).used ≡ true)
    → length (letters n i q) ≡ n
letters_full zero i q h = unfold letters in refl
letters_full (suc n) i q h =
    rw (letters_used n i q (h i (omega arith) (omega arith)))
      (ap suc (letters_full n (suc i) q (λ j lo hi. h j (omega arith) (omega arith))))
