-- ===== src/Keyboard/Typing.antt =====
-- From the keys typed to the characters read, through the driver of drivers/keyboard.c.
use valiant_core.Base.{
  ℕ, zero, suc, ◌+◌, ◌%◌, ◌≤◌, ◌<◌, ◌≡◌, ◌≢◌, refl, sym, ap, subst, ◌∙◌, arith, Bool, List, [], ◌∷◌,
  ◌++◌, map, length, leb, ◌==◌, ◌||◌, length-++, length-map, ++-[], ++_assoc, false,
}
use valiant_core.Keyboard.{Keyboard, keyboard_handler, keyboard_getchar}
use valiant_core.Keyboard.Queue.{IsValid, queue, put, Read, nothing, oldest, keyboard_getchar-queue}
use valiant_core.Keyboard.Keys.{key}
use valiant_core.Keyboard.Refine.{View, view, press, keyboard_handler-press}

-- The interrupts of a list of scancodes.
unfoldable pub feed : Keyboard → List ℕ → Keyboard
feed k [] = k
feed k (s ∷ ss) = feed (keyboard_handler k s) ss

-- The results of `n` calls of `keyboard_getchar`.
unfoldable pub drain : ℕ → Keyboard → List ℕ
drain zero k = []
drain (suc n) k = (keyboard_getchar k).1 ∷ drain n (keyboard_getchar k).0

-- The press of a key with a character, under a state of shift and caps lock.
abbrev pub IsPlain : Bool → Bool → ℕ → Type 0
IsPlain shift caps s =
    (s < 128) × (s ≢ 42) × (s ≢ 54) × (s ≢ 29) × (s ≢ 58) × (key shift caps s ≢ 0)

abbrev pub ArePlain : Bool → Bool → List ℕ → Type 0
ArePlain shift caps [] = Unit
ArePlain shift caps (s ∷ ss) = IsPlain shift caps s × ArePlain shift caps ss

press_plain :
    (v : View) (s : ℕ)
    → IsPlain v.shift v.caps s
    → press v s ≡ record v { typed = put v.typed (key v.shift v.caps s) }
press_plain v s h =
    let same : s % 128 ≡ s = omega arith in
    let no_shift : (s == 42 || s == 54) ≡ false = ground (arith, h) in
    let no_ctrl : s == 29 ≡ false = ground (arith, h) in
    let no_caps : s == 58 ≡ false = ground (arith, h) in
    let down : leb 128 s ≡ false = ground (arith, h) in
    let char : key v.shift v.caps s == 0 ≡ false = ground (arith, h) in
    rw (same, no_shift, no_ctrl, down, no_caps, char) refl

put_fits : (q : List ℕ) (c : ℕ) → length q < 255 → put q c ≡ q ++ c ∷ []
put_fits q c lt = ground arith

feed-queue :
    (ss : List ℕ) (k : Keyboard) (w : View)
    → IsValid k
    → view k ≡ w
    → ArePlain w.shift w.caps ss
    → length w.typed + length ss ≤ 255
    → IsValid (feed k ss) × (queue (feed k ss) ≡ w.typed ++ map (key w.shift w.caps) ss)
unfolding feed
feed-queue [] k w v e plain room = (v, ap (λ u. u.typed) e ∙ sym (++-[] w.typed))
feed-queue (s ∷ ss) k w v e plain room =
    let c = key w.shift w.caps s in
    let step = keyboard_handler-press k s v (omega (arith, plain.0.0)) in
    let typed : press w s ≡ record w { typed = w.typed ++ c ∷ [] } =
      press_plain w s plain.0
      ∙ ap (λ q. record w { typed = q }) (put_fits w.typed c (omega arith)) in
    let rest =
      feed-queue ss (keyboard_handler k s) (record w { typed = w.typed ++ c ∷ [] }) step.0
        (step.1 ∙ ap (λ u. press u s) e ∙ typed) plain.1
        (omega (arith, length-++ w.typed (c ∷ []))) in
    (rest.0, rest.1 ∙ ++_assoc w.typed (c ∷ []) (map (key w.shift w.caps) ss))

Read-some : (q r : List ℕ) (c x : ℕ) (xs : List ℕ) → Read q r c → q ≡ x ∷ xs → (c ≡ x) × (r ≡ xs)
Read-some q r c x xs (nothing e) h = (cc, cc)
Read-some q r c x xs (oldest e) h = (cc, cc)

drain-queue : (q : List ℕ) (k : Keyboard) → IsValid k → queue k ≡ q → drain (length q) k ≡ q
unfolding drain
drain-queue [] k v e = refl
drain-queue (c ∷ q) k v e =
    let read = keyboard_getchar-queue k v in
    let got =
      Read-some (queue k) (queue (keyboard_getchar k).0) (keyboard_getchar k).1 c q read.1 e in
    rw (got.0, drain-queue q (keyboard_getchar k).0 read.0 got.1) refl

-- On an empty valid buffer, up to 255 presses of keys with a character are read back, in order, as
-- the characters that the keys have under the shift and caps lock of the moment.
pub drain-feed :
    (k : Keyboard) (ss : List ℕ)
    → IsValid k
    → queue k ≡ []
    → ArePlain k.shift_pressed k.caps_lock ss
    → length ss ≤ 255
    → drain (length ss) (feed k ss) ≡ map (key k.shift_pressed k.caps_lock) ss
drain-feed k ss v empty plain room =
    let shift = k.shift_pressed in
    let caps = k.caps_lock in
    let fed = feed-queue ss k (view k) v refl plain (omega (arith, ap length empty)) in
    let all : queue (feed k ss) ≡ map (key shift caps) ss =
      fed.1 ∙ ap (λ q. q ++ map (key shift caps) ss) empty in
    subst (λ n. drain n (feed k ss) ≡ map (key shift caps) ss) (length-map (key shift caps) ss)
      (drain-queue (map (key shift caps) ss) (feed k ss) fed.0 all)
