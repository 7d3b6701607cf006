-- ===== src/Keyboard/Refine.antt =====
-- `keyboard_handler` of drivers/keyboard.c as a machine with three switches and a queue, and what a
-- reader gets of the keys typed.
use valiant_core.Base.{
  ℕ, ◌%◌, ◌<◌, ◌≡◌, refl, arith, Bool, true, false, not, ◌&&◌, ◌||◌, Bool-cases, inl, inr, List,
  leb, ltb, ◌==◌, if◌then◌else◌,
}
use valiant_core.Keyboard.{Keyboard, keyboard_handler, key_down, kbd_buffer_push}
use valiant_core.Keyboard.Queue.{IsValid, queue, put, kbd_buffer_push-queue}
use valiant_core.Keyboard.Keys.{key, char_of-key, released_lem, code_lem}

-- The keyboard as its user sees it.
pub record View : Type 0 where
  pub shift : Bool
  pub ctrl : Bool
  pub caps : Bool
  pub typed : List ℕ

abbrev pub view : Keyboard → View
view k = record {
  shift = k.shift_pressed;
  ctrl = k.ctrl_pressed;
  caps = k.caps_lock;
  typed = queue k;
}

-- A scancode from 128 on releases the key `s % 128`.
abbrev pub press : View → ℕ → View
press v s =
    let code = s % 128 in
    let c = key v.shift v.caps code in
    if code == 42 || code == 54
    then record v { shift = ltb s 128 }
    else if code == 29
    then record v { ctrl = ltb s 128 }
    else if leb 128 s
    then v
    else if code == 58
    then record v { caps = not v.caps }
    else if c == 0
    then v
    else record v { typed = put v.typed c }

abbrev Refines : Keyboard → View → Type 0
Refines k v = IsValid k × (view k ≡ v)

push_flags :
    (k : Keyboard) (c : ℕ)
    → ((kbd_buffer_push k c).shift_pressed ≡ k.shift_pressed)
      × ((kbd_buffer_push k c).ctrl_pressed ≡ k.ctrl_pressed)
      × ((kbd_buffer_push k c).caps_lock ≡ k.caps_lock)
unfolding kbd_buffer_push
push_flags k c = ground arith

push-Refines :
    (k : Keyboard) (c : ℕ)
    → IsValid k
    → Refines (kbd_buffer_push k c) (record (view k) { typed = put (queue k) c })
unfolding queue
push-Refines k c v =
    let f = push_flags k c in
    let q = kbd_buffer_push-queue k c v in (q.0, rw (f.0, f.1, f.2, q.1) refl)

-- The switches are no part of the queue.
flags-Refines :
    (k : Keyboard) (shift ctrl caps : Bool)
    → IsValid k
    → Refines
        (record k { shift_pressed = shift; ctrl_pressed = ctrl; caps_lock = caps })
        (record (view k) { shift = shift; ctrl = ctrl; caps = caps })
unfolding queue
flags-Refines k shift ctrl caps v = (v, refl)

key_down-Refines :
    (k : Keyboard) (code : ℕ)
    → IsValid k
    → code < 128
    → let c = key k.shift_pressed k.caps_lock code in
      Refines
        (key_down k false code)
        (if c == 0 then view k else record (view k) { typed = put (queue k) c })
unfolding key_down
key_down-Refines k code v lt =
    let in_table : leb 128 code ≡ false = ground arith in
    rw (in_table, char_of-key k.shift_pressed k.caps_lock code lt)
      (elim (Bool-cases (key k.shift_pressed k.caps_lock code == 0)) [
        | inl none ↦ rw none (v, refl)
        | inr some ↦ rw some (push-Refines k _ v)
      ])

key_down_up : (k : Keyboard) (code : ℕ) → key_down k true code ≡ k
unfolding key_down
key_down_up k code = refl

abbrev handled : Keyboard → Bool → ℕ → Keyboard
handled k released code =
    if code == 42 || code == 54
    then record k { shift_pressed = not released }
    else if code == 29
    then record k { ctrl_pressed = not released }
    else if code == 58 && not released
    then record k { caps_lock = not k.caps_lock }
    else key_down k released code

handler_lem :
    (k : Keyboard) (s : ℕ) → s < 256 → keyboard_handler k s ≡ handled k (leb 128 s) (s % 128)
unfolding keyboard_handler
handler_lem k s lt = rw (released_lem s lt, code_lem s lt) refl

ltb-leb : (s n : ℕ) → not (leb n s) ≡ ltb s n
ltb-leb s n = ground arith

handled-Refines :
    (k : Keyboard) (s : ℕ)
    → IsValid k
    → Refines (handled k (leb 128 s) (s % 128)) (press (view k) s)
handled-Refines k s v = elim (Bool-cases (s % 128 == 42 || s % 128 == 54)) [
  | inl hit ↦ rw (hit, ltb-leb s 128) (flags-Refines k (ltb s 128) k.ctrl_pressed k.caps_lock v)
  | inr no_shift ↦ elim (Bool-cases (s % 128 == 29)) [
    | inl hit ↦
        rw (no_shift, hit, ltb-leb s 128)
          (flags-Refines k k.shift_pressed (ltb s 128) k.caps_lock v)
    | inr no_ctrl ↦ elim (Bool-cases (leb 128 s)) [
      | inl up ↦
          let no_caps : (s % 128 == 58 && not (leb 128 s)) ≡ false = ground arith in
          rw (no_shift, no_ctrl, no_caps, up, key_down_up k (s % 128)) (v, refl)
      | inr down ↦ elim (Bool-cases (s % 128 == 58)) [
        | inl hit ↦
            rw (no_shift, no_ctrl, hit, down)
              (flags-Refines k k.shift_pressed k.ctrl_pressed (not k.caps_lock) v)
        | inr plain ↦
            rw (no_shift, no_ctrl, plain, down) (key_down-Refines k (s % 128) v (omega arith))
      ]
    ]
  ]
]

-- On a valid buffer, every scancode keeps it valid and acts on the view as `press` does.
pub keyboard_handler-press :
    (k : Keyboard) (s : ℕ)
    → IsValid k
    → s < 256
    → IsValid (keyboard_handler k s) × (view (keyboard_handler k s) ≡ press (view k) s)
keyboard_handler-press k s v lt = rw (handler_lem k s lt) (handled-Refines k s v)
