-- ===== src/Keyboard/Queue.antt =====
-- The ring buffer of drivers/keyboard.c as a queue of at most 255 characters.
use valiant_core.Base.{
  ℕ, zero, suc, ◌+◌, ◌-◌, ◌%◌, ◌≤◌, ◌<◌, ◌≡◌, ◌≢◌, refl, sym, ap, subst, ◌∙◌, List, [], ◌∷◌, ◌++◌,
  arith, true, false, ltb, ◌==◌, if◌then◌else◌, update, update_self, update_ne, length, u32,
  ℕ_discrete,
}
use valiant_core.Keyboard.{Keyboard, kbd_buffer_size, kbd_buffer_push, keyboard_getchar}

abbrev pub IsValid : Keyboard → Type 0
IsValid k = (k.kbd_head < kbd_buffer_size) × (k.kbd_tail < kbd_buffer_size)

-- The `n` characters round the ring from `t` on.
unfoldable pub ring : (ℕ → ℕ) → ℕ → ℕ → List ℕ
ring b t zero = []
ring b t (suc n) = b t ∷ ring b ((t + 1) % kbd_buffer_size) n

abbrev pub size : Keyboard → ℕ
size k = (k.kbd_head + kbd_buffer_size - k.kbd_tail) % kbd_buffer_size

-- What the buffer holds, the oldest character first.
unfoldable pub queue : Keyboard → List ℕ
unfolding ring
queue k = ring k.kbd_buffer k.kbd_tail (size k)

length-ring : (b : ℕ → ℕ) (t n : ℕ) → length (ring b t n) ≡ n
unfolding ring
length-ring b t zero = refl
length-ring b t (suc n) = omega (arith, length-ring b ((t + 1) % kbd_buffer_size) n)

ring_snoc :
    (b : ℕ → ℕ) (t n : ℕ)
    → t < kbd_buffer_size
    → ring b t (suc n) ≡ ring b t n ++ b ((t + n) % kbd_buffer_size) ∷ []
unfolding ring
ring_snoc b t zero h =
    let here : (t + 0) % kbd_buffer_size ≡ t = omega arith in ap (λ i. b i ∷ []) (sym here)
ring_snoc b t (suc n) h =
    let t' = (t + 1) % kbd_buffer_size in
    let same : (t' + n) % kbd_buffer_size ≡ (t + suc n) % kbd_buffer_size = omega arith in
    ap (λ l. b t ∷ l) (ring_snoc b t' n (omega arith) ∙ ap (λ i. ring b t' n ++ b i ∷ []) same)

-- A write outside the `n` characters does not change them.
ring-update :
    (b : ℕ → ℕ) (i c t n : ℕ)
    → t < kbd_buffer_size
    → i < kbd_buffer_size
    → n ≤ (i + kbd_buffer_size - t) % kbd_buffer_size
    → ring (update b i c) t n ≡ ring b t n
unfolding ring
ring-update b i c t zero h hi far = refl
ring-update b i c t (suc n) h hi far =
    let apart : update b i c t ≡ b t = update_ne b i c t (λ e. omega arith) in
    rw (apart, ring-update b i c ((t + 1) % kbd_buffer_size) n (omega arith) hi (omega arith))

-- The queue of at most 255 characters that drops what does not fit.
abbrev pub put : List ℕ → ℕ → List ℕ
put q c = if ltb (length q) 255 then q ++ c ∷ [] else q

pub length-queue : (k : Keyboard) → length (queue k) ≡ size k
unfolding queue
length-queue k = length-ring k.kbd_buffer k.kbd_tail (size k)

-- A push that finds room.
push_room :
    (k : Keyboard) (c : ℕ)
    → IsValid k
    → (k.kbd_head + 1) % kbd_buffer_size ≢ k.kbd_tail
    → ring
        (update k.kbd_buffer k.kbd_head c)
        k.kbd_tail
        (((k.kbd_head + 1) % kbd_buffer_size + kbd_buffer_size - k.kbd_tail) % kbd_buffer_size)
      ≡ queue k ++ c ∷ []
unfolding queue
push_room k c v room =
    let b = update k.kbd_buffer k.kbd_head c in
    let grows : ((k.kbd_head + 1) % kbd_buffer_size + kbd_buffer_size - k.kbd_tail)
          % kbd_buffer_size
        ≡ suc (size k) =
      omega (arith, room) in
    let last : (k.kbd_tail + size k) % kbd_buffer_size ≡ k.kbd_head = omega arith in
    rw (
      grows,
      ring_snoc b k.kbd_tail (size k) v.1,
      last,
      update_self k.kbd_buffer k.kbd_head c,
      ring-update k.kbd_buffer k.kbd_head c k.kbd_tail (size k) v.1 v.0 (omega arith),
    )

abbrev pushed : Keyboard → ℕ → Keyboard
pushed k c = record k {
  kbd_buffer = update k.kbd_buffer k.kbd_head c;
  kbd_head = (k.kbd_head + 1) % kbd_buffer_size;
}

push_full :
    (k : Keyboard) (c : ℕ)
    → IsValid k
    → (k.kbd_head + 1) % kbd_buffer_size ≡ k.kbd_tail
    → kbd_buffer_push k c ≡ k
unfolding kbd_buffer_push
push_full k c v full = ground arith

push_fits :
    (k : Keyboard) (c : ℕ)
    → IsValid k
    → (k.kbd_head + 1) % kbd_buffer_size ≢ k.kbd_tail
    → kbd_buffer_push k c ≡ pushed k c
unfolding kbd_buffer_push
push_fits k c v room =
    let next : u32 (k.kbd_head + 1) % kbd_buffer_size ≡ (k.kbd_head + 1) % kbd_buffer_size =
      omega arith in
    let open_slot : ((k.kbd_head + 1) % kbd_buffer_size == k.kbd_tail) ≡ false =
      ground (arith, room) in
    rw (next, open_slot) refl

-- On a valid buffer, a push is `put` on the queue, and leaves the buffer valid.
pub kbd_buffer_push-queue :
    (k : Keyboard) (c : ℕ)
    → IsValid k
    → IsValid (kbd_buffer_push k c) × (queue (kbd_buffer_push k c) ≡ put (queue k) c)
kbd_buffer_push-queue k c v = elim (ℕ_discrete ((k.kbd_head + 1) % kbd_buffer_size) k.kbd_tail) [
  | yes full ↦
      let no_room : ltb (length (queue k)) 255 ≡ false = ground (arith, length-queue k) in
      rw (push_full k c v full, no_room) (v, refl)
  | no room ↦
      let fits : ltb (length (queue k)) 255 ≡ true = ground (arith, length-queue k, room) in
      rw (push_fits k c v room, fits) ((omega arith, v.1), unfold queue in push_room k c v room)
]

-- What a reader of the queue sees.
pub data Read (q : List ℕ) : List ℕ → ℕ → Type 0 where
  nothing : q ≡ [] → Read q [] 0
  oldest : {c : ℕ} {rest : List ℕ} → q ≡ c ∷ rest → Read q rest c

getchar_none : (k : Keyboard) → k.kbd_head ≡ k.kbd_tail → keyboard_getchar k ≡ (k, 0)
unfolding keyboard_getchar
getchar_none k e = ground arith

getchar_some :
    (k : Keyboard)
    → IsValid k
    → k.kbd_head ≢ k.kbd_tail
    → keyboard_getchar k
      ≡ (record k { kbd_tail = (k.kbd_tail + 1) % kbd_buffer_size }, k.kbd_buffer k.kbd_tail)
unfolding keyboard_getchar
getchar_some k v ne =
    let next : u32 (k.kbd_tail + 1) % kbd_buffer_size ≡ (k.kbd_tail + 1) % kbd_buffer_size =
      omega arith in
    let some_left : (k.kbd_head == k.kbd_tail) ≡ false = ground (arith, ne) in
    rw (next, some_left) refl

queue_none : (k : Keyboard) → IsValid k → k.kbd_head ≡ k.kbd_tail → queue k ≡ []
unfolding queue ring
queue_none k v e = let none_left : size k ≡ 0 = omega arith in rw none_left refl

queue_some :
    (k : Keyboard)
    → IsValid k
    → k.kbd_head ≢ k.kbd_tail
    → queue k
      ≡ k.kbd_buffer k.kbd_tail ∷ queue (record k { kbd_tail = (k.kbd_tail + 1) % kbd_buffer_size })
unfolding queue ring
queue_some k v ne =
    let t' = (k.kbd_tail + 1) % kbd_buffer_size in
    let more : size k ≡ suc ((k.kbd_head + kbd_buffer_size - t') % kbd_buffer_size) =
      omega (arith, ne) in
    ap (ring k.kbd_buffer k.kbd_tail) more

-- On a valid buffer, `keyboard_getchar` takes the oldest character of the queue, or yields 0 and
-- changes nothing where the queue is empty.
pub keyboard_getchar-queue :
    (k : Keyboard)
    → IsValid k
    → IsValid (keyboard_getchar k).0
      × Read (queue k) (queue (keyboard_getchar k).0) (keyboard_getchar k).1
keyboard_getchar-queue k v = elim (ℕ_discrete k.kbd_head k.kbd_tail) [
  | yes e ↦
      rw (getchar_none k e) (v, subst (λ q. Read q q 0) (sym (queue_none k v e)) (nothing refl))
  | no ne ↦ rw (getchar_some k v ne) ((v.0, omega arith), oldest (queue_some k v ne))
]
