-- ===== src/Uart/Print.antt =====
-- What drivers/uart/uart64.c sends.
use valiant_core.Base.{
  ℕ, zero, suc, ◌<◌, ◌≡◌, refl, sym, ap, ◌∙◌, inl, inr, arith, Bool, true, false, not, ◌&&◌, ◌||◌,
  Bool-cases, Option, some, List, [], ◌∷◌, ◌++◌, ++-[], ++_assoc, ltb, ◌==◌, if◌then◌else◌, ◌>>=◌,
  bit_and, u32,
}
use valiant_core.Base.Waits.{after, Passes, wait_for-Passes, after-keep}
use valiant_core.Mmio.{History, Device, store32, load32}
use valiant_core.Uart.{uart0_dr, uart0_fr, has_room, uart_putc, uart_print}

-- The words stored in the data register, in the order of time.
unfoldable pub sent : History → List ℕ
sent [] = []
sent (store32 addr v ∷ h) =
    let before = sent h in if addr == uart0_dr then before ++ (v ∷ []) else before
sent (_ ∷ h) = sent h

-- The last access is a read of the flags that shows room for a character.
unfoldable pub room_seen : Device → History → Bool
room_seen dev (load32 addr ∷ h) =
    addr == uart0_fr && bit_and (u32 (dev (load32 addr ∷ h))) 0x20 == 0
room_seen dev _ = false

-- Every character has been stored directly after a read of the flags that showed room for it.
unfoldable pub never_overrun : Device → History → Bool
never_overrun dev [] = true
never_overrun dev (store32 addr v ∷ h) =
    (not (addr == uart0_dr) || room_seen dev h) && never_overrun dev h
never_overrun dev (_ ∷ h) = never_overrun dev h

-- A text with a carriage return before each line feed.
unfoldable pub with_returns : List ℕ → List ℕ
with_returns [] = []
with_returns (c ∷ s) = let rest = with_returns s in if c == 10 then 13 ∷ c ∷ rest else c ∷ rest

-- A text of bytes.
unfoldable pub are_chars : List ℕ → Bool
are_chars [] = true
are_chars (c ∷ s) = let rest = are_chars s in ltb c 256 && rest

pub are_chars-++ :
    (s t : List ℕ) → are_chars s ≡ true → are_chars t ≡ true → are_chars (s ++ t) ≡ true
unfolding are_chars
are_chars-++ [] t left right = right
are_chars-++ (c ∷ s) t left right = ground (arith, are_chars-++ s t)

-- Whatever has been done, the port has room within `fuel` reads of its flags.
abbrev pub Drains : Device → ℕ → Type 0
Drains dev fuel = (h : History) → (k : ℕ) × (k < fuel) × Passes (has_room dev) k h

module _ (dev : Device) (fuel : ℕ) (drains : Drains dev fuel) where
  has_room-room_seen :
      (h : History) → (has_room dev h).0 ≡ true → room_seen dev (has_room dev h).1 ≡ true
  unfolding has_room room_seen
  has_room-room_seen h e = e

  after-room_seen :
      (k : ℕ) (h : History)
      → (has_room dev (after (has_room dev) k h)).0 ≡ true
      → room_seen dev (after (has_room dev) (suc k) h) ≡ true
  unfolding after
  after-room_seen zero h e = has_room-room_seen h e
  after-room_seen (suc k) h e = after-room_seen k (has_room dev h).1 e

  -- `P` is kept by the accesses of the port.
  module _ (P : History → Type 0) (on_load : (h : History) → P h → P (load32 uart0_fr ∷ h))
      (on_store : (c : ℕ) (h : History) → P h → P (store32 uart0_dr c ∷ h)) where
    -- A text is sent behind what was sent before, with room for each character.
    abbrev pub Sends : List ℕ → History → Option History → Type 0
    Sends s h res =
        (h' : History) × (res ≡ some h')
        × (sent h' ≡ sent h ++ s)
        × (never_overrun dev h ≡ true → never_overrun dev h' ≡ true)
        × (P h → P h')

    uart_putc-Sends : (c : ℕ) (h : History) → c < 256 → Sends (c ∷ []) h (uart_putc dev fuel c h)
    unfolding uart_putc sent never_overrun has_room
    uart_putc-Sends c h lt =
        let (k, below, p) = drains h in
        let h1 = after (has_room dev) (suc k) h in
        let room = after-room_seen k h p.1 in
        let word : u32 c ≡ c = omega arith in
        let same : sent h1 ≡ sent h =
          after-keep (has_room dev) (λ g. sent g ≡ sent h) (λ g e. e) (suc k) h refl in
        rw (wait_for-Passes (has_room dev) fuel k h below p) (
          store32 uart0_dr (u32 c) ∷ h1,
          refl,
          ap (λ (w : ℕ). sent h1 ++ (w ∷ [])) word ∙ ap (λ l. l ++ (c ∷ [])) same,
          λ e.
              rw room (
                after-keep (has_room dev) (λ g. never_overrun dev g ≡ true) (λ g q. q) (suc k) h e),
          λ q. on_store (u32 c) h1 (after-keep (has_room dev) P on_load (suc k) h q),
        )

    Sends-join :
        (s t : List ℕ) (h : History) (first : Option History) (rest : History → Option History)
        → Sends s h first
        → ((g : History) → Sends t g (rest g))
        → Sends (s ++ t) h (first >>= rest)
    Sends-join s t h first rest (h1, e1, sent1, over1, p1) later =
        let (h2, e2, sent2, over2, p2) = later h1 in
        rw e1 (
          h2,
          e2,
          sent2 ∙ ap (λ l. l ++ t) sent1 ∙ ++_assoc (sent h) s t,
          λ e. over2 (over1 e),
          λ q. p2 (p1 q),
        )

    -- A text is sent whole if the port never stays full: each character in turn, a carriage return
    -- before each line feed, and each only after a read of the flags that showed room for it. What
    -- the accesses to the flags and to the data keep is kept.
    pub uart_print-Sends :
        (s : List ℕ) (h : History)
        → are_chars s ≡ true
        → Sends (with_returns s) h (uart_print dev fuel s h)
    unfolding uart_print with_returns are_chars
    uart_print-Sends [] h chars = (h, refl, sym (++-[] (sent h)), (λ e. e), λ q. q)
    uart_print-Sends (c ∷ s) h chars =
        let line = λ (g : History).
          Sends-join (c ∷ []) (with_returns s) g (uart_putc dev fuel c g) (uart_print dev fuel s)
            (uart_putc-Sends c g (ground arith)) (λ g2. uart_print-Sends s g2 (ground arith)) in
        elim (Bool-cases (c == 10)) [
          | inl feed ↦
              rw (feed, uart_print, with_returns)
                (Sends-join (13 ∷ []) (c ∷ with_returns s) h (uart_putc dev fuel 13 h)
                  (λ g. uart_putc dev fuel c g >>= uart_print dev fuel s)
                  (uart_putc-Sends 13 h (omega arith)) line)
          | inr plain ↦ rw (plain, uart_print, with_returns) (line h)
        ]
