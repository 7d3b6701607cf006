-- ===== src/Ethernet/Init.antt =====
-- The initialisation in drivers/ethernet/realtek/rtl8111.c.
use valiant_core.Base.{
  ℕ, suc, ◌+◌, ◌≤◌, ◌<◌, ◌≡◌, ◌⊎◌, refl, ap, inl, inr, arith, Bool, if◌then◌else◌, true, false,
  if_cases, ◌∷◌, ◌==◌, ◌∙◌, dec_lt, update_self, update_ne, u8, u16, u32, bit_and, for_range_inv,
  zero,
}
use valiant_core.Base.Waits.{count_down, InTime, IsLate, count_down-cases}
use valiant_core.Ports.{History, Hardware, out8, in8, out16, out32}
use valiant_core.Ethernet.{
  Rtl, rtl_port, rtl_find_device, reset_done, read_mac_byte, rtl_read_mac, rtl_check_cable, set_up,
  rtl8111_init,
}

-- The reads of the first `n` bytes of the address.
unfoldable pub mac_reads : ℕ → ℕ → History → History
mac_reads base zero h = h
mac_reads base (suc n) h = in8 (rtl_port base n) ∷ mac_reads base n h

-- The accesses that enable the card, behind `h`, with the port of the last read.
abbrev pub enable : ℕ → ℕ → ℕ → History → History
enable port base rx_buf h =
    in8 port
    ∷ out8 (rtl_port base 0x52) 0
    ∷ out8 (rtl_port base 0x37) 0x0C
    ∷ out32 (rtl_port base 0x40) 0x03000700
    ∷ out32 (rtl_port base 0x44) 0x1F8A
    ∷ out16 (rtl_port base 0x3C) 0x2005
    ∷ out32 (rtl_port base 0x30) (u32 rx_buf)
    ∷ h

-- All accesses of the set-up.
abbrev pub enabled : ℕ → ℕ → History → History
enabled base rx_buf h = enable (rtl_port base 0x58) base rx_buf (mac_reads base 6 h)

module _ (hw : Hardware) where
  -- `n` bytes of the address have been read.
  abbrev pub HasRead : ℕ → History → (ℕ → ℕ) → ℕ → (ℕ → ℕ) × History → Type 0
  HasRead base h old n s =
      ((j : ℕ) → j < n → s.0 j ≡ u8 (hw (mac_reads base (suc j) h)))
      × ((j : ℕ) → n ≤ j → s.0 j ≡ old j)
      × (s.1 ≡ mac_reads base n h)

  read_mac_byte-HasRead :
      (base : ℕ) (mac : ℕ → ℕ) (h : History) (k : ℕ) (s : (ℕ → ℕ) × History)
      → HasRead base h mac k s
      → HasRead base h mac (suc k) (read_mac_byte hw base k s)
  unfolding read_mac_byte mac_reads
  read_mac_byte-HasRead base mac h k (m, g) (copied, rest, at) =
      let p = u16 (u16 base + (0x00 + k)) in
      let same : p ≡ rtl_port base k = omega arith in
      let read : in8 p ∷ g ≡ mac_reads base (suc k) h =
        ap (λ (t : ℕ). in8 t ∷ g) same ∙ ap (λ l. in8 (rtl_port base k) ∷ l) at in
      (
        λ j below. elim (dec_lt j k) [
          | yes old ↦ update_ne m k _ j (λ e. omega (arith, e)) ∙ copied j old
          | no stop ↦
              let here : k ≡ j = omega arith in
              rw (← here) (update_self m k _ ∙ ap (λ t. u8 (hw t)) read)
        ],
        λ j le. update_ne m k _ j (λ e. omega (arith, e)) ∙ rest j (omega arith),
        read,
      )

  rtl_read_mac-HasRead :
      (base : ℕ) (mac : ℕ → ℕ) (h : History) → HasRead base h mac 6 (rtl_read_mac hw base mac h)
  unfolding rtl_read_mac mac_reads
  rtl_read_mac-HasRead base mac h =
      for_range_inv (λ k s. HasRead base h mac k s) (read_mac_byte hw base) 6 0 6 (mac, h) refl
        (λ k s lt done. read_mac_byte-HasRead base mac h k s done)
        ((λ j lt. absurd (omega arith)), (λ j le. refl), refl)

  -- The card is enabled by the accesses above. The address is the six bytes read, and the cable is there
  -- if the bit 2 of the last read says so; nothing else is changed.
  abbrev pub SetsUp : ℕ → Rtl → History → Rtl × History → Type 0
  SetsUp rx_buf r h (r', h') =
      (h' ≡ enabled r.rtl_base rx_buf h)
      × ((j : ℕ) → j < 6 → r'.rtl_mac j ≡ u8 (hw (mac_reads r.rtl_base (suc j) h)))
      × ((j : ℕ) → 6 ≤ j → r'.rtl_mac j ≡ r.rtl_mac j)
      × (r'.cable_status
          ≡ (if bit_and (u8 (hw (enabled r.rtl_base rx_buf h))) 4 == 0 then 0 else 1))
      × (r' ≡ record r { rtl_mac = r'.rtl_mac; cable_status = r'.cable_status })

  set_up-SetsUp : (rx_buf : ℕ) (r : Rtl) (h : History) → SetsUp rx_buf r h (set_up hw rx_buf r h)
  unfolding set_up rtl_check_cable
  set_up-SetsUp rx_buf r h =
      let (copied, rest, at) = rtl_read_mac-HasRead r.rtl_base r.rtl_mac h in
      let same : u16 (u16 r.rtl_base + 0x58) ≡ rtl_port r.rtl_base 0x58 = omega arith in
      let reached : (set_up hw rx_buf r h).1 ≡ enabled r.rtl_base rx_buf h =
        ap (λ (t : ℕ). enable t r.rtl_base rx_buf (rtl_read_mac hw r.rtl_base r.rtl_mac h).1) same
        ∙ ap (enable (rtl_port r.rtl_base 0x58) r.rtl_base rx_buf) at in
      (reached, copied, rest, ap (λ t. if bit_and (u8 (hw t)) 4 == 0 then 0 else 1) reached, refl)

module _ (hw : Hardware) (rx_buf : ℕ) (r : Rtl) (h : History) where
  abbrev pub base : ℕ
  base = (rtl_find_device hw h).0

  -- The command to reset.
  abbrev pub reset : History
  reset = out8 (rtl_port base 0x37) 0x10 ∷ (rtl_find_device hw h).1

  abbrev pub with_base : Rtl
  with_base = record r { rtl_base = base }

  abbrev pub IsReset : Bool × Rtl × History → Type 0
  IsReset res =
      (h' : History) × ((InTime (reset_done hw base) 10000 reset h'
          × ((res.0 ≡ true) × SetsUp hw rx_buf with_base h' (res.1, res.2)))
        ⊎ (IsLate (reset_done hw base) 10000 reset h' × (res ≡ (false, with_base, h'))))

  abbrev pub Inits : Bool × Rtl × History → Type 0
  Inits res =
      ((base ≡ 0) × (res ≡ (false, with_base, (rtl_find_device hw h).1)))
      ⊎ ((0 < base) × IsReset res)

  -- Without a card `rtl8111_init` returns -1. With one it orders a reset, and returns -1 again if none
  -- of the first 10000 reads of the command register shows that it is over; if one does, it goes
  -- on with the set-up from there and returns 0. The base address is kept on every branch.
  pub rtl8111_init-Inits : Inits (rtl8111_init hw rx_buf r h)
  unfolding rtl8111_init
  rtl8111_init-Inits =
      if_cases Inits (base == 0) (λ e. inl (ground arith, refl))
        (λ e. inr (
          ground arith,
          (
            (count_down (reset_done hw base) 10000 reset).1,
            elim (count_down-cases (reset_done hw base) 10000 reset) [
              | inl (soon, left) ↦ inl (soon, rw left (refl, set_up-SetsUp hw rx_buf with_base _))
              | inr (late, left) ↦ inr (late, rw left refl)
            ],
          ),
        ))
