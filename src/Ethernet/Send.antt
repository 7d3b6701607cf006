-- ===== src/Ethernet/Send.antt =====
-- Sending in drivers/ethernet/realtek/rtl8111.c.
use valiant_core.Base.{
  ℕ, ◌+◌, ◌≤◌, ◌<◌, ◌≡◌, ◌⊎◌, refl, ◌∙◌, inl, inr, arith, Bool, true, false, dec_lt, ◌∷◌, u32,
  update, update_self, update_ne, for_range, for_range_inv, ltb, if_cases, ◌==◌,
}
use valiant_core.Base.Waits.{count_down, InTime, IsLate, count_down-cases}
use valiant_core.Ports.{History, Hardware, out32}
use valiant_core.Ethernet.{Rtl, rtl_port, tx_buf_size, transmitted, transmit, rtl8111_send}

-- The loop that copies `n` bytes.
pub copy_lem :
    (f : ℕ → ℕ) (n : ℕ) (b : ℕ → ℕ)
    → ((j : ℕ) → j < n → for_range n 0 (λ i t. update t i (f i)) b j ≡ f j)
      × ((j : ℕ) → n ≤ j → for_range n 0 (λ i t. update t i (f i)) b j ≡ b j)
copy_lem f n b =
    for_range_inv (λ k (t : ℕ → ℕ). ((j : ℕ) → j < k → t j ≡ f j) × ((j : ℕ) → k ≤ j → t j ≡ b j))
      (λ i t. update t i (f i)) n 0 n b (omega arith)
      (λ k t lt (copied, rest). (
        λ j below. elim (dec_lt j k) [
          | yes old ↦ update_ne t k (f k) j (λ e. omega (arith, e)) ∙ copied j old
          | no stop ↦ let here : k ≡ j = omega arith in rw (← here) (update_self t k (f k))
        ],
        λ j le. update_ne t k (f k) j (λ e. omega (arith, e)) ∙ rest j (omega arith),
      ))
      ((λ j lt. absurd (omega arith)), λ j le. refl)

-- The accesses that start the transmission.
abbrev pub started : Rtl → ℕ → ℕ → History → History
started r tx_addr len h =
    out32 (rtl_port r.rtl_base 0x10) (u32 len) ∷ out32 (rtl_port r.rtl_base 0x20) (u32 tx_addr) ∷ h

-- A packet is turned away.
abbrev pub IsRefused : Rtl → ℕ → Type 0
IsRefused r len = (r.rtl_base ≡ 0) ⊎ (r.cable_status ≡ 0) ⊎ (tx_buf_size < len)

-- The buffer holds the packet, and behind it what it held.
abbrev pub HoldsPacket : Rtl → (ℕ → ℕ) → ℕ → (ℕ → ℕ) → Type 0
HoldsPacket r bytes len b =
    ((j : ℕ) → j < len → b j ≡ bytes j) × ((j : ℕ) → len ≤ j → b j ≡ r.tx_buf j)

module _ (hw : Hardware) (tx_addr : ℕ) (r : Rtl) (bytes : ℕ → ℕ) (len : ℕ) (h : History) where
  abbrev pub Transmits : Bool × Rtl × History → Type 0
  Transmits res =
      (b : ℕ → ℕ) × HoldsPacket r bytes len b
      × (h' : History) × ((InTime (transmitted hw r.rtl_base) 100000 (started r tx_addr len h) h'
            × (res ≡ (true, record r { tx_buf = b; tx_packets = u32 (r.tx_packets + 1) }, h')))
          ⊎ (IsLate (transmitted hw r.rtl_base) 100000 (started r tx_addr len h) h'
              × (res ≡ (false, record r { tx_buf = b }, h'))))

  transmit-Transmits : Transmits (transmit hw tx_addr r bytes len h)
  unfolding transmit
  transmit-Transmits =
      let b = for_range len 0 (λ i t. update t i (bytes i)) r.tx_buf in
      let h1 = started r tx_addr len h in
      let wait = count_down (transmitted hw r.rtl_base) 100000 h1 in
      (
        b,
        copy_lem bytes len r.tx_buf,
        wait.1,
        elim (count_down-cases (transmitted hw r.rtl_base) 100000 h1) [
          | inl (soon, left) ↦ inl (soon, rw left refl)
          | inr (late, left) ↦ inr (late, rw left refl)
        ],
      )

  abbrev pub Sends : Bool × Rtl × History → Type 0
  Sends res =
      (IsRefused r len × (res ≡ (false, r, h)))
      ⊎ ((0 < r.rtl_base) × (0 < r.cable_status) × (len ≤ tx_buf_size) × Transmits res)

  -- Without an address, without a cable and with more bytes than the buffer holds, `rtl8111_send`
  -- changes nothing and returns -1. Otherwise it puts the packet in the buffer and starts the card,
  -- and either counts the packet and returns 0, because one of the first 100000 reads of the
  -- status reported it sent, or returns -1 because none did.
  pub rtl8111_send-Sends : Sends (rtl8111_send hw tx_addr r bytes len h)
  unfolding rtl8111_send
  rtl8111_send-Sends =
      if_cases Sends (r.rtl_base == 0) (λ e. inl (inl (ground arith), refl))
        (λ base.
          if_cases Sends (r.cable_status == 0) (λ e. inl (inr (inl (ground arith)), refl))
            (λ cable.
              if_cases Sends (ltb tx_buf_size len) (λ e. inl (inr (inr (ground arith)), refl))
                (λ fits. inr (ground arith, ground arith, ground arith, transmit-Transmits))))
