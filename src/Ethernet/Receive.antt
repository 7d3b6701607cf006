-- ===== src/Ethernet/Receive.antt =====
-- Receiving in drivers/ethernet/realtek/rtl8111.c.
use valiant_core.Base.{
  ℕ, ◌+◌, ◌*◌, ◌≤◌, ◌<◌, ◌≡◌, ◌≢◌, ◌⊎◌, refl, inl, inr, arith, if_cases, ◌∷◌, ltb, ◌==◌, u8, u16,
  u32, bit_and, pos, negsuc,
}
use valiant_core.Ports.{History, Hardware, out16, in16}
use valiant_core.Ethernet.{Rtl, Ram, Received, rtl_port, rx_buf_size, take_packet, rtl8111_receive}
use valiant_core.Ethernet.Send.{copy_lem}

module _ (hw : Hardware) (ram : Ram) (r : Rtl) (buf : ℕ → ℕ) (len : ℕ) (h : History) where
  -- The accesses: the status is read, the packet acknowledged, and the place of the packet read.
  abbrev pub status_read : History
  status_read = in16 (rtl_port r.rtl_base 0x3E) ∷ h

  abbrev pub place_read : History
  place_read = in16 (rtl_port r.rtl_base 0x38) ∷ out16 (rtl_port r.rtl_base 0x3E) 1 ∷ status_read

  abbrev pub status : ℕ
  status = u16 (hw status_read)

  abbrev pub place : ℕ
  place = u16 (hw place_read)

  -- The two bytes behind the first two of the packet's header.
  abbrev pub pkt_len : ℕ
  pkt_len = u8 (ram place_read (place + 2)) + 256 * u8 (ram place_read (place + 3))

  abbrev pub Takes : Received → Type 0
  Takes x =
      ((j : ℕ) → j < pkt_len → x.buf j ≡ u8 (ram place_read (place + 4 + j)))
      × ((j : ℕ) → pkt_len ≤ j → x.buf j ≡ buf j)
      × (x.len ≡ pkt_len)
      × (x.result ≡ pos 1)
      × (x.driver ≡ record r { rx_packets = u32 (r.rx_packets + 1) })
      × (x.ports ≡ place_read)

  take_packet-Takes : Takes (take_packet hw ram r buf len status_read)
  unfolding take_packet
  take_packet-Takes =
      if_cases Takes (ltb rx_buf_size pkt_len) (λ e. absurd (ground arith))
        (λ e.
          let (copied, rest) = copy_lem (λ j. u8 (ram place_read (place + 4 + j))) pkt_len buf in
          (copied, rest, omega arith, refl, refl, refl))

  abbrev pub Receives : Received → Type 0
  Receives x =
      ((r.rtl_base ≡ 0)
        × (x ≡ record { result = negsuc 0; driver = r; buf = buf; len = len; ports = h }))
      ⊎ ((0 < r.rtl_base)
          × (bit_and status 1 ≡ 0)
          × (x ≡ record { result = pos 0; driver = r; buf = buf; len = len; ports = status_read }))
      ⊎ ((0 < r.rtl_base) × (bit_and status 1 ≢ 0) × Takes x)

  -- `rtl8111_receive` returns -1 without an address and 0 without a packet, and then changes
  -- nothing. Otherwise it acknowledges the packet, copies as many bytes as its header says, and no
  -- more, stores their number, counts the packet and returns 1: no packet is found too large.
  pub rtl8111_receive-Receives : Receives (rtl8111_receive hw ram r buf len h)
  unfolding rtl8111_receive
  rtl8111_receive-Receives =
      if_cases Receives (r.rtl_base == 0) (λ e. inl (ground arith, refl))
        (λ base.
          if_cases Receives (bit_and status 1 == 0)
            (λ e. inr (inl (ground arith, ground arith, refl)))
            (λ e. inr (inr (ground arith, ground arith, take_packet-Takes))))
