-- ===== src/Ethernet/Calls.antt =====
-- Sequences of calls of drivers/ethernet/realtek/rtl8111.c.
use valiant_core.Base.{
  ℕ, zero, suc, ◌+◌, ◌%◌, ◌^◌, ◌≤◌, ◌<◌, ◌≡◌, refl, inl, inr, arith, Bool, Bool-cases, Option-cases,
  some, List, [], ◌∷◌, ◌==◌, u32, if_keep, ltb,
}
use valiant_core.Base.Bits.{bit_and_high}
use valiant_core.Ports.{History, Hardware}
use valiant_core.Ethernet.{
  Rtl, Ram, pci_read32, is_rtl, take_device, find_on_bus, find_from, rtl_find_device,
  rtl_check_cable, set_up, rtl8111_init, transmit, rtl8111_send, rtl8111_receive,
  rtl8111_irq_handler, tx_buf_size,
}
use valiant_core.Ethernet.Receive.{rtl8111_receive-Receives}

-- The calls, with their arguments.
pub data Call : Type 0 where
  init : (rx_buf : ℕ) → Call
  send : (tx_buf : ℕ) → (data' : ℕ → ℕ) → (len : ℕ) → Call
  receive : Call
  irq : Call

-- The variables and the accesses after a call; the results of `receive` are its caller's.
unfoldable pub step : Hardware → Ram → Call → Rtl × History → Rtl × History
step hw ram (init rx_buf) (r, h) = let (ok, r', h') = rtl8111_init hw rx_buf r h in (r', h')
step hw ram (send tx_buf data' len) (r, h) =
    let (ok, r', h') = rtl8111_send hw tx_buf r data' len h in (r', h')
step hw ram receive (r, h) = let x = rtl8111_receive hw ram r (λ j. 0) 0 h in (x.driver, x.ports)
step hw ram irq (r, h) = rtl8111_irq_handler hw r h

-- The calls, the first one first.
unfoldable pub run : Hardware → Ram → List Call → Rtl × History → Rtl × History
run hw ram [] s = s
run hw ram (c ∷ cs) s = run hw ram cs (step hw ram c s)

-- The variables at the start.
abbrev pub rtl_start : Rtl
rtl_start = record {
  rtl_base = 0;
  rtl_mac = λ i. 0;
  cable_status = 0;
  rx_packets = 0;
  rx_errors = 0;
  tx_packets = 0;
  tx_error = 0;
  tx_buf = λ i. 0;
}

pub record IsDriver (r : Rtl) : Type 0 where
  pub aligned : r.rtl_base % 16 ≡ 0
  pub cable : r.cable_status ≤ 1
  pub rx_counted : r.rx_packets < 2 ^ 32
  pub tx_counted : r.tx_packets < 2 ^ 32
  pub no_rx_errors : r.rx_errors ≡ 0
  pub no_tx_errors : r.tx_error ≡ 0

module _ (hw : Hardware) where
  take_device-aligned : (bus slot : ℕ) (h : History) → (take_device hw bus slot h).0 % 16 ≡ 0
  unfolding take_device
  take_device-aligned bus slot h = omega (arith, bit_and_high 4 _ 268435455)

  find_on_bus-aligned :
      (bus n slot b : ℕ) (h : History) → (find_on_bus hw bus n slot h).0 ≡ some b → b % 16 ≡ 0
  unfolding find_on_bus
  find_on_bus-aligned bus zero slot b h e = ground arith
  find_on_bus-aligned bus (suc n) slot b h e =
      let (id, h1) = pci_read32 hw bus slot 0 0 h in
      elim (Bool-cases (is_rtl id)) [
        | inl hit ↦ ground (arith, take_device-aligned bus slot h1)
        | inr miss ↦ find_on_bus-aligned bus n (suc slot) b h1 (ground arith)
      ]

  find_from-aligned : (n bus : ℕ) (h : History) → (find_from hw n bus h).0 % 16 ≡ 0
  unfolding find_from
  find_from-aligned zero bus h = refl
  find_from-aligned (suc n) bus h =
      let (found, h1) = find_on_bus hw bus 32 0 h in
      elim (Option-cases found) [
        | inl missed ↦ rw (missed, find_from) (find_from-aligned n (suc bus) h1)
        | inr (base, hit) ↦ rw (hit, find_from) (find_on_bus-aligned bus 32 0 base h hit)
      ]

  rtl_find_device-aligned : (h : History) → (rtl_find_device hw h).0 % 16 ≡ 0
  unfolding rtl_find_device
  rtl_find_device-aligned h = find_from-aligned 256 0 h

  rtl_check_cable-bound : (base : ℕ) (h : History) → (rtl_check_cable hw base h).0 ≤ 1
  unfolding rtl_check_cable
  rtl_check_cable-bound base h = ground arith

  set_up-IsDriver :
      (rx_buf : ℕ) (r : Rtl) (h : History) → IsDriver r → IsDriver (set_up hw rx_buf r h).0
  unfolding set_up
  set_up-IsDriver rx_buf r h v = record {
    aligned = v.aligned;
    cable = rtl_check_cable-bound r.rtl_base _;
    rx_counted = v.rx_counted;
    tx_counted = v.tx_counted;
    no_rx_errors = v.no_rx_errors;
    no_tx_errors = v.no_tx_errors;
  }

  init-IsDriver :
      (rx_buf : ℕ) (r : Rtl) (h : History) → IsDriver r → IsDriver (rtl8111_init hw rx_buf r h).1
  unfolding rtl8111_init
  init-IsDriver rx_buf r h v =
      let base = (rtl_find_device hw h).0 in
      let found : IsDriver (record r { rtl_base = base }) = record {
        aligned = rtl_find_device-aligned h;
        cable = v.cable;
        rx_counted = v.rx_counted;
        tx_counted = v.tx_counted;
        no_rx_errors = v.no_rx_errors;
        no_tx_errors = v.no_tx_errors;
      } in
      if_keep (λ (res : Bool × Rtl × History). IsDriver res.1) (base == 0) found
        (if_keep (λ (res : Bool × Rtl × History). IsDriver res.1) _ found
          (set_up-IsDriver rx_buf _ _ found))

  counted :
      (r : Rtl) (b : ℕ → ℕ)
      → IsDriver r
      → IsDriver (record r { tx_buf = b; tx_packets = u32 (r.tx_packets + 1) })
  counted r b v = record {
    aligned = v.aligned;
    cable = v.cable;
    rx_counted = v.rx_counted;
    tx_counted = omega arith;
    no_rx_errors = v.no_rx_errors;
    no_tx_errors = v.no_tx_errors;
  }

  filled : (r : Rtl) (b : ℕ → ℕ) → IsDriver r → IsDriver (record r { tx_buf = b })
  filled r b v = record {
    aligned = v.aligned;
    cable = v.cable;
    rx_counted = v.rx_counted;
    tx_counted = v.tx_counted;
    no_rx_errors = v.no_rx_errors;
    no_tx_errors = v.no_tx_errors;
  }

  with_cable : (r : Rtl) (c : ℕ) → c ≤ 1 → IsDriver r → IsDriver (record r { cable_status = c })
  with_cable r c le v = record {
    aligned = v.aligned;
    cable = le;
    rx_counted = v.rx_counted;
    tx_counted = v.tx_counted;
    no_rx_errors = v.no_rx_errors;
    no_tx_errors = v.no_tx_errors;
  }

  send-IsDriver :
      (tx_addr : ℕ) (r : Rtl) (bytes : ℕ → ℕ) (len : ℕ) (h : History)
      → IsDriver r
      → IsDriver (rtl8111_send hw tx_addr r bytes len h).1
  unfolding rtl8111_send transmit
  send-IsDriver tx_addr r bytes len h v =
      let P = λ (res : Bool × Rtl × History). IsDriver res.1 in
      if_keep P (r.rtl_base == 0) v (
        if_keep P (r.cable_status == 0) v
          (if_keep P (ltb tx_buf_size len) v (if_keep P _ (filled r _ v) (counted r _ v))))

  irq-IsDriver : (r : Rtl) (h : History) → IsDriver r → IsDriver (rtl8111_irq_handler hw r h).0
  unfolding rtl8111_irq_handler
  irq-IsDriver r h v =
      let P = λ (s : Rtl × History). IsDriver s.0 in
      let looked = if_keep P _ v (with_cable r _ (rtl_check_cable-bound r.rtl_base _) v) in
      if_keep P (r.rtl_base == 0) v (if_keep P _ looked (counted _ _ looked))

  module _ (ram : Ram) where
    receive-IsDriver :
        (r : Rtl) (buf : ℕ → ℕ) (len : ℕ) (h : History)
        → IsDriver r
        → IsDriver (rtl8111_receive hw ram r buf len h).driver
    receive-IsDriver r buf len h v = elim (rtl8111_receive-Receives hw ram r buf len h) [
      | inl (no_base, same) ↦ rw same v
      | inr (inl (base, none_there, same)) ↦ rw same v
      | inr (inr (base, there, takes)) ↦ rw takes.4 (record {
        aligned = v.aligned;
        cable = v.cable;
        rx_counted = omega arith;
        tx_counted = v.tx_counted;
        no_rx_errors = v.no_rx_errors;
        no_tx_errors = v.no_tx_errors;
      })
    ]

    step-IsDriver : (c : Call) (s : Rtl × History) → IsDriver s.0 → IsDriver (step hw ram c s).0
    unfolding step
    step-IsDriver (init rx_buf) (r, h) v = init-IsDriver rx_buf r h v
    step-IsDriver (send tx_buf data' len) (r, h) v = send-IsDriver tx_buf r data' len h v
    step-IsDriver receive (r, h) v = receive-IsDriver r (λ j. 0) 0 h v
    step-IsDriver irq (r, h) v = irq-IsDriver r h v

    calls-IsDriver :
        (cs : List Call) (s : Rtl × History) → IsDriver s.0 → IsDriver (run hw ram cs s).0
    unfolding run
    calls-IsDriver [] s v = v
    calls-IsDriver (c ∷ cs) s v = calls-IsDriver cs (step hw ram c s) (step-IsDriver c s v)

    -- In every sequence of calls from the start, whatever the card answers, the base address is a
    -- multiple of 16, the cable's state is 0 or 1, the counts of packets have 32 bits, and no error is
    -- counted.
    pub run-IsDriver : (cs : List Call) (h : History) → IsDriver (run hw ram cs (rtl_start, h)).0
    run-IsDriver cs h =
        calls-IsDriver cs (rtl_start, h)
          (record {
            aligned = refl;
            cable = omega arith;
            rx_counted = omega arith;
            tx_counted = omega arith;
            no_rx_errors = refl;
            no_tx_errors = refl;
          })
