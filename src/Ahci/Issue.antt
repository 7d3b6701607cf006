-- ===== src/Ahci/Issue.antt =====
-- Reads and writes of drivers/ahci64.c.
use valiant_core.Base.{
  ℕ, zero, suc, ◌<◌, ◌≡◌, ◌⊎◌, refl, inl, inr, arith, Bool, true, false, Bool-cases, if_cases, ◌||◌,
  ◌∷◌, ◌==◌, u32, bit_and,
}
use valiant_core.Base.Waits.{give_up}
use valiant_core.Mmio.{History, Device, load32, store32}
use valiant_core.Ahci.{
  Ahci, Layout, ahci_port_addr, is_clear, make_header, make_fis, make_prdt, wait_done, issue,
  ahci_send_cmd, transfer, ahci_read, ahci_write,
}

module _ (dev : Device) (base port : ℕ) where
  -- The reads of a round of the wait: of the commands not done, and of the status.
  abbrev pub asked : History → History
  asked h = load32 (ahci_port_addr base port 0x38) ∷ h

  abbrev pub asked_both : History → History
  asked_both h = load32 (ahci_port_addr base port 0x10) ∷ asked h

  abbrev pub is_done : History → Bool
  is_done h = bit_and (u32 (dev (asked h))) 1 == 0

  abbrev pub is_sound : History → Bool
  is_sound h = bit_and (u32 (dev (asked_both h))) 0x40000000 == 0

  unfoldable pub rounds : ℕ → History → History
  rounds zero h = h
  rounds (suc k) h = rounds k (asked_both h)

  -- In the first `k` rounds the command is neither done nor in error.
  abbrev pub Pends : ℕ → History → Type 0
  Pends k h = (j : ℕ) → j < k → (is_done (rounds j h) ≡ false) × (is_sound (rounds j h) ≡ true)

  -- The command is done in time, or an error is seen before, or neither in `n` rounds.
  abbrev pub Ends : ℕ → History → Bool × History → Type 0
  Ends n h res =
      ((k : ℕ) × (k < n)
        × Pends k h
        × (is_done (rounds k h) ≡ true)
        × (res ≡ (true, asked (rounds k h))))
      ⊎ ((k : ℕ) × (k < n)
          × Pends k h
          × (is_done (rounds k h) ≡ false)
          × (is_sound (rounds k h) ≡ false)
          × (res ≡ (false, asked_both (rounds k h))))
      ⊎ (Pends n h × (res ≡ (true, rounds n h)))

  Pends-suc :
      (k : ℕ) (h : History)
      → is_done h ≡ false
      → is_sound h ≡ true
      → Pends k (asked_both h)
      → Pends (suc k) h
  unfolding rounds
  Pends-suc k h busy sound later zero lt = (busy, sound)
  Pends-suc k h busy sound later (suc j) lt = later j (omega arith)

  Ends-suc :
      (n : ℕ) (h : History) (res : Bool × History)
      → is_done h ≡ false
      → is_sound h ≡ true
      → Ends n (asked_both h) res
      → Ends (suc n) h res
  unfolding rounds
  Ends-suc n h res busy sound (inl (k, lt, p, done, e)) =
      inl (suc k, omega arith, Pends-suc k h busy sound p, done, e)
  Ends-suc n h res busy sound (inr (inl (k, lt, p, late, broken, e))) =
      inr (inl (suc k, omega arith, Pends-suc k h busy sound p, late, broken, e))
  Ends-suc n h res busy sound (inr (inr (p, e))) = inr (inr (Pends-suc n h busy sound p, e))

  wait_done-Ends : (n : ℕ) (h : History) → Ends n h (wait_done dev base port n h)
  unfolding wait_done rounds
  wait_done-Ends zero h = inr (inr ((λ j lt. absurd (omega arith)), refl))
  wait_done-Ends (suc n) h = elim (Bool-cases (is_done h)) [
    | inl ready ↦
        rw (ready, wait_done) (inl (0, omega arith, (λ j lt. absurd (omega arith)), ready, refl))
    | inr busy ↦ elim (Bool-cases (is_sound h)) [
      | inl sound ↦
          rw (busy, wait_done, sound) (Ends-suc n h _ busy sound (wait_done-Ends n (asked_both h)))
      | inr broken ↦
          rw (busy, wait_done, broken)
            (inr (inl (0, omega arith, (λ j lt. absurd (omega arith)), busy, broken, refl)))
    ]
  ]

module _ (dev : Device) (l : Layout) (lba count buf : ℕ) (write : Bool) (s : Ahci) where
  -- The port is free, or has been waited for in vain, and the command is issued.
  abbrev pub issued : ℕ → History
  issued port =
      store32 (ahci_port_addr s.base port 0x38) 1
      ∷ give_up (is_clear dev (ahci_port_addr s.base port 0x20) 0x88) 1000 s.regs

  abbrev pub IsRefused : Type 0
  IsRefused = (s.initialized ≡ 0) ⊎ (buf ≡ 0) ⊎ (count ≡ 0) ⊎ (s.port_count ≡ 0)

  abbrev pub IsAccepted : Type 0
  IsAccepted = (0 < s.initialized) × (0 < buf) × (0 < count) × (0 < s.port_count)

  -- The command for the first port is made, issued and waited for.
  abbrev pub IsIssued : Bool × Ahci → Type 0
  IsIssued res =
      (h' : History) × Ends dev s.base (s.port_num 0) 100000 (issued (s.port_num 0)) (res.0, h')
      × (res.1 ≡ record s {
        header = make_header l write;
        table = record { cfis = make_fis lba count write; prdt = make_prdt buf count };
        regs = h';
      })

  abbrev pub Transfers : Bool × Ahci → Type 0
  Transfers res = (IsRefused × (res ≡ (false, s))) ⊎ (IsAccepted × IsIssued res)

  nothing_there : buf == 0 || count == 0 ≡ true → IsRefused
  nothing_there e = elim (Bool-cases (buf == 0)) [
    | inl no_buf ↦ inr (inl (ground arith))
    | inr a_buf ↦ inr (inr (inl (ground arith)))
  ]

  transfer-Transfers : Transfers (transfer dev l lba count buf write s)
  unfolding transfer ahci_send_cmd issue
  transfer-Transfers =
      if_cases Transfers (s.initialized == 0) (λ e. inl (inl (ground arith), refl))
        (λ ready.
          if_cases Transfers (buf == 0 || count == 0) (λ e. inl (nothing_there e, refl))
            (λ wanted.
              if_cases Transfers (s.port_count == 0)
                (λ e. inl (inr (inr (inr (ground arith))), refl))
                (λ there.
                  if_cases Transfers (buf == 0 || count == 0) (λ e. absurd (ground arith))
                    (λ e. inr (
                      (ground arith, ground arith, ground arith, ground arith),
                      (
                        (issue dev s.base (s.port_num 0) s.regs).1,
                        wait_done-Ends dev s.base (s.port_num 0) 100000 (issued (s.port_num 0)),
                        refl,
                      ),
                    )))))

module _ (dev : Device) (l : Layout) (lba count buf : ℕ) (s : Ahci) where
  -- A read or write is refused, with nothing changed, before `ahci_init` has found a port, without a
  -- buffer and for no sector. Otherwise its command goes to the first port, and it fails exactly
  -- where an error is seen in one of 100000 rounds before the command is done: it succeeds also
  -- where the command is done in none of them.
  pub ahci_transfer-Transfers :
      Transfers dev l lba count buf false s (ahci_read dev l lba count buf s)
      × Transfers dev l lba count buf true s (ahci_write dev l lba count buf s)
  unfolding ahci_read ahci_write
  ahci_transfer-Transfers = (
    transfer-Transfers dev l lba count buf false s,
    transfer-Transfers dev l lba count buf true s,
  )
