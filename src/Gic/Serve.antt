-- ===== src/Gic/Serve.antt =====
-- The handler of interrupts of arch/aarch64/irq_handler64.c.
use valiant_core.Base.{
  ℕ, zero, suc, ◌+◌, ◌^◌, ◌<◌, ◌≡◌, refl, sym, ap, ◌∙◌, inl, inr, arith, true, Bool-cases, not,
  ◌&&◌, if_keep, Option, some, List, [], ◌∷◌, ◌++◌, ++-[], ++_assoc, ◌==◌, if◌then◌else◌, ◌>>=◌,
  u32, u64, bit_and,
}
use valiant_core.Base.Bits.{bit_and_low}
use valiant_core.Mmio.{History, Device, store32, store8, load32, msr, mrs}
use valiant_core.Uart.Print.{Drains, are_chars, uart_print-Sends}
use valiant_core.Gic.{
  Timer, spurious, gic_acknowledge, gic_end_of_interrupt, timer_handler, irq_message, serve,
  irq_handler_aarch64,
}

-- The number that a read of the acknowledge register yields.
abbrev pub number : ℕ → ℕ
number word = bit_and (u32 word) 0x3FF

-- The interrupts acknowledged, without the spurious ones, in the order of time.
unfoldable pub acknowledged : Device → History → List ℕ
acknowledged dev [] = []
acknowledged dev (load32 addr ∷ h) =
    let before = acknowledged dev h in
    let irq = number (dev (load32 addr ∷ h)) in
    if addr == 0x0801000C && not (irq == spurious) then before ++ (irq ∷ []) else before
acknowledged dev (store32 addr v ∷ h) = acknowledged dev h
acknowledged dev (store8 addr v ∷ h) = acknowledged dev h
acknowledged dev (msr reg v ∷ h) = acknowledged dev h
acknowledged dev (mrs reg ∷ h) = acknowledged dev h

-- The interrupts ended, in the order of time.
unfoldable pub ended : History → List ℕ
ended [] = []
ended (store32 addr v ∷ h) =
    let before = ended h in if addr == 0x08010010 then before ++ (v ∷ []) else before
ended (_ ∷ h) = ended h

unfoldable pub count : ℕ → List ℕ → ℕ
count n [] = 0
count n (m ∷ l) = let rest = count n l in if m == n then suc rest else rest

count-++ : (n : ℕ) (s t : List ℕ) → count n (s ++ t) ≡ count n s + count n t
unfolding count
count-++ n [] t = omega arith
count-++ n (m ∷ s) t = ground (arith, count-++ n s t)

-- `n` interrupts in a row.
unfoldable pub interrupts : Device → ℕ → ℕ → Timer × History → Option (Timer × History)
interrupts dev fuel zero s = some s
interrupts dev fuel (suc n) s = do s' ← irq_handler_aarch64 dev fuel s; interrupts dev fuel n s'

module _ (dev : Device) (fuel : ℕ) (drains : Drains dev fuel) where
  -- The interrupts of a list have been acknowledged and ended, and the timer's have been counted.
  abbrev pub Serves : List ℕ → Timer × History → Option (Timer × History) → Type 0
  Serves irqs (t, h) res =
      (t' : Timer) × (h' : History) × (res ≡ some (t', h'))
      × (acknowledged dev h' ≡ acknowledged dev h ++ irqs)
      × (ended h' ≡ ended h ++ irqs)
      × (t'.timer_ticks ≡ u64 (t.timer_ticks + count 30 irqs))
      × (t'.timer_freq ≡ t.timer_freq)

  irq_message-are_chars : (irq : ℕ) → are_chars (irq_message irq) ≡ true
  unfolding irq_message are_chars
  irq_message-are_chars irq = if_keep (λ s. are_chars s ≡ true) (irq == 33) refl refl

  -- The work of one interrupt touches neither list.
  serve_lem :
      (irq : ℕ) (t : Timer) (h : History)
      → (t' : Timer) × (h' : History) × (serve dev fuel irq (t, h) ≡ some (t', h'))
        × (acknowledged dev h' ≡ acknowledged dev h)
        × (ended h' ≡ ended h)
        × (t'.timer_ticks ≡ (if irq == 30 then u64 (t.timer_ticks + 1) else t.timer_ticks))
        × (t'.timer_freq ≡ t.timer_freq)
  unfolding serve timer_handler acknowledged ended
  serve_lem irq t h = elim (Bool-cases (irq == 30)) [
    | inl tick ↦
        rw (tick, serve)
          ((timer_handler t h).0, (timer_handler t h).1, refl, refl, refl, refl, refl)
    | inr other ↦
        let (h', e, sent, over, kept) =
          uart_print-Sends dev fuel drains
            (λ g. (acknowledged dev g ≡ acknowledged dev h) × (ended g ≡ ended h)) (λ g p. p)
            (λ c g p. p) (irq_message irq) h (irq_message-are_chars irq) in
        let (ack, eoi) = kept (refl, refl) in
        rw (other, serve, e) (t, h', refl, ack, eoi, refl, refl)
  ]

  irq_handler_aarch64-Serves :
      (t : Timer) (h : History)
      → t.timer_ticks < 2 ^ 64
      → (irqs : List ℕ) × Serves irqs (t, h) (irq_handler_aarch64 dev fuel (t, h))
  unfolding irq_handler_aarch64 gic_acknowledge gic_end_of_interrupt acknowledged ended count
  irq_handler_aarch64-Serves t h small =
      let h1 = load32 0x0801000C ∷ h in
      let irq = number (dev h1) in
      elim (Bool-cases (irq == spurious)) [
        | inl none_there ↦
            let same : acknowledged dev h1 ≡ acknowledged dev h =
              rw (none_there, acknowledged) refl in
            rw (none_there, irq_handler_aarch64)
              ([], (t, h1, refl, same ∙ sym (++-[] _), sym (++-[] (ended h)), omega arith, refl))
        | inr there ↦
            let (t', h2, e, ack, eoi, ticks, freq) = serve_lem irq t h1 in
            let word : u32 irq ≡ irq = omega (arith, bit_and_low 10 (u32 (dev h1))) in
            let got : acknowledged dev h1 ≡ acknowledged dev h ++ (irq ∷ []) =
              rw (there, acknowledged) refl in
            rw (there, irq_handler_aarch64, e)
              (
                irq ∷ [],
                (
                  t',
                  store32 0x08010010 (u32 irq) ∷ h2,
                  refl,
                  ack ∙ got,
                  ap (λ (w : ℕ). ended h2 ++ (w ∷ [])) word ∙ ap (λ l. l ++ (irq ∷ [])) eoi,
                  ground (arith, ticks),
                  freq,
                ),
              )
      ]

  Serves-join :
      (s t : List ℕ) (x : Timer × History) (first : Option (Timer × History))
      (rest : Timer × History → Option (Timer × History)) (done : Serves s x first)
      → Serves t (done.0, done.1) (rest (done.0, done.1))
      → Serves (s ++ t) x (first >>= rest)
  Serves-join s t x first rest (t1, h1, e1, ack1, eoi1, ticks1, freq1) later =
      let (t2, h2, e2, ack2, eoi2, ticks2, freq2) = later in
      rw e1 (
        t2,
        h2,
        e2,
        ack2 ∙ ap (λ l. l ++ t) ack1 ∙ ++_assoc _ s t,
        eoi2 ∙ ap (λ l. l ++ t) eoi1 ∙ ++_assoc _ s t,
        omega (arith, ticks1, ticks2, count-++ 30 s t),
        freq2 ∙ freq1,
      )

  -- If the serial port never stays full, the handler returns from every interrupt of a sequence. It
  -- has then ended exactly the interrupts that it acknowledged, in their order, the spurious ones
  -- left out, and the ticks have grown by the number of the timer's, modulo 2 ^ 64.
  pub interrupts-Serves :
      (n : ℕ) (t : Timer) (h : History)
      → t.timer_ticks < 2 ^ 64
      → (irqs : List ℕ) × Serves irqs (t, h) (interrupts dev fuel n (t, h))
  unfolding interrupts count
  interrupts-Serves zero t h small =
      ([], (t, h, refl, sym (++-[] _), sym (++-[] _), omega arith, refl))
  interrupts-Serves (suc n) t h small =
      let (irqs, first) = irq_handler_aarch64-Serves t h small in
      let (more, rest) = interrupts-Serves n first.0 first.1 (omega (arith, first.5)) in
      (
        irqs ++ more,
        Serves-join irqs more (t, h) (irq_handler_aarch64 dev fuel (t, h)) (interrupts dev fuel n)
            first rest,
      )
