-- ===== src/Pit/Handle.antt =====
-- `irq_handler` of arch/x86/interrupts.c.
use valiant_core.Base.{ℕ, ◌+◌, ltb, if◌then◌else◌, ◌≡◌, ◌≢◌, ◌⊎◌, Option, none, some, ◌∷◌, u8, u32}
use valiant_core.Ports.{Hardware, History, in8, out8}
use valiant_core.Sched.Tick.{schedule_next}
use valiant_core.Keyboard.{keyboard_handler}
use valiant_core.Pit.{Kernel, after_timer}

-- The end of an interrupt: the slave first for one of its eight, then the master.
abbrev pub ended : ℕ → History → History
ended int_no h = if ltb int_no 40 then out8 0x20 0x20 ∷ h else out8 0x20 0x20 ∷ out8 0xA0 0x20 ∷ h

module _ (hw : Hardware) (int_no sp : ℕ) (k : Kernel) where
  -- The timer's interrupt counts a tick and calls the scheduler; it is ended at once only if that
  -- keeps the task.
  pub record Ticks (r : Kernel × Option ℕ) : Type 0 where
    pub number : int_no ≡ 32
    pub pit : r.0.pit ≡ record k.pit { pit_ticks = u32 (k.pit.pit_ticks + 1) }
    pub scheduler : r.0.scheduler ≡ (schedule_next k.scheduler sp).0
    pub switched : r.1 ≡ (schedule_next k.scheduler sp).1
    pub keyboard : r.0.keyboard ≡ k.keyboard
    pub ports :
        ((r.1 ≡ none) × (r.0.ports ≡ ended int_no k.ports)) ⊎ ((r.1 ≢ none) × (r.0.ports ≡ k.ports))

  -- The keyboard's interrupt gives the scancode read to the keyboard, and is then ended.
  pub record Types (r : Kernel × Option ℕ) : Type 0 where
    pub number : int_no ≡ 33
    pub pit : r.0.pit ≡ k.pit
    pub scheduler : r.0.scheduler ≡ k.scheduler
    pub switched : r.1 ≡ none
    pub keyboard : r.0.keyboard ≡ keyboard_handler k.keyboard (u8 (hw (in8 0x60 ∷ k.ports)))
    pub ports : r.0.ports ≡ ended int_no (in8 0x60 ∷ k.ports)

  -- Any other is only ended.
  abbrev pub Ignores : Kernel × Option ℕ → Type 0
  Ignores r =
      (int_no ≢ 32) × (int_no ≢ 33) × (r ≡ (record k { ports = ended int_no k.ports }, none))

module _ (hw : Hardware) (sp : ℕ) (k : Kernel) where
  abbrev the_rest : ℕ → Kernel × Option ℕ → Kernel × Option ℕ
  the_rest int_no r = elim (r.1) [
    | none ↦ (after_timer hw int_no r.0, none)
    | some sp' ↦ (r.0, some sp')
  ]
