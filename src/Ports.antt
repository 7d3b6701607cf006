-- ===== src/Ports.antt =====
-- The port instructions of include/io.h and include/kernel.h, on the history of the accesses, the last one first. The
-- hardware is an argument: what it answers to a read depends on the whole history.
use valiant_core.Base.{ℕ, List, ◌∷◌, u8, u16, u32}

pub data Access : Type 0 where
  out8 : ℕ → ℕ → Access
  in8 : ℕ → Access
  out16 : ℕ → ℕ → Access
  in16 : ℕ → Access
  out32 : ℕ → ℕ → Access
  in32 : ℕ → Access

abbrev pub History : Type 0
History = List Access

abbrev pub Hardware : Type 0
Hardware = History → ℕ

abbrev pub outb : ℕ → ℕ → History → History
outb port value h = out8 port (u8 value) ∷ h

abbrev pub outw : ℕ → ℕ → History → History
outw port value h = out16 port (u16 value) ∷ h

-- The value and the history.
abbrev pub inb : Hardware → ℕ → History → ℕ × History
inb hw port h = (u8 (hw (in8 port ∷ h)), in8 port ∷ h)

abbrev pub inw : Hardware → ℕ → History → ℕ × History
inw hw port h = (u16 (hw (in16 port ∷ h)), in16 port ∷ h)

abbrev pub outl : ℕ → ℕ → History → History
outl port value h = out32 port (u32 value) ∷ h

abbrev pub inl : Hardware → ℕ → History → ℕ × History
inl hw port h = (u32 (hw (in32 port ∷ h)), in32 port ∷ h)
