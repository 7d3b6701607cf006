-- ===== src/Mmio.antt =====
-- Registers in memory and the timer's system registers on AArch64, as the history of the accesses,
-- the last one first. The hardware is an argument, as for the ports.
use valiant_core.Base.{ℕ, List, ◌∷◌, u8, u32, u64}

pub data SysRegister : Type 0 where
  cntfrq_el0 : SysRegister
  cntpct_el0 : SysRegister
  cntp_tval_el0 : SysRegister
  cntp_ctl_el0 : SysRegister

pub data Access : Type 0 where
  store32 : ℕ → ℕ → Access
  store8 : ℕ → ℕ → Access
  load32 : ℕ → Access
  msr : SysRegister → ℕ → Access
  mrs : SysRegister → Access

abbrev pub History : Type 0
History = List Access

abbrev pub Device : Type 0
Device = History → ℕ

-- `*(volatile uint32_t *)addr = val`
abbrev pub write32 : ℕ → ℕ → History → History
write32 addr val h = store32 addr (u32 val) ∷ h

-- `*(volatile uint8_t *)addr = val`
abbrev pub write8 : ℕ → ℕ → History → History
write8 addr val h = store8 addr (u8 val) ∷ h

-- The value and the history.
abbrev pub read32 : Device → ℕ → History → ℕ × History
read32 dev addr h = (u32 (dev (load32 addr ∷ h)), load32 addr ∷ h)

abbrev pub write_register : SysRegister → ℕ → History → History
write_register reg val h = msr reg (u64 val) ∷ h

abbrev pub read_register : Device → SysRegister → History → ℕ × History
read_register dev reg h = (u64 (dev (mrs reg ∷ h)), mrs reg ∷ h)
