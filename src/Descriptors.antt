-- ===== src/Descriptors.antt =====
-- The tables of arch/x86/gdt.c and arch/x86/interrupts.c for the 32-bit kernel: segments and interrupt
-- gates. The addresses of the tables and of the handlers in assembly are arguments.
pub mod Decode
use valiant_core.Base.{
  ℕ, ◌+◌, ◌-◌, ◌*◌, ◌/◌, List, [], ◌∷◌, u8, u16, u32, update, bit_and, bit_or, for_range,
}

-- `struct gdt_entry`
pub record GdtEntry : Type 0 where
  pub limit_low : ℕ
  pub base_low : ℕ
  pub base_middle : ℕ
  pub access : ℕ
  pub granularity : ℕ
  pub base_high : ℕ

-- `gdt`, and the limit and the base of `gp`.
pub record Gdt : Type 0 where
  pub gdt : ℕ → GdtEntry
  pub gp_limit : ℕ
  pub gp_base : ℕ

unfoldable pub gdt_set_gate : ℕ → ℕ → ℕ → ℕ → ℕ → Gdt → Gdt
gdt_set_gate num base limit access gran s = record s {
  gdt = update s.gdt num (record {
    limit_low = u16 limit;
    base_low = u16 base;
    base_middle = u8 (base / 65536);
    access = access;
    granularity = bit_or (bit_and (limit / 65536) 0x0F) (bit_and gran 0xF0);
    base_high = u8 (base / 16777216);
  });
}

-- Up to `gdt_flush`; an entry has 8 bytes.
unfoldable pub init_gdt : ℕ → Gdt → Gdt
init_gdt address s = gdt_set_gate 2 0 0xFFFFFFFF 0x92 0xCF (
    gdt_set_gate 1 0 0xFFFFFFFF 0x9A 0xCF
      (gdt_set_gate 0 0 0 0x00 0x00 (record s { gp_limit = 8 * 3 - 1; gp_base = u32 address })))

-- `struct idt_entry`
pub record IdtEntry : Type 0 where
  pub base_lo : ℕ
  pub sel : ℕ
  pub always0 : ℕ
  pub flags : ℕ
  pub base_hi : ℕ

-- `idt`, and the limit and the base of `idtp`.
pub record Idt : Type 0 where
  pub idt : ℕ → IdtEntry
  pub idtp_limit : ℕ
  pub idtp_base : ℕ

unfoldable pub idt_set_gate : ℕ → ℕ → ℕ → ℕ → Idt → Idt
idt_set_gate num base sel flags s = record s {
  idt = update s.idt (u8 num) (record {
    base_lo = u16 base;
    sel = sel;
    always0 = 0;
    flags = flags;
    base_hi = u16 (base / 65536);
  });
}

-- The calls for the handlers of a list of vectors; `isr n` is the address of the handler of `n`.
unfoldable pub set_handlers : (ℕ → ℕ) → List ℕ → Idt → Idt
set_handlers isr [] s = s
set_handlers isr (num ∷ nums) s = set_handlers isr nums (idt_set_gate num (isr num) 0x08 0x8E s)

-- The vectors in the order of the calls; 32 and 33 are `irq0` and `irq1`.
abbrev pub vectors : List ℕ
vectors = 0 ∷ 13 ∷ 14 ∷ 32 ∷ 33 ∷ 1 ∷ 3 ∷ 4 ∷ 5 ∷ 6 ∷ 7 ∷ 8 ∷ 9 ∷ 10 ∷ 11 ∷ 12 ∷ []

-- Up to `idt_flush`; an entry has 8 bytes.
unfoldable pub init_idt : ℕ → (ℕ → ℕ) → Idt → Idt
init_idt address isr s = set_handlers isr vectors (
    for_range 256 0 (λ i. idt_set_gate i 0 0 0)
      (record s { idtp_limit = 8 * 256 - 1; idtp_base = u32 address }))
