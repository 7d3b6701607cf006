-- ===== src/Descriptors/Decode.antt =====
-- What the processor reads in the tables of arch/x86/gdt.c and arch/x86/interrupts.c.
use valiant_core.Base.{
  ℕ, ◌+◌, ◌-◌, ◌*◌, ◌/◌, ◌%◌, ◌<◌, ◌≡◌, ◌≢◌, refl, sym, ap, ◌∙◌, arith, Bool, true, false, ◌||◌,
  List, [], ◌∷◌, ◌==◌, if◌then◌else◌, u8, u16, u32, update, update_self, update_ne, bit_and, bit_or,
  for_range, for_range_inv, ℕ_discrete,
}
use valiant_core.Base.Bits.{bit_and_low, bit_and_high, or_above}
use valiant_core.Descriptors.{
  GdtEntry, Gdt, gdt_set_gate, IdtEntry, Idt, idt_set_gate, set_handlers, vectors, init_idt,
}

abbrev pub segment_base : GdtEntry → ℕ
segment_base e = e.base_low + e.base_middle * 65536 + e.base_high * 16777216

-- The limit of 20 bits.
abbrev pub segment_limit : GdtEntry → ℕ
segment_limit e = e.limit_low + e.granularity % 16 * 65536

abbrev pub segment_flags : GdtEntry → ℕ
segment_flags e = e.granularity / 16

-- A descriptor holds what `gdt_set_gate` was given: the base, the low 20 bits of the limit, the access
-- byte and the high half of `gran`. The other descriptors and the pointer stay.
pub gdt_set_gate-segment :
    (num base limit access gran : ℕ) (s : Gdt)
    → base < 4294967296
    → gran < 256
    → (segment_base ((gdt_set_gate num base limit access gran s).gdt num) ≡ base)
      × (segment_limit ((gdt_set_gate num base limit access gran s).gdt num) ≡ limit % 1048576)
      × (segment_flags ((gdt_set_gate num base limit access gran s).gdt num) ≡ gran / 16)
      × (((gdt_set_gate num base limit access gran s).gdt num).access ≡ access)
      × ((j : ℕ) → j ≢ num → (gdt_set_gate num base limit access gran s).gdt j ≡ s.gdt j)
unfolding gdt_set_gate
gdt_set_gate-segment num base limit access gran s b g =
    let e : GdtEntry = record {
      limit_low = u16 limit;
      base_low = u16 base;
      base_middle = u8 (base / 65536);
      access = access;
      granularity = bit_or (bit_and (limit / 65536) 0x0F) (bit_and gran 0xF0);
      base_high = u8 (base / 16777216);
    } in
    let at : update s.gdt num e num ≡ e = update_self s.gdt num e in
    let low : bit_and (limit / 65536) 0x0F ≡ limit / 65536 % 16 = bit_and_low 4 (limit / 65536) in
    let high : bit_and gran 0xF0 ≡ gran / 16 * 16 =
      bit_and_high 4 gran 15 ∙ ap (λ t. t * 16) (bit_and_low 4 (gran / 16)) ∙ (omega arith) in
    let both : e.granularity ≡ limit / 65536 % 16 + gran / 16 * 16 =
      ap (λ t. bit_or t (bit_and gran 0xF0)) low
      ∙ ap (λ t. bit_or (limit / 65536 % 16) t) high
      ∙ or_above 4 (limit / 65536 % 16) (gran / 16) (omega arith) in
    (
      ap segment_base at ∙ (omega arith),
      ap segment_limit at ∙ (omega (arith, both)),
      ap segment_flags at ∙ (omega (arith, both)),
      ap (λ (d : GdtEntry). d.access) at,
      λ j ne. update_ne s.gdt num e j ne,
    )

abbrev pub gate_base : IdtEntry → ℕ
gate_base e = e.base_lo + e.base_hi * 65536

unfoldable pub is_in : ℕ → List ℕ → Bool
is_in n [] = false
is_in n (m ∷ ms) = n == m || is_in n ms

abbrev AllBytes : List ℕ → Type 0
AllBytes [] = Unit
AllBytes (m ∷ ms) = (m < 256) × AllBytes ms

abbrev gate : ℕ → ℕ → ℕ → IdtEntry
gate base sel flags = record {
  base_lo = u16 base;
  sel = sel;
  always0 = 0;
  flags = flags;
  base_hi = u16 (base / 65536);
}

idt_set_gate_self :
    (num base sel flags : ℕ) (s : Idt)
    → num < 256
    → (idt_set_gate num base sel flags s).idt num ≡ gate base sel flags
unfolding idt_set_gate
idt_set_gate_self num base sel flags s lt =
    let same : u8 num ≡ num = omega arith in
    ap (λ t. update s.idt t (gate base sel flags) num) same
    ∙ update_self s.idt num (gate base sel flags)

idt_set_gate_other :
    (num base sel flags j : ℕ) (s : Idt)
    → num < 256
    → j ≢ num
    → (idt_set_gate num base sel flags s).idt j ≡ s.idt j
unfolding idt_set_gate
idt_set_gate_other num base sel flags j s lt ne =
    update_ne s.idt (u8 num) (gate base sel flags) j (λ e. ne (omega (arith, e)))

set_handlers_lem :
    (isr : ℕ → ℕ) (nums : List ℕ) (n : ℕ) (s : Idt)
    → AllBytes nums
    → (set_handlers isr nums s).idt n ≡ (if is_in n nums then gate (isr n) 0x08 0x8E else s.idt n)
unfolding set_handlers is_in
set_handlers_lem isr [] n s bytes = refl
set_handlers_lem isr (m ∷ ms) n s bytes =
    let s' = idt_set_gate m (isr m) 0x08 0x8E s in
    let g = gate (isr n) 0x08 0x8E in
    let rest : (set_handlers isr ms s').idt n ≡ (if is_in n ms then g else s'.idt n) =
      set_handlers_lem isr ms n s' bytes.1 in
    rest ∙ elim (ℕ_discrete n m) [
      | yes here ↦
          let hit : (n == m || is_in n ms) ≡ true = ground arith in
          let mine : s'.idt n ≡ g =
            ap (λ j. s'.idt j) here
            ∙ idt_set_gate_self m (isr m) 0x08 0x8E s bytes.0
            ∙ ap (λ j. gate (isr j) 0x08 0x8E) (sym here) in
          rw (hit, mine) (same_either (is_in n ms) g)
      | no other ↦
          let miss : (n == m || is_in n ms) ≡ is_in n ms = ground arith in
          rw (miss, idt_set_gate_other m (isr m) 0x08 0x8E n s bytes.0 other) refl
    ]
  where
    same_either : (b : Bool) (e : IdtEntry) → (if b then e else e) ≡ e
    same_either true e = refl
    same_either false e = refl

cleared :
    (s : Idt) (n : ℕ) → n < 256 → (for_range 256 0 (λ i. idt_set_gate i 0 0 0) s).idt n ≡ gate 0 0 0
cleared s n lt =
    for_range_inv (λ k (t : Idt). (j : ℕ) → j < k → t.idt j ≡ gate 0 0 0)
      (λ i. idt_set_gate i 0 0 0) 256 0 256 s refl
      (λ k t below done j up. elim (ℕ_discrete j k) [
        | yes here ↦
            ap (λ i. (idt_set_gate k 0 0 0 t).idt i) here ∙ idt_set_gate_self k 0 0 0 t below
        | no other ↦ idt_set_gate_other k 0 0 0 j t below other ∙ done j (omega arith)
      ])
      (λ j up. absurd (omega arith)) n lt

gate_fields :
    (b : Bool) (base : ℕ) (e : IdtEntry)
    → base < 4294967296
    → e ≡ (if b then gate base 0x08 0x8E else gate 0 0 0)
    → (gate_base e ≡ (if b then base else 0))
      × (e.sel ≡ (if b then 0x08 else 0))
      × (e.flags ≡ (if b then 0x8E else 0))
gate_fields true base e lt same = (
  ap gate_base same ∙ (omega arith),
  ap (λ (d : IdtEntry). d.sel) same,
  ap (λ (d : IdtEntry). d.flags) same,
)
gate_fields false base e lt same =
    (ap gate_base same, ap (λ (d : IdtEntry). d.sel) same, ap (λ (d : IdtEntry). d.flags) same)

bytes_vectors : AllBytes vectors
bytes_vectors = (
  omega arith,
  (
    omega arith,
    (
      omega arith,
      (
        omega arith,
        (
          omega arith,
          (
            omega arith,
            (
              omega arith,
              (
                omega arith,
                (
                  omega arith,
                  (
                    omega arith,
                    (
                      omega arith,
                      (omega arith, (omega arith, (omega arith, (omega arith, (omega arith, tt))))),
                    ),
                  ),
                ),
              ),
            ),
          ),
        ),
      ),
    ),
  ),
)

-- After `init_idt` the gate of each vector of the list leads to its handler, in the code segment 8 and
-- with the flags 0x8E; each of the other 256 gates is not present, all of it 0.
pub init_idt-gates :
    (address n : ℕ) (isr : ℕ → ℕ) (s : Idt)
    → n < 256
    → isr n < 4294967296
    → (gate_base ((init_idt address isr s).idt n) ≡ (if is_in n vectors then isr n else 0))
      × (((init_idt address isr s).idt n).sel ≡ (if is_in n vectors then 0x08 else 0))
      × (((init_idt address isr s).idt n).flags ≡ (if is_in n vectors then 0x8E else 0))
unfolding init_idt
init_idt-gates address n isr s lt fits =
    let s' = record s { idtp_limit = 8 * 256 - 1; idtp_base = u32 address } in
    let t = for_range 256 0 (λ i. idt_set_gate i 0 0 0) s' in
    gate_fields (is_in n vectors) (isr n) ((init_idt address isr s).idt n) fits (
      set_handlers_lem isr vectors n t bytes_vectors
      ∙ ap (λ e. if is_in n vectors then gate (isr n) 0x08 0x8E else e) (cleared s' n lt))
