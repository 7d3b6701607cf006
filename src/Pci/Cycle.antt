-- ===== src/Pci/Cycle.antt =====
-- The port accesses of a read of the configuration space.
use valiant_core.Base.{
  ℕ, ◌+◌, ◌*◌, ◌/◌, ◌<◌, ◌≡◌, refl, ap, ◌∙◌, arith, ◌∷◌, u8, u32, bit_and, bit_or,
}
use valiant_core.Base.Bits.{or_above, bit_or_add, bit_and_high, bit_and_low}
use valiant_core.Ports.{History, Hardware, out8, in8}
use valiant_core.Pci.{config_address, send_address, pci_read32}

-- The fields of an address stand side by side.
config_address_fields :
    (bus slot func offset : ℕ)
    → bus < 256
    → slot < 32
    → func < 8
    → offset < 256
    → config_address bus slot func offset
      ≡ 2147483648 + bus * 65536 + slot * 2048 + func * 256 + offset / 4 * 4
unfolding config_address
config_address_fields bus slot func offset b s f o =
    let low : bit_and offset 0xFC ≡ offset / 4 * 4 =
      bit_and_high 2 offset 63 ∙ ap (λ t. t * 4) (bit_and_low 6 (offset / 4)) ∙ (omega arith) in
    let e1 : bit_or 2147483648 (u32 (bus * 65536)) ≡ (32768 + bus) * 65536 =
      bit_or_add 31 1 (u32 (bus * 65536)) (omega arith) ∙ (omega arith) in
    let e2 : bit_or ((32768 + bus) * 65536) (u32 (slot * 2048))
        ≡ ((32768 + bus) * 32 + slot) * 2048 =
      bit_or_add 16 (32768 + bus) (u32 (slot * 2048)) (omega arith) ∙ (omega arith) in
    let e3 : bit_or (((32768 + bus) * 32 + slot) * 2048) (u32 (func * 256))
        ≡ (((32768 + bus) * 32 + slot) * 8 + func) * 256 =
      bit_or_add 11 ((32768 + bus) * 32 + slot) (u32 (func * 256)) (omega arith) ∙ (omega arith) in
    let e4 : bit_or ((((32768 + bus) * 32 + slot) * 8 + func) * 256) (offset / 4 * 4)
        ≡ (((32768 + bus) * 32 + slot) * 8 + func) * 256 + offset / 4 * 4 =
      bit_or_add 8 (((32768 + bus) * 32 + slot) * 8 + func) (offset / 4 * 4) (omega arith) in
    rw (low, e1, e2, e3, e4) (omega arith)

-- The bytes sent for the four fields: the enable bit, the bus, the slot with the function, and the
-- offset of the word.
abbrev pub asked : ℕ → ℕ → ℕ → ℕ → History → History
asked bus slot func offset h =
    out8 0xCFB 128 ∷ out8 0xCFA bus ∷ out8 0xCF9 (slot * 8 + func) ∷ out8 0xCF8 (offset / 4 * 4) ∷ h

-- The word that four reads after the history `q` yield, and the history then.
abbrev pub word_at : Hardware → History → ℕ × History
word_at hw q = (
  u8 (hw (in8 0xCFC ∷ q))
      + u8 (hw (in8 0xCFD ∷ in8 0xCFC ∷ q)) * 256
      + u8 (hw (in8 0xCFE ∷ in8 0xCFD ∷ in8 0xCFC ∷ q)) * 65536
      + u8 (hw (in8 0xCFF ∷ in8 0xCFE ∷ in8 0xCFD ∷ in8 0xCFC ∷ q)) * 16777216,
  in8 0xCFF ∷ in8 0xCFE ∷ in8 0xCFD ∷ in8 0xCFC ∷ q,
)

send_address-asked :
    (bus slot func offset : ℕ) (h : History)
    → bus < 256
    → slot < 32
    → func < 8
    → offset < 256
    → send_address (config_address bus slot func offset) h ≡ asked bus slot func offset h
unfolding send_address
send_address-asked bus slot func offset h b s f o =
    let a = config_address_fields bus slot func offset b s f o in
    let b3 : u8 (config_address bus slot func offset / 16777216) ≡ 128 = omega (arith, a) in
    let b2 : u8 (config_address bus slot func offset / 65536) ≡ bus = omega (arith, a) in
    let b1 : u8 (config_address bus slot func offset / 256) ≡ slot * 8 + func = omega (arith, a) in
    let b0 : u8 (config_address bus slot func offset) ≡ offset / 4 * 4 = omega (arith, a) in
    rw (b3, b2, b1, b0) refl

bytes_word :
    (b0 b1 b2 b3 : ℕ)
    → b0 < 256
    → b1 < 256
    → b2 < 256
    → b3 < 256
    → bit_or (bit_or (bit_or b0 (b1 * 256)) (b2 * 65536)) (b3 * 16777216)
      ≡ b0 + b1 * 256 + b2 * 65536 + b3 * 16777216
bytes_word b0 b1 b2 b3 l0 l1 l2 l3 =
    or_above 24 (bit_or (bit_or b0 (b1 * 256)) (b2 * 65536)) b3
      (omega (arith, or_above 16 (bit_or b0 (b1 * 256)) b2 (omega (arith, low)), low))
    ∙ (omega (arith, or_above 16 (bit_or b0 (b1 * 256)) b2 (omega (arith, low)), low))
  where
    low : bit_or b0 (b1 * 256) ≡ b0 + b1 * 256
    low = or_above 8 b0 b1 (omega arith)

-- A read of a function's registers sends its bus, slot and function and the offset of the word, each
-- in its field and with the enable bit, and then puts the four answers together, the lowest first.
pub pci_read32-word_at :
    (hw : Hardware) (bus slot func offset : ℕ) (h : History)
    → bus < 256
    → slot < 32
    → func < 8
    → offset < 256
    → pci_read32 hw bus slot func offset h ≡ word_at hw (asked bus slot func offset h)
unfolding pci_read32
pci_read32-word_at hw bus slot func offset h b s f o =
    let q = asked bus slot func offset h in
    let h0 = in8 0xCFC ∷ q in
    let h1 = in8 0xCFD ∷ h0 in
    let h2 = in8 0xCFE ∷ h1 in
    let h3 = in8 0xCFF ∷ h2 in
    rw (send_address-asked bus slot func offset h b s f o) (
      ap (λ v. (v, h3))
        (bytes_word (u8 (hw h0)) (u8 (hw h1)) (u8 (hw h2)) (u8 (hw h3)) (omega arith) (omega arith)
          (omega arith) (omega arith)))
