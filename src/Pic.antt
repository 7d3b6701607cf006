-- ===== src/Pic.antt =====
-- The masks of arch/x86/i8259.c (the other functions are in Pic.Setup): the two interrupt controllers as their mask registers, which is
-- what their data ports read and write once `pic_init` is done.
pub mod Masks
pub mod Setup
use valiant_core.Base.{ℕ, ◌-◌, ◌^◌, ◌<◌, ltb, if◌then◌else◌, u8, bit_and, bit_or}

pub record Pic : Type 0 where
  pub mask1 : ℕ
  pub mask2 : ℕ

-- `inb(port) | (1 << irq)`
unfoldable pub with_bit : ℕ → ℕ → ℕ
with_bit value irq = u8 (bit_or value (2 ^ irq))

-- `inb(port) & ~(1 << irq)`
unfoldable pub without_bit : ℕ → ℕ → ℕ
without_bit value irq = u8 (bit_and value (4294967295 - 2 ^ irq))

unfoldable pub pic_set_mask : Pic → ℕ → Pic
pic_set_mask m irq =
    if ltb irq 8
    then record m { mask1 = with_bit m.mask1 irq }
    else record m { mask2 = with_bit m.mask2 (irq - 8) }

unfoldable pub pic_clear_mask : Pic → ℕ → Pic
pic_clear_mask m irq =
    if ltb irq 8
    then record m { mask1 = without_bit m.mask1 irq }
    else record m { mask2 = without_bit m.mask2 (irq - 8) }
