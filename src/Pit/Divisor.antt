-- ===== src/Pit/Divisor.antt =====
-- The divisor that `pit_init` of arch/x86/i8254.c sends.
use native.Mathlib.Nat.{div-lt_iff_lt-mul}
use valiant_core.Base.{ℕ, ◌+◌, ◌*◌, ◌/◌, ◌^◌, ◌<◌, ◌≡◌, refl, arith, [], ◌∷◌, u8, u32, bit_and}
use valiant_core.Base.Bits.{bit_and_low}
use valiant_core.Pit.{Pit, pit_init}
use valiant_core.Pic.Setup.{bytes_to}

-- The timer takes its divisor as two bytes, the low one first: 1193182 / hz where that has 16 bits.
pub pit_init-divisor :
    (hz : ℕ) (p : Pit)
    → 18 < hz
    → hz < 2 ^ 32
    → (bytes_to 0x43 (pit_init hz p []).1 ≡ 0x36 ∷ [])
      × ((high : ℕ) × (low : ℕ) × (bytes_to 0x40 (pit_init hz p []).1 ≡ high ∷ low ∷ [])
          × (high * 256 + low ≡ 1193182 / hz))
unfolding pit_init bytes_to
pit_init-divisor hz p big small =
    let divisor = 1193182 / hz in
    let fits : divisor < 65536 = (div-lt_iff_lt-mul (omega arith)).1 (omega arith) in
    (
      refl,
      (
        u8 (u8 (bit_and (u32 divisor / 256) 0xFF)),
        u8 (u8 (bit_and (u32 divisor) 0xFF)),
        refl,
        omega (arith, bit_and_low 8 (u32 divisor), bit_and_low 8 (u32 divisor / 256)),
      ),
    )
