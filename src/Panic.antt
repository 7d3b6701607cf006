-- ===== src/Panic.antt =====
-- The helpers of the panic screens, arch/x86/vcorepanic.c and arch/aarch64/panic64.c. The two files
-- have the same `uint64_to_hex`. A text buffer is a function of the index.
pub mod Hex
pub mod Aarch64
pub mod Screen
pub mod Bounds
mod Tests
use valiant_core.Base.{
  ℕ, zero, suc, [], ◌∷◌, ◌==◌, if◌then◌else◌, ◌+◌, ◌-◌, ◌*◌, ◌/◌, ◌^◌, List, codes, get_or, update,
  bit_and, for_range,
}

unfoldable pub hex_digit : ℕ → ℕ
hex_digit d = get_or (codes "0123456789ABCDEF") d 0

-- `out[2 + i] = hex[(val >> (top - i * 4)) & 0xF]`
unfoldable pub put_digit : ℕ → ℕ → ℕ → (ℕ → ℕ) → ℕ → ℕ
put_digit top val i out = update out (2 + i) (hex_digit (bit_and (val / 2 ^ (top - i * 4)) 0xF))

unfoldable pub uint64_to_hex : ℕ → (ℕ → ℕ) → ℕ → ℕ
uint64_to_hex val out =
    update (for_range 16 0 (put_digit 60 val) (update (update out 0 48) 1 120)) 18 0

unfoldable pub uint32_to_hex : ℕ → (ℕ → ℕ) → ℕ → ℕ
uint32_to_hex val out =
    update (for_range 8 0 (put_digit 28 val) (update (update out 0 48) 1 120)) 10 0

-- A text buffer up to its zero byte, `n` bytes at most.
unfoldable pub text_of : ℕ → (ℕ → ℕ) → List ℕ
text_of zero buf = []
text_of (suc n) buf =
    let rest = text_of n (λ i. buf (suc i)) in if buf 0 == 0 then [] else buf 0 ∷ rest

-- `switch (n) { case ...: return ...; default: return other; }`
unfoldable pub choose : ℕ → List (ℕ × List ℕ) → List ℕ → List ℕ
choose n [] other = other
choose n (c ∷ cases) other = let rest = choose n cases other in if n == c.0 then c.1 else rest
