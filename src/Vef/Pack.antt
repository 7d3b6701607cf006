-- ===== src/Vef/Pack.antt =====
-- bin/vef-pack.c, the tool on the host that makes a VEF file of a program. The numbers of the header
-- are stored with the lowest byte first, with no gaps (`packed`). The messages on the host's console
-- are left out.
pub mod Loads
use valiant_core.Base.{
  ℕ, zero, suc, ◌/◌, ◌≡◌, Bool, true, false, not, ◌&&◌, Option, some, none, List, [], ◌∷◌, ◌++◌,
  length, ◌==◌, if◌then◌else◌, u8, codes,
}

-- `strcmp(a, b) == 0`
unfoldable pub same_string : List ℕ → List ℕ → Bool
same_string [] [] = true
same_string [] (y ∷ b) = false
same_string (x ∷ a) [] = false
same_string (x ∷ a) (y ∷ b) = x == y && same_string a b

unfoldable pub arch_id : List ℕ → Option ℕ
arch_id target_arch =
    if same_string target_arch (codes "i386")
    then some 1
    else if same_string target_arch (codes "x86_64")
    then some 2
    else if same_string target_arch (codes "aarch64")
    then some 3
    else none

-- A number of `n` bytes.
unfoldable pub little_endian : ℕ → ℕ → List ℕ
little_endian zero x = []
little_endian (suc n) x = u8 x ∷ little_endian n (x / 256)

-- `vef_header_t` of the tool.
unfoldable pub header : ℕ → ℕ → ℕ → List ℕ
header arch entry_point text_size =
    codes "FINN" ++ (arch ∷ little_endian 8 entry_point ++ little_endian 8 text_size)

abbrev pub default_entry : ℕ
default_entry = 0x100000

-- The files that can be read, those that can be created, and the sizes that `malloc` serves.
pub record Host : Type 0 where
  pub open_read : List ℕ → Option (List ℕ)
  pub can_create : List ℕ → Bool
  pub can_alloc : ℕ → Bool

-- The exit code, and what the output file holds when it has been created.
unfoldable pub pack_file : Host → ℕ → List ℕ → List ℕ → ℕ × Option (List ℕ)
pack_file host arch input_bin output_vef = elim (host.open_read input_bin) [
  | none ↦ (1, none)
  | some bytes ↦
      let head = header arch default_entry (length bytes) in
      if not (host.can_create output_vef)
      then (1, none)
      else if not (host.can_alloc (length bytes))
      then (1, some head)
      else (0, some (head ++ bytes))
]

-- `main` on the arguments behind the name of the tool.
unfoldable pub vef_pack : Host → List (List ℕ) → ℕ × Option (List ℕ)
vef_pack host (target_arch ∷ input_bin ∷ output_vef ∷ more) = elim (arch_id target_arch) [
  | none ↦ (1, none)
  | some arch ↦ pack_file host arch input_bin output_vef
]
vef_pack host _ = (1, none)
