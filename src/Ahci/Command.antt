-- ===== src/Ahci/Command.antt =====
-- The command of drivers/ahci64.c.
use valiant_core.Base.{ℕ, ◌+◌, ◌*◌, ◌/◌, ◌^◌, ◌≤◌, ◌<◌, ◌≡◌, arith, Bool}
use valiant_core.Base.Bits.{bit_and_low}
use valiant_core.Ahci.{Fis, Prdt, make_fis, make_prdt}

-- The numbers that a disk takes from a FIS.
abbrev pub fis_lba : Fis → ℕ
fis_lba f =
    f.lba0
    + f.lba1 * 256
    + f.lba2 * 65536
    + f.lba3 * 16777216
    + f.lba4 * 4294967296
    + f.lba5 * 1099511627776

abbrev pub fis_count : Fis → ℕ
fis_count f = f.countl + f.counth * 256

-- The address and the number of bytes of an entry of the table of regions.
abbrev pub prdt_address : Prdt → ℕ
prdt_address p = p.dba + p.dbau * 4294967296

abbrev pub prdt_bytes : Prdt → ℕ
prdt_bytes p = p.dbc + 1

-- A command carries its 48-bit address and its count, and the region that it describes is the buffer: of
-- `count` sectors, if these are 8192 at most.
pub make_command_lem :
    (lba count buf : ℕ) (write : Bool)
    → lba < 2 ^ 48
    → 0 < count
    → count ≤ 8192
    → buf < 2 ^ 64
    → (fis_lba (make_fis lba count write) ≡ lba)
      × (fis_count (make_fis lba count write) ≡ count)
      × (prdt_address (make_prdt buf count) ≡ buf)
      × (prdt_bytes (make_prdt buf count) ≡ count * 512)
unfolding make_fis make_prdt
make_command_lem lba count buf write small some_there few place = (
  omega (
    arith,
    bit_and_low 8 lba,
    bit_and_low 8 (lba / 256),
    bit_and_low 8 (lba / 65536),
    bit_and_low 8 (lba / 16777216),
    bit_and_low 8 (lba / 4294967296),
    bit_and_low 8 (lba / 1099511627776),
  ),
  omega (arith, bit_and_low 8 count, bit_and_low 8 (count / 256)),
  omega (arith, bit_and_low 32 buf),
  omega arith,
)
