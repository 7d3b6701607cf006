-- ===== src/Fat/Table.antt =====
-- The file allocation table of fs/fat32/fat32.c: what an entry reads after a write.
use valiant_core.Base.{
  ℕ, ◌%◌, ◌<◌, ◌≡◌, ◌≢◌, refl, ap, arith, true, Option, none, some, bit_and, ◌⊎◌, inl, inr,
  ℕ_discrete,
}
use valiant_core.Base.Bits.{bit_and_low}
use valiant_core.Fat.{
  Disk, Fat, Sector, get32, put32, fat_sector, entry_off, read_fat_entry, write_fat_entry, entry_of,
  write_entry,
}

-- What the table needs of a disk: a write that succeeds is read back, and touches no other sector.
pub record IsDisk {D : Type 0} (io : Disk D) : Type 0 where
  pub read_same :
      (d : D) (lba : ℕ) (b : Sector)
      → (io.write d lba b).1 ≡ true
      → io.read (io.write d lba b).0 lba ≡ some b
  pub read_other :
      (d : D) (lba k : ℕ) (b : Sector) → k ≢ lba → io.read (io.write d lba b).0 k ≡ io.read d k

get32-put32 : (b : Sector) (i v : ℕ) → v < 4294967296 → get32 (put32 b i v) i ≡ v
unfolding put32
get32-put32 b i v h = ground arith

put32_other :
    (b : Sector) (i j v : ℕ) → i % 4 ≡ 0 → j % 4 ≡ 0 → j ≢ i → get32 (put32 b i v) j ≡ get32 b j
unfolding put32
put32_other b i j v hi hj ne = ground arith

low28 : (v : ℕ) → bit_and v 0x0FFFFFFF ≡ v % 268435456
low28 v = bit_and_low 28 v

module _ {D : Type 0} (io : Disk D) (law : IsDisk io) (s : Fat) (d : D) (c v : ℕ) where
  write_entry_read :
      (lba off : ℕ) (r : Option Sector)
      → (write_entry io d lba off v r).1 ≡ true
      → entry_of io (io.read (write_entry io d lba off v r).0 lba) off ≡ v % 268435456
  unfolding write_entry entry_of
  write_entry_read lba off none ok = cc
  write_entry_read lba off (some b) ok =
      rw (law.read_same d lba (put32 b off (bit_and v 0x0FFFFFFF)) ok)
        (ground (arith, low28 v, low28 (v % 268435456), get32-put32 b off (v % 268435456)))

  -- Over a disk that reads back what it wrote, an entry that `fat32_write_fat_entry` has written
  -- with result 0 reads as the low 28 bits of the value.
  pub read-write_fat_entry :
      (write_fat_entry io s d c v).1 ≡ true
      → read_fat_entry io s (write_fat_entry io s d c v).0 c ≡ v % 268435456
  unfolding write_fat_entry read_fat_entry
  read-write_fat_entry ok =
      write_entry_read (fat_sector s c) (entry_off c) (io.read d (fat_sector s c)) ok

  write_entry_other :
      (lba off k koff : ℕ)
      → off % 4 ≡ 0
      → koff % 4 ≡ 0
      → ((k ≢ lba) ⊎ (koff ≢ off))
      → (r : Option Sector) → io.read d lba ≡ r
      → (write_entry io d lba off v r).1 ≡ true
      → entry_of io (io.read (write_entry io d lba off v r).0 k) koff
        ≡ entry_of io (io.read d k) koff
  unfolding write_entry entry_of
  write_entry_other lba off k koff h hk apart none e ok = refl
  write_entry_other lba off k koff h hk apart (some b) e ok = elim (ℕ_discrete k lba) [
    | no ne ↦ rw (law.read_other d lba k (put32 b off (bit_and v 0x0FFFFFFF)) ne) refl
    | yes same ↦
        rw (same, law.read_same d lba (put32 b off (bit_and v 0x0FFFFFFF)) ok, e)
          (ap (λ x. bit_and x 0x0FFFFFFF)
            (put32_other b off koff (bit_and v 0x0FFFFFFF) h hk (ground (arith, apart))))
  ]

  -- Entries of different clusters do not overlap.
  entries_apart :
      (k : ℕ)
      → k ≢ c
      → k < 4294967296
      → c < 4294967296
      → s.fat_start < 4294967296
      → (fat_sector s k ≢ fat_sector s c) ⊎ (entry_off k ≢ entry_off c)
  entries_apart k ne hk hc hs = elim (ℕ_discrete (fat_sector s k) (fat_sector s c)) [
    | yes same ↦ inr (λ e. omega arith)
    | no other ↦ inl other
  ]

  -- Such a write changes no other entry.
  pub read-write_fat_entry_other :
      (k : ℕ)
      → k ≢ c
      → k < 4294967296
      → c < 4294967296
      → s.fat_start < 4294967296
      → (write_fat_entry io s d c v).1 ≡ true
      → read_fat_entry io s (write_fat_entry io s d c v).0 k ≡ read_fat_entry io s d k
  unfolding write_fat_entry read_fat_entry
  read-write_fat_entry_other k ne hk hc hs ok =
      write_entry_other (fat_sector s c) (entry_off c) (fat_sector s k) (entry_off k) (omega arith)
        (omega arith) (entries_apart k ne hk hc hs) (io.read d (fat_sector s c)) refl ok
