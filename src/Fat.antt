-- ===== src/Fat.antt =====
-- fs/fat32/fat32.c: the FAT32 file system over a disk of 512-byte sectors.
-- The disk is drivers/ata.c; here it is the interface `Disk`. `fat32_sector_buf` is the sector that
-- a read yields: after a failed read the code does not look at it.
pub mod Table
pub mod Alloc
pub mod Read
pub mod Dir
pub mod Init
pub mod Mount
mod Tests
use valiant_core.Base.{
  ℕ, zero, suc, ◌+◌, ◌-◌, ◌*◌, ◌/◌, ◌%◌, ◌≤◌, ◌<◌, ◌≡◌, ◌≢◌, Bool, true, false, Option, none, some,
  List, [], ◌∷◌, leb, ltb, ◌==◌, if◌then◌else◌, u32, u64, update, bit_and, bit_or, find_first,
}

abbrev pub eoc : ℕ
eoc = 0x0FFFFFFF

abbrev pub bad : ℕ
bad = 0x0FFFFFF7

abbrev pub sector_size : ℕ
sector_size = 512

abbrev pub max_files : ℕ
max_files = 512

-- The bytes of a sector.
abbrev pub Sector : Type 0
Sector = ℕ → ℕ

-- `ata_read_250gb` and `ata_write_250gb` of one sector: `none` and `false` are results other than 0.
pub record Disk (D : Type 0) : Type 0 where
  pub read : D → ℕ → Option Sector
  pub write : D → ℕ → Sector → D × Bool

-- `fat32_file_t`, less `name`, which nothing reads or writes.
pub record File : Type 0 where
  pub first_cluster : ℕ
  pub cur_cluster : ℕ
  pub file_size : ℕ
  pub pos : ℕ
  pub is_dir : Bool
  pub active : Bool

-- `fat32_state_t`, with the one field of `bpb` that is read after `fat32_init`.
pub record Fat : Type 0 where
  pub tot_sec32 : ℕ
  pub fat_start : ℕ
  pub data_start : ℕ
  pub root_cluster : ℕ
  pub sec_per_clus : ℕ
  pub initialized : Bool
  pub files : ℕ → File

-- Little-endian words in a sector.
abbrev pub get16 : Sector → ℕ → ℕ
get16 b i = b i + 256 * b (i + 1)

abbrev pub get32 : Sector → ℕ → ℕ
get32 b i = b i + 256 * b (i + 1) + 65536 * b (i + 2) + 16777216 * b (i + 3)

unfoldable pub put32 : Sector → ℕ → ℕ → Sector
put32 b i v =
    update
      (update (update (update b i (v % 256)) (i + 1) (v / 256 % 256)) (i + 2) (v / 65536 % 256))
      (i + 3) (v / 16777216 % 256)

unfoldable pub cluster_to_lba : Fat → ℕ → ℕ
cluster_to_lba s cluster =
    if ltb cluster 2 then 0 else u64 (s.data_start + (cluster - 2) * s.sec_per_clus)

-- The sector and the offset of a cluster's table entry.
abbrev pub fat_sector : Fat → ℕ → ℕ
fat_sector s cluster = u64 (s.fat_start + cluster * 4 / sector_size)

abbrev pub entry_off : ℕ → ℕ
entry_off cluster = cluster * 4 % sector_size

-- `total_clusters`, and the rounds of the loop from 2 to `total_clusters + 2`.
abbrev pub total_clusters : Fat → ℕ
total_clusters s = u32 (s.tot_sec32 + 4294967296 - u32 s.data_start) / s.sec_per_clus

abbrev pub rounds : Fat → ℕ
rounds s = u32 (total_clusters s + 2) - 2

module _ {D : Type 0} (io : Disk D) where
  unfoldable pub entry_of : Option Sector → ℕ → ℕ
  entry_of none off = bad
  entry_of (some b) off = bit_and (get32 b off) 0x0FFFFFFF

  unfoldable pub read_fat_entry : Fat → D → ℕ → ℕ
  unfolding entry_of
  read_fat_entry s d cluster = entry_of (io.read d (fat_sector s cluster)) (entry_off cluster)

  unfoldable pub write_entry : D → ℕ → ℕ → ℕ → Option Sector → D × Bool
  write_entry d lba off value none = (d, false)
  write_entry d lba off value (some b) = io.write d lba (put32 b off (bit_and value 0x0FFFFFFF))

  unfoldable pub write_fat_entry : Fat → D → ℕ → ℕ → D × Bool
  unfolding write_entry
  write_fat_entry s d cluster value =
      write_entry d (fat_sector s cluster) (entry_off cluster) value
        (io.read d (fat_sector s cluster))

  unfoldable pub take_cluster : Fat → D → Option ℕ → D × Option ℕ
  take_cluster s d none = (d, none)
  take_cluster s d (some i) = ((write_fat_entry s d i eoc).0, some i)

  -- A result 0 is `none`.
  unfoldable pub alloc_cluster : Fat → D → D × Option ℕ
  unfolding take_cluster
  alloc_cluster s d = take_cluster s d (find_first (rounds s) 2 (λ i. read_fat_entry s d i == 0))
