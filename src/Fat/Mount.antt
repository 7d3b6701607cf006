-- ===== src/Fat/Mount.antt =====
-- What `fat32_init` of fs/fat32/fat32.c leaves on success and on failure.
use valiant_core.Base.{
  ℕ, suc, ◌+◌, ◌*◌, ◌<◌, ◌≡◌, ◌≢◌, refl, ◌⊎◌, inl, inr, arith, Bool, true, false, Bool-cases,
  Option, none, some, ◌==◌, u64, for_range, for_range_inv,
}
use valiant_core.Fat.{Disk, Fat, File, Sector, max_files, get16, get32}
use valiant_core.Fat.Init.{clear_file, mount, mount_read, fat32_init}

closed_at :
    (k : ℕ) (fs : ℕ → File) (i : ℕ)
    → (i < k → (fs i).active ≡ false)
    → i < suc k
    → (clear_file k fs i).active ≡ false
unfolding clear_file
closed_at k fs i h lt = ground (arith, h)

files_closed :
    (files : ℕ → File) (j : ℕ)
    → j < max_files
    → (for_range max_files 0 clear_file files j).active ≡ false
files_closed files j lt =
    for_range_inv (λ k fs. (i : ℕ) → i < k → (fs i).active ≡ false) clear_file max_files 0 max_files
      files (omega arith) closes (λ i h. absurd (omega arith)) j lt
  where
    closes :
        (k : ℕ) (fs : ℕ → File)
        → k < max_files
        → ((i : ℕ) → i < k → (fs i).active ≡ false)
        → (i : ℕ) → i < suc k
        → (clear_file k fs i).active ≡ false
    closes k fs lt h i hi = closed_at k fs i (λ lt'. h i lt') hi

-- Why a boot sector is refused: it is not read, has no signature 0x29, or no 32-bit table size.
abbrev pub Unmountable : Option Sector → Type 0
Unmountable boot =
    (boot ≡ none) ⊎ ((b : Sector) × (boot ≡ some b) × ((b 66 ≢ 0x29) ⊎ (get32 b 36 ≡ 0)))

-- The fields of the boot sector, and no file open.
pub record Mounted (b : Sector) (r : Fat) : Type 0 where
  pub initialized : r.initialized ≡ true
  pub signature : b 66 ≡ 0x29
  pub table : get32 b 36 ≢ 0
  pub sectors : r.tot_sec32 ≡ b 32 + 256 * b 33 + 65536 * b 34 + 16777216 * b 35
  pub cluster_sectors : r.sec_per_clus ≡ b 13
  pub root : r.root_cluster ≡ b 44 + 256 * b 45 + 65536 * b 46 + 16777216 * b 47
  pub fat_start : r.fat_start ≡ get16 b 14
  pub data_start : r.data_start ≡ u64 (get16 b 14 + b 16 * get32 b 36)
  pub closed : (j : ℕ) → j < max_files → (r.files j).active ≡ false

abbrev pub Mounts : Fat → Option Sector → Fat × Bool → Type 0
Mounts s boot r =
    ((r.1 ≡ true) × (b : Sector) × (boot ≡ some b) × Mounted b r.0)
    ⊎ ((r.1 ≡ false) × (r.0.initialized ≡ s.initialized) × (r.0.files ≡ s.files) × Unmountable boot)

mount-Mounts : (s : Fat) (b : Sector) → Mounts s (some b) (mount s b)
unfolding mount
mount-Mounts s b = elim (Bool-cases (b 66 == 0x29)) [
  | inr other ↦ rw other (inr (refl, refl, refl, inr (b, refl, inl (λ e. ground arith))))
  | inl sig ↦ elim (Bool-cases (get32 b 36 == 0)) [
    | inl bare ↦ rw (sig, bare) (inr (refl, refl, refl, inr (b, refl, inr (ground arith))))
    | inr some_table ↦
        rw (sig, some_table)
          (inl (
            refl,
            b,
            refl,
            record {
              initialized = refl;
              signature = ground arith;
              table = λ e. ground arith;
              sectors = refl;
              cluster_sectors = refl;
              root = refl;
              fat_start = refl;
              data_start = refl;
              closed = files_closed s.files;
            },
          ))
  ]
]

mount_read-Mounts : (s : Fat) (boot : Option Sector) → Mounts s boot (mount_read s boot)
unfolding mount_read
mount_read-Mounts s none = inr (refl, refl, refl, inl refl)
mount_read-Mounts s (some b) = mount-Mounts s b

-- `fat32_init` succeeds only on a boot sector with the signature 0x29 and a 32-bit table size, and
-- then takes from it the number of sectors, the sectors of a cluster, the root cluster and the places
-- of the table and the data, and leaves every file closed. It fails only where the sector is not
-- read, has another signature or the table size 0, and the files and the mark of initialisation are
-- then as before.
pub fat32_init-Mounts :
    {D : Type 0} (io : Disk D) (s : Fat) (d : D) → Mounts s (io.read d 0) (fat32_init io s d)
unfolding fat32_init
fat32_init-Mounts io s d = mount_read-Mounts s (io.read d 0)
