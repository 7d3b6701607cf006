-- ===== src/Fat/Tests.antt =====
-- A small disk, runs of the file system on it and its theorems there.
use valiant_core.Base.{
  ℕ, zero, suc, ◌+◌, ◌*◌, ◌%◌, ◌<◌, ◌≡◌, refl, ap, arith, true, false, some, [], ◌∷◌, ltb, ◌==◌,
  if◌then◌else◌, update, update_self, update_ne, get_or,
}
use valiant_core.Fat.{Disk, Fat, File, Sector, eoc, read_fat_entry, alloc_cluster, put32, entry_of}
use valiant_core.Fat.Init.{fat32_init}
use valiant_core.Fat.Mount.{Mounts, fat32_init-Mounts}
use valiant_core.Fat.Table.{IsDisk}
use valiant_core.Fat.Alloc.{Allocs, alloc_cluster-Allocs}
use valiant_core.Fat.Read.{fat32_read, cluster_bytes}
use valiant_core.Fat.Read.Content.{chain}
use valiant_core.Fat.Read.Call.{ReadsFile, fat32_read-ReadsFile}

-- A disk that never fails.
abbrev ram : Disk (ℕ → Sector)
ram = record { read = λ d lba. some (d lba); write = λ d lba b. (update d lba b, true) }

ram-IsDisk : IsDisk ram
ram-IsDisk = record {
  read_same = λ d lba b ok. ap some (update_self d lba b);
  read_other = λ d lba k b ne. ap some (update_ne d lba b k ne);
}

-- Clusters 2 and 3 are the chain of a file of 700 bytes, with one sector each.
abbrev image : ℕ → Sector
image = update (λ lba i. lba % 256) 1 (put32 (put32 (λ i. 0) 8 3) 12 eoc)

abbrev letter : File
letter = record {
  first_cluster = 2;
  cur_cluster = 2;
  file_size = 700;
  pos = 0;
  is_dir = false;
  active = true;
}

abbrev mounted : Fat
mounted = record {
  tot_sec32 = 20;
  fat_start = 1;
  data_start = 10;
  root_cluster = 9;
  sec_per_clus = 1;
  initialized = true;
  files = λ i. if ltb 0 i then record letter { active = false } else letter;
}

alloc_cluster-Allocs_example : Allocs ram mounted image (alloc_cluster ram mounted image)
alloc_cluster-Allocs_example = alloc_cluster-Allocs ram ram-IsDisk mounted (omega arith) image

image-chain : (k : ℕ) → k * cluster_bytes mounted < 700 → chain ram mounted image 2 k < eoc
unfolding chain read_fat_entry entry_of put32
image-chain zero lt = omega arith
image-chain (suc zero) lt = omega arith
image-chain (suc (suc k)) lt = absurd (omega arith)

fat32_read-ReadsFile_example :
    ReadsFile ram mounted image 0 600 (fat32_read ram mounted image 0 600)
unfolding chain
fat32_read-ReadsFile_example =
    fat32_read-ReadsFile ram mounted image 0 600 (omega arith) refl (omega arith)
      (record { cluster = refl; within = omega arith; word = omega arith })
      (record { reads = λ lba e. cc; clusters = omega arith; chained = image-chain })

-- The entry of "A.C".
abbrev entry_a : Sector
entry_a i = if i == 0 then b'A' else if i == 8 then b'C' else b' '

stem_padded : (j : ℕ) → j < 8 → entry_a (0 + j) ≡ get_or (b'A' ∷ []) j b' '
stem_padded zero lt = refl
stem_padded (suc zero) lt = refl
stem_padded (suc (suc j)) lt = ground arith

ext_padded : (j : ℕ) → j < 3 → entry_a (0 + 8 + j) ≡ get_or (b'C' ∷ []) j b' '
ext_padded zero lt = refl
ext_padded (suc zero) lt = refl
ext_padded (suc (suc j)) lt = ground arith

fat32_init-Mounts_example : Mounts mounted (ram.read image 0) (fat32_init ram mounted image)
fat32_init-Mounts_example = fat32_init-Mounts ram mounted image
