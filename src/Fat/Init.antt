-- ===== src/Fat/Init.antt =====
-- `fat32_init` of fs/fat32/fat32.c.
use valiant_core.Base.{
  ℕ, ◌+◌, ◌*◌, Bool, true, false, not, Option, none, some, ◌==◌, if◌then◌else◌, u64, update,
  for_range,
}
use valiant_core.Fat.{Disk, Fat, File, Sector, max_files, get16, get32}

-- `fat32.files[i].active = 0`
unfoldable pub clear_file : ℕ → (ℕ → File) → ℕ → File
clear_file i files = update files i (record (files i) { active = false })

-- The tests and the assignments on the boot sector `b`.
unfoldable pub mount : Fat → Sector → Fat × Bool
mount s b =
    let read = record s { tot_sec32 = get32 b 32 } in
    let fat_start = get16 b 14 in
    if not (b 66 == 0x29) then (read, false) else if get32 b 36 == 0 then (read, false) else (
      record read {
        sec_per_clus = b 13;
        fat_start = fat_start;
        root_cluster = get32 b 44;
        data_start = u64 (fat_start + b 16 * get32 b 36);
        files = for_range max_files 0 clear_file s.files;
        initialized = true;
      },
      true,
    )

unfoldable pub mount_read : Fat → Option Sector → Fat × Bool
mount_read s none = (s, false)
mount_read s (some b) = mount s b

unfoldable pub fat32_init : {D : Type 0} → Disk D → Fat → D → Fat × Bool
fat32_init io s d = mount_read s (io.read d 0)
