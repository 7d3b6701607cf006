-- ===== src/Fat/Dir.antt =====
-- `fat32_8dot3_to_name` and `fat32_open` of fs/fat32/fat32.c. A path and a name are C strings
-- without their final 0. The walk over the clusters of the root directory takes `fuel` rounds: a
-- cyclic chain without the file would keep the code walking for ever.
pub mod Open
pub mod Name
use valiant_core.Base.{
  ℕ, zero, suc, ◌+◌, ◌-◌, ◌*◌, ◌/◌, ◌%◌, Bool, true, false, not, ◌&&◌, ◌||◌, Option, none, some,
  List, [], ◌∷◌, ◌++◌, leb, ltb, ◌==◌, if◌then◌else◌, u32, u64, update, length, find_first, bit_and,
}
use valiant_core.Fat.{
  Disk, Fat, File, Sector, sector_size, max_files, eoc, get16, get32, cluster_to_lba,
  read_fat_entry,
}

abbrev pub name_len : ℕ
name_len = 64

-- `while (i < 8 && j < out_len - 1 && name83[i] != ' ') out[j++] = name83[i++];`: `n` characters of
-- the field and `room` of the buffer are left.
unfoldable pub copy_chars : ℕ → ℕ → Sector → ℕ → List ℕ
copy_chars zero room b i = []
copy_chars (suc n) zero b i = []
copy_chars (suc n) (suc room) b i =
    let rest = copy_chars n room b (i + 1) in if b i == b' ' then [] else b i ∷ rest

-- The name of the directory entry at `off`; `out_len - 2` is unsigned.
unfoldable pub display_name : Sector → ℕ → ℕ → List ℕ
display_name b off out_len =
    let stem = copy_chars 8 (out_len - 1) b off in
    let j = length stem in
    if not (b (off + 8) == b' ') && ltb j (u32 (out_len + 4294967294))
    then stem ++ b'.' ∷ copy_chars 3 (out_len - 1 - (j + 1)) b (off + 8)
    else stem

-- The comparison of `path` with `name_buf`, `n` characters of them at most. A byte of `path` is a
-- signed `char` and one of `name_buf` a `uint8_t`: from 128 on, equal bytes are not the same number.
unfoldable pub matches : ℕ → List ℕ → List ℕ → Bool
matches zero path name = true
matches (suc n) [] [] = true
matches (suc n) [] (e ∷ name) = e == 0
matches (suc n) (c ∷ path) [] = c == 0
matches (suc n) (c ∷ path) (e ∷ name) =
    let rest = matches n path name in
    if not (c == e && ltb c 128) then false else if c == 0 then true else rest

-- How far a search has come: at an entry of a sector, at its end, or still on.
pub data Look : Type 0 where
  found : Sector → ℕ → Look
  failed searching : Look

abbrev pub is_match : List ℕ → Sector → ℕ → Bool
is_match path b off = matches name_len path (display_name b off name_len)

-- The entries of a sector: `n` of them, from the offset `off` on.
unfoldable pub scan_entries : List ℕ → Sector → ℕ → ℕ → Look
scan_entries path b zero off = searching
scan_entries path b (suc n) off =
    let rest = scan_entries path b n (off + 32) in
    if b off == 0
    then failed
    else if b off == 0xE5
    then rest
    else if b (off + 11) == 0x0F
    then rest
    else if is_match path b off
    then found b off
    else rest

-- Goes on only from `searching`.
unfoldable pub or_else : Look → Look → Look
or_else (found b off) later = found b off
or_else failed later = failed
or_else searching later = later

unfoldable pub scan_sector : List ℕ → Option Sector → Look
scan_sector path none = failed
scan_sector path (some b) = scan_entries path b (sector_size / 32) 0

module _ {D : Type 0} (io : Disk D) (s : Fat) (d : D) (path : List ℕ) where
  -- The sectors of a cluster: `n` of them, from `sec` on.
  unfoldable pub scan_cluster : ℕ → ℕ → ℕ → Look
  scan_cluster zero lba sec = searching
  scan_cluster (suc n) lba sec =
      or_else (scan_sector path (io.read d (u64 (lba + sec)))) (scan_cluster n lba (sec + 1))

  unfoldable pub scan_chain : ℕ → ℕ → Look
  scan_chain zero cluster = searching
  scan_chain (suc fuel) cluster =
      let here = scan_cluster s.sec_per_clus (cluster_to_lba s cluster) 0 in
      let rest = scan_chain fuel (read_fat_entry io s d cluster) in
      if ltb cluster eoc then or_else here rest else failed

-- The descriptor of the entry at `off`.
unfoldable pub file_of : File → Sector → ℕ → File
file_of f b off = record f {
  active = true;
  first_cluster = get16 b (off + 20) * 65536 + get16 b (off + 26);
  cur_cluster = get16 b (off + 20) * 65536 + get16 b (off + 26);
  file_size = get32 b (off + 28);
  pos = 0;
  is_dir = not (bit_and (b (off + 11)) 0x10 == 0);
}

unfoldable pub open_at : Fat → ℕ → Look → Fat × Option ℕ
open_at s fd (found b off) =
    (record s { files = update s.files fd (file_of (s.files fd) b off) }, some fd)
open_at s fd failed = (s, none)
open_at s fd searching = (s, none)

unfoldable pub open_slot : Fat → Option ℕ → Look → Fat × Option ℕ
open_slot s none look = (s, none)
open_slot s (some fd) look = open_at s fd look

abbrev pub free_file : Fat → ℕ → Bool
free_file s i = not (s.files i).active

unfoldable pub fat32_open : {D : Type 0} → Disk D → Fat → D → ℕ → List ℕ → Fat × Option ℕ
fat32_open io s d fuel path =
    if not s.initialized
    then (s, none)
    else open_slot s (find_first max_files 0 (free_file s))
        (scan_chain io s d path fuel s.root_cluster)
