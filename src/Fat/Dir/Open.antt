-- ===== src/Fat/Dir/Open.antt =====
-- What `fat32_open` of fs/fat32/fat32.c leaves for `fat32_read`.
use valiant_core.Base.{
  ℕ, ◌+◌, ◌*◌, ◌==◌, bit_and, ◌<◌, ◌≡◌, ◌≢◌, ◌⊎◌, true, false, not, Option, none, some, List,
  update, First,
}
use valiant_core.Fat.{Disk, Fat, File, Sector, max_files}
use valiant_core.Fat.Read.Content.{IsAt}
use valiant_core.Fat.Dir.{is_match, Look, found, failed, searching, free_file, scan_chain}

-- The entry at `off` of the sector `b` is in use, is no part of a long name, and has the name `path`.
pub record IsEntry (path : List ℕ) (b : Sector) (off : ℕ) : Type 0 where
  pub not_end : b off ≢ 0
  pub not_deleted : b off ≢ 0xE5
  pub not_long_name : b (off + 11) ≢ 0x0F
  pub named : is_match path b off ≡ true

-- The descriptor holds the first cluster, the size and the kind of the entry at `off` of `b`.
pub record Describes (b : Sector) (off : ℕ) (f : File) : Type 0 where
  pub first_cluster :
      f.first_cluster
      ≡ (b (off + 20) + 256 * b (off + 21)) * 65536 + (b (off + 26) + 256 * b (off + 27))
  pub cur_cluster : f.cur_cluster ≡ f.first_cluster
  pub file_size :
      f.file_size
      ≡ b (off + 28) + 256 * b (off + 29) + 65536 * b (off + 30) + 16777216 * b (off + 31)
  pub is_dir : f.is_dir ≡ not (bit_and (b (off + 11)) 0x10 == 0)

-- The lowest free descriptor is at the start of the file of the first entry that the search meets with
-- the name; no other changed.
pub record Opened {D : Type 0} (io : Disk D) (s : Fat) (d : D) (path : List ℕ) (look : Look)
    (r : Fat) (fd : ℕ) : Type 0 where
  pub sector : Sector
  pub offset : ℕ
  pub searched : look ≡ found sector offset
  pub entry : IsEntry path sector offset
  pub describes : Describes sector offset (r.files fd)
  pub lowest : First (free_file s) 0 max_files fd
  pub active : (r.files fd).active ≡ true
  pub start : (r.files fd).pos ≡ 0
  pub at : (r.files fd).file_size < 4294967296 → IsAt io r d (r.files fd)
  pub others : (k : ℕ) → k ≢ fd → r.files k ≡ s.files k

abbrev pub Opens : {D : Type 0} → Disk D → Fat → D → ℕ → List ℕ → Fat × Option ℕ → Type 0
Opens io s d fuel path r =
    ((fd : ℕ) × (r.1 ≡ some fd)
      × Opened io s d path (scan_chain io s d path fuel s.root_cluster) r.0 fd)
    ⊎ ((r.1 ≡ none)
        × (r.0 ≡ s)
        × ((s.initialized ≡ false)
            ⊎ ((j : ℕ) → j < max_files → (s.files j).active ≡ true)
            ⊎ (scan_chain io s d path fuel s.root_cluster ≡ failed)
            ⊎ (scan_chain io s d path fuel s.root_cluster ≡ searching)))

-- What a search has found is an entry with the name.
abbrev FindsEntry : List ℕ → Look → Type 0
FindsEntry path (found b off) = IsEntry path b off
FindsEntry path failed = Unit
FindsEntry path searching = Unit

module _ {D : Type 0} (io : Disk D) (s : Fat) (d : D) (fuel : ℕ) (path : List ℕ) where
  abbrev opened_table : ℕ → File → Fat
  opened_table fd f = record s { files = update s.files fd f }
