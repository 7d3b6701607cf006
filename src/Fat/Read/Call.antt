-- ===== src/Fat/Read/Call.antt =====
-- The call `fat32_read` of fs/fat32/fat32.c on an open descriptor.
use valiant_core.Base.{
  ℕ, ◌+◌, ◌<◌, ◌≡◌, ◌≢◌, ap, arith, true, false, Option, none, some, List, leb, ◌==◌, if◌then◌else◌,
  update, update_self, update_ne,
}
use valiant_core.Fat.{Disk, Fat, max_files}
use valiant_core.Fat.Read.{read_loop, fat32_read}
use valiant_core.Fat.Read.Content.{bytes_from, content, IsAt}
use valiant_core.Fat.Read.Advance.{IsReadable}
use valiant_core.Fat.Read.Loop.{amount, read_loop-Reads}

module _ {D : Type 0} (io : Disk D) (s : Fat) (d : D) where
  -- What a call does to the descriptor and to the others.
  pub record ReadsFile (fd len : ℕ) (r : Fat × Option (List ℕ)) : Type 0 where
    pub bytes :
        r.1
        ≡ some (
            bytes_from
              (content io s d (s.files fd).first_cluster)
              (s.files fd).pos
              (amount (s.files fd) len))
    pub pos : (r.0.files fd).pos ≡ (s.files fd).pos + amount (s.files fd) len
    pub at : IsAt io s d (r.0.files fd)
    pub others : (k : ℕ) → k ≢ fd → r.0.files k ≡ s.files k

  fat32_read_opened :
      (fd len : ℕ)
      → fd < max_files
      → (s.files fd).active ≡ true
      → 0 < len
      → let new = read_loop io s d len (s.files fd) len in
        fat32_read io s d fd len ≡ (record s { files = update s.files fd new.0 }, new.1)
  unfolding fat32_read
  fat32_read_opened fd len h active pos =
      let in_table : leb max_files fd ≡ false = ground arith in
      let asked : len == 0 ≡ false = ground arith in
      let new = read_loop io s d len (s.files fd) len in
      rw (in_table, asked)
        (ap (λ t. if t then (record s { files = update s.files fd new.0 }, new.1) else (s, none))
          active)

  -- On an open descriptor at a position of its file, over a disk that reads and a chain that is not
  -- shorter than the file, `fat32_read` of a length other than 0 succeeds: it copies the next bytes
  -- of the file, as many as were asked for or are left, and moves the descriptor behind them.
  pub fat32_read-ReadsFile :
      (fd len : ℕ)
      → fd < max_files
      → (s.files fd).active ≡ true
      → 0 < len
      → IsAt io s d (s.files fd)
      → IsReadable io s d (s.files fd).first_cluster (s.files fd).file_size
      → ReadsFile fd len (fat32_read io s d fd len)
  fat32_read-ReadsFile fd len h active pos at ok =
      let w = read_loop-Reads io s d len (s.files fd) len (omega arith) at ok in
      let new = read_loop io s d len (s.files fd) len in
      let self = update_self s.files fd new.0 in
      rw (fat32_read_opened fd len h active pos) (record {
        bytes = w.bytes;
        pos = rw self w.pos;
        at = rw self w.at;
        others = λ k ne. update_ne s.files fd new.0 k ne;
      })
