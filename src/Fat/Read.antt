-- ===== src/Fat/Read.antt =====
-- `fat32_read` and `fat32_close` of fs/fat32/fat32.c. A descriptor is the 32 bits of its `int`, so a
-- negative one is past the table. `buf` is not null; the bytes copied to it are the result.
pub mod Blocks
pub mod Content
pub mod Advance
pub mod Loop
pub mod Call
use Prim.Native.Nat.{min}
use valiant_core.Base.{
  ℕ, zero, suc, ◌+◌, ◌-◌, ◌*◌, ◌/◌, ◌%◌, Bool, true, false, ◌&&◌, Option, none, some, List, [], ◌∷◌,
  ◌++◌, leb, ltb, ◌==◌, if◌then◌else◌, u32, u64, update,
}
use valiant_core.Fat.{
  Disk, Fat, File, Sector, sector_size, max_files, eoc, cluster_to_lba, read_fat_entry,
}

-- `fat32.sec_per_clus * FAT32_SECTOR_SZ`
abbrev pub cluster_bytes : Fat → ℕ
cluster_bytes s = s.sec_per_clus * sector_size

-- `memcpy(buf + read, fat32_sector_buf + off, n)`
unfoldable pub slice : Sector → ℕ → ℕ → List ℕ
slice b off zero = []
slice b off (suc n) = b off ∷ slice b (off + 1) n

-- Sector and offset of the byte at `f->pos`.
unfoldable pub sector_at : Fat → File → ℕ
sector_at s f = u64 (cluster_to_lba s f.cur_cluster + f.pos % cluster_bytes s / sector_size)

unfoldable pub byte_off : Fat → File → ℕ
byte_off s f = f.pos % cluster_bytes s % sector_size

-- `left` is `len - read`.
unfoldable pub to_copy : Fat → File → ℕ → ℕ
unfolding byte_off
to_copy s f left =
    let room = sector_size - byte_off s f in
    let asked = if ltb left room then left else room in
    if ltb (f.file_size - f.pos) asked then f.file_size - f.pos else asked

-- The result of the loop with `bytes` before what the later rounds copy.
unfoldable pub prepend : List ℕ → File × Option (List ℕ) → File × Option (List ℕ)
prepend bytes (f, none) = (f, none)
prepend bytes (f, some more) = (f, some (bytes ++ more))

module _ {D : Type 0} (io : Disk D) (s : Fat) (d : D) where
  -- The file after `n` bytes more, and whether the loop goes on.
  unfoldable pub advance : File → ℕ → File × Bool
  advance f n =
      let moved = record f { pos = u32 (f.pos + n) } in
      let next = read_fat_entry io s d f.cur_cluster in
      if moved.pos % cluster_bytes s == 0
      then (record moved { cur_cluster = next }, ltb next eoc)
      else (moved, true)

  -- The loop: each round copies a byte at least, so `len` rounds are enough.
  unfoldable pub read_loop : ℕ → File → ℕ → File × Option (List ℕ)
  read_loop zero f left = (f, some [])
  read_loop (suc fuel) f left = elim (ltb 0 left && ltb f.pos f.file_size) [
    | false ↦ (f, some [])
    | true ↦ elim (io.read d (sector_at s f)) [
      | none ↦ (f, none)
      | some b ↦
          let n = to_copy s f left in
          let a = advance f n in
          let bytes = slice b (byte_off s f) n in
          elim a.1 [
            | false ↦ (a.0, some bytes)
            | true ↦ prepend bytes (read_loop fuel a.0 (left - n))
          ]
    ]
  ]

  unfoldable pub fat32_read : ℕ → ℕ → Fat × Option (List ℕ)
  fat32_read fd len =
      let f = s.files fd in
      let r = read_loop len f len in
      if leb max_files fd
      then (s, none)
      else if f.active
      then (if len == 0 then (s, none) else (record s { files = update s.files fd r.0 }, r.1))
      else (s, none)

pub fat32_close : Fat → ℕ → Fat × Bool
fat32_close s fd =
    if leb max_files fd
    then (s, false)
    else if (s.files fd).active
    then (record s { files = update s.files fd (record (s.files fd) { active = false }) }, true)
    else (s, false)
