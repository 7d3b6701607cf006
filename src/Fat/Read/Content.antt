-- ===== src/Fat/Read/Content.antt =====
-- What a file of fs/fat32/fat32.c holds: its clusters are the chain that the table gives, its bytes
-- those of their sectors, in order.
use native.Mathlib.Nat.{mod-lt}
use valiant_core.Base.{
  ℕ, zero, suc, ◌+◌, ◌-◌, ◌/◌, ◌%◌, ◌≤◌, ◌<◌, ◌≡◌, refl, sym, ap, ◌∙◌, arith, Option, none, some,
  List, [], ◌∷◌, ◌++◌, u64,
}
use valiant_core.Fat.{Disk, Fat, File, Sector, sector_size, cluster_to_lba, read_fat_entry}
use valiant_core.Fat.Read.{cluster_bytes, slice, sector_at, byte_off, to_copy}
use valiant_core.Fat.Read.Blocks.{same_block}

-- The `n` bytes from `p` on.
unfoldable pub bytes_from : (ℕ → ℕ) → ℕ → ℕ → List ℕ
bytes_from b p zero = []
bytes_from b p (suc n) = b p ∷ bytes_from b (p + 1) n

pub bytes_from-++ :
    (b : ℕ → ℕ) (p n m : ℕ) → bytes_from b p n ++ bytes_from b (p + n) m ≡ bytes_from b p (n + m)
unfolding bytes_from
bytes_from-++ b p zero m =
    let same : p + 0 ≡ p = omega arith in let e : 0 + m ≡ m = omega arith in rw (same, e) refl
bytes_from-++ b p (suc n) m =
    let e : suc n + m ≡ suc (n + m) = omega arith in
    let same : p + suc n ≡ p + 1 + n = omega arith in
    rw (e, same) (ap (λ l. b p ∷ l) (bytes_from-++ b (p + 1) n m))

pub slice-bytes_from :
    (b : Sector) (c : ℕ → ℕ) (off p n : ℕ)
    → ((j : ℕ) → j < n → b (off + j) ≡ c (p + j))
    → slice b off n ≡ bytes_from c p n
unfolding slice bytes_from
slice-bytes_from b c off p zero h = refl
slice-bytes_from b c off p (suc n) h =
    let o : off + 0 ≡ off = omega arith in
    let q : p + 0 ≡ p = omega arith in
    let head : b off ≡ c p = ap b (sym o) ∙ h 0 (omega arith) ∙ ap c q in
    let tail = slice-bytes_from b c (off + 1) (p + 1) n (λ j lt.
      let o' : off + 1 + j ≡ off + suc j = omega arith in
      let q' : p + 1 + j ≡ p + suc j = omega arith in
      ap b o' ∙ h (suc j) (omega arith) ∙ ap c (sym q')) in
    rw (head, tail) refl

unfoldable pub byte_of : Option Sector → ℕ → ℕ
byte_of none i = 0
byte_of (some b) i = b i

module _ {D : Type 0} (io : Disk D) (s : Fat) (d : D) where
  unfoldable pub chain : ℕ → ℕ → ℕ
  chain first zero = first
  chain first (suc k) = read_fat_entry io s d (chain first k)

  -- The sector of the byte `p` of the file that starts at the cluster `first`, and the byte.
  abbrev pub sector_of : ℕ → ℕ → ℕ
  sector_of first p =
      u64 (cluster_to_lba s (chain first (p / cluster_bytes s)) + p % cluster_bytes s / sector_size)

  unfoldable pub content : ℕ → ℕ → ℕ
  content first p = byte_of (io.read d (sector_of first p)) (p % cluster_bytes s % sector_size)

  -- The file is at a cluster of its chain.
  pub record IsAt (f : File) : Type 0 where
    pub cluster : f.cur_cluster ≡ chain f.first_cluster (f.pos / cluster_bytes s)
    pub within : f.pos ≤ f.file_size
    pub word : f.file_size < 4294967296

  pub sector_at_lem : (f : File) → IsAt f → sector_at s f ≡ sector_of f.first_cluster f.pos
  unfolding sector_at
  sector_at_lem f at = rw (at.cluster) refl

  pub to_copy-le :
      (f : File) (left : ℕ)
      → 0 < left
      → f.pos < f.file_size
      → (0 < to_copy s f left)
        × (to_copy s f left ≤ left)
        × (to_copy s f left ≤ f.file_size - f.pos)
        × (byte_off s f + to_copy s f left ≤ sector_size)
  unfolding to_copy byte_off
  to_copy-le f left pos more = ground arith

  in_block :
      (f : File) (n j : ℕ)
      → 0 < s.sec_per_clus
      → byte_off s f + n ≤ sector_size
      → j < n
      → f.pos % cluster_bytes s + j < cluster_bytes s
  unfolding byte_off
  in_block f n j spc fits lt =
      let room : f.pos % cluster_bytes s < cluster_bytes s = mod-lt f.pos (omega arith) in
      omega arith

  -- The bytes that one round copies are bytes of the file.
  byte-content :
      (f : File) (b : Sector) (j : ℕ)
      → IsAt f
      → f.pos % cluster_bytes s + j < cluster_bytes s
      → byte_off s f + j < sector_size
      → io.read d (sector_at s f) ≡ some b
      → content f.first_cluster (f.pos + j) ≡ b (byte_off s f + j)
  unfolding content byte_of byte_off
  byte-content f b j at inside fits r =
      let m = cluster_bytes s in
      let x = f.pos % m in
      let blk = same_block m f.pos j inside in
      let sec : (x + j) / sector_size ≡ x / sector_size = omega arith in
      let off : (x + j) % sector_size ≡ x % sector_size + j = omega arith in
      let same : sector_of f.first_cluster (f.pos + j) ≡ sector_at s f =
        rw (blk.0, blk.1, sec) (sym (sector_at_lem f at)) in
      rw (same, r, blk.1, off) refl

  pub slice-content :
      (f : File) (b : Sector) (n : ℕ)
      → IsAt f
      → 0 < s.sec_per_clus
      → byte_off s f + n ≤ sector_size
      → io.read d (sector_at s f) ≡ some b
      → slice b (byte_off s f) n ≡ bytes_from (content f.first_cluster) f.pos n
  slice-content f b n at spc fits r =
      slice-bytes_from b (content f.first_cluster) (byte_off s f) f.pos n
        (λ j lt. sym (byte-content f b j at (in_block f n j spc fits lt) (omega arith) r))
