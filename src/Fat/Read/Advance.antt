-- ===== src/Fat/Read/Advance.antt =====
-- One round of the loop of `fat32_read` in fs/fat32/fat32.c: the move behind the bytes copied.
use native.Mathlib.Nat.{mod-lt, div-add-mod'}
use valiant_core.Base.{
  ℕ, ◌+◌, ◌-◌, ◌*◌, ◌/◌, ◌%◌, ◌≤◌, ◌<◌, ◌≡◌, ◌≢◌, refl, ap, subst, arith, Bool, true, false, none,
  u32, ◌==◌, ℕ_discrete, dec_lt,
}
use valiant_core.Fat.{Disk, Fat, File, sector_size, eoc, read_fat_entry}
use valiant_core.Fat.Read.{cluster_bytes, byte_off, advance}
use valiant_core.Fat.Read.Blocks.{same_block, next_block, block_full}
use valiant_core.Fat.Read.Content.{chain, IsAt}

module _ {D : Type 0} (io : Disk D) (s : Fat) (d : D) where
  -- The disk reads, a cluster has a sector, and the chain of the file does not end before the file.
  pub record IsReadable (first size : ℕ) : Type 0 where
    pub reads : (lba : ℕ) → io.read d lba ≢ none
    pub clusters : 0 < s.sec_per_clus
    pub chained : (k : ℕ) → k * cluster_bytes s < size → chain io s d first k < eoc

  pub record Moved (f : File) (n : ℕ) (a : File × Bool) : Type 0 where
    pub pos : a.0.pos ≡ f.pos + n
    pub first : a.0.first_cluster ≡ f.first_cluster
    pub size : a.0.file_size ≡ f.file_size
    pub at : IsAt io s d a.0
    pub ended : a.1 ≡ false → f.pos + n ≡ f.file_size

  block_room :
      (f : File) (n : ℕ)
      → 0 < s.sec_per_clus
      → byte_off s f + n ≤ sector_size
      → f.pos % cluster_bytes s + n ≤ cluster_bytes s
  unfolding byte_off
  block_room f n spc fits =
      let room : f.pos % cluster_bytes s < cluster_bytes s = mod-lt f.pos (omega arith) in
      omega arith

  module _ (f : File) (n : ℕ) (at : IsAt io s d f) (ok : IsReadable f.first_cluster f.file_size)
      (pos : 0 < n) (fits : n ≤ f.file_size - f.pos) (room : byte_off s f + n ≤ sector_size) where
    next_cluster :
        (f.pos + n) % cluster_bytes s ≡ 0
        → read_fat_entry io s d f.cur_cluster
          ≡ chain io s d f.first_cluster ((f.pos + n) / cluster_bytes s)
    unfolding chain
    next_cluster e =
        let small = block_room f n ok.clusters room in
        let full = block_full (cluster_bytes s) f.pos n pos small e in
        let blk = next_block (cluster_bytes s) f.pos n (omega (arith, ok.clusters)) full in
        rw (blk.0) (ap (read_fat_entry io s d) at.cluster)

    same_cluster :
        (f.pos + n) % cluster_bytes s ≢ 0
        → f.cur_cluster ≡ chain io s d f.first_cluster ((f.pos + n) / cluster_bytes s)
    same_cluster ne =
        let small = block_room f n ok.clusters room in
        elim (ℕ_discrete (f.pos % cluster_bytes s + n) (cluster_bytes s)) [
          | yes full ↦
              absurd (ne (next_block (cluster_bytes s) f.pos n (omega (arith, ok.clusters)) full).1)
          | no part ↦ rw ((same_block (cluster_bytes s) f.pos n (omega arith)).0) at.cluster
        ]

    chain_ended :
        eoc ≤ chain io s d f.first_cluster ((f.pos + n) / cluster_bytes s) → f.pos + n ≡ f.file_size
    chain_ended le = elim (dec_lt (f.pos + n) f.file_size) [
      | yes lt ↦
          let k = (f.pos + n) / cluster_bytes s in
          absurd (
            omega (arith, ok.chained k (omega (arith, div-add-mod' (f.pos + n) (cluster_bytes s)))))
      | no stop ↦ omega (arith, at.within)
    ]

    pub advance-Moved : Moved f n (advance io s d f n)
    unfolding advance
    advance-Moved =
        let word : u32 (f.pos + n) ≡ f.pos + n = omega (arith, at.word, at.within) in
        elim (ℕ_discrete ((f.pos + n) % cluster_bytes s) 0) [
          | yes e ↦
              let hit : (f.pos + n) % cluster_bytes s == 0 ≡ true = ground arith in
              rw (word, hit)
                (record {
                  pos = refl;
                  first = refl;
                  size = refl;
                  at = record {
                    cluster = next_cluster e;
                    within = omega (arith, at.within);
                    word = at.word;
                  };
                  ended =
                      λ over. chain_ended (subst (λ c. eoc ≤ c) (next_cluster e) (ground arith));
                })
          | no ne ↦
              let miss : (f.pos + n) % cluster_bytes s == 0 ≡ false = ground arith in
              rw (word, miss)
                (record {
                  pos = refl;
                  first = refl;
                  size = refl;
                  at = record {
                    cluster = same_cluster ne;
                    within = omega (arith, at.within);
                    word = at.word;
                  };
                  ended = λ over. absurd cc;
                })
        ]
