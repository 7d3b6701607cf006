-- ===== src/Fat/Alloc.antt =====
-- `fat32_alloc_cluster` of fs/fat32/fat32.c.
use valiant_core.Base.{
  ℕ, ◌+◌, ◌≤◌, ◌<◌, ◌≡◌, ◌≢◌, refl, subst, ◌⊎◌, inl, inr, arith, true, Option, none, some, ◌==◌,
  find_first, find_first-some, find_first-none,
}
use valiant_core.Fat.{
  Disk, Fat, eoc, read_fat_entry, write_fat_entry, rounds, take_cluster, alloc_cluster,
}
use valiant_core.Fat.Table.{IsDisk, read-write_fat_entry, read-write_fat_entry_other}

-- The lowest free cluster, marked as the end of a chain; or none, where no cluster is free.
pub record Taken {D : Type 0} (io : Disk D) (s : Fat) (d e : D) (i : ℕ) : Type 0 where
  pub low : 2 ≤ i
  pub high : i < 2 + rounds s
  pub free : read_fat_entry io s d i ≡ 0
  pub first : (j : ℕ) → 2 ≤ j → j < i → read_fat_entry io s d j ≢ 0
  pub marked : (write_fat_entry io s d i eoc).1 ≡ true → read_fat_entry io s e i ≡ eoc
  pub others :
      (write_fat_entry io s d i eoc).1 ≡ true
      → (k : ℕ) → k ≢ i
      → k < 4294967296
      → read_fat_entry io s e k ≡ read_fat_entry io s d k

abbrev pub Allocs : {D : Type 0} → Disk D → Fat → D → D × Option ℕ → Type 0
Allocs io s d r =
    ((i : ℕ) × (r.1 ≡ some i) × Taken io s d r.0 i)
    ⊎ ((r.1 ≡ none)
        × (r.0 ≡ d)
        × ((j : ℕ) → 2 ≤ j → j < 2 + rounds s → read_fat_entry io s d j ≢ 0))

module _ {D : Type 0} (io : Disk D) (law : IsDisk io) (s : Fat)
    (small : s.fat_start < 4294967296) where
  rounds-lt : 2 + rounds s < 4294967296 + 2
  rounds-lt = omega arith

  take_cluster-Allocs :
      (d : D) (slot : Option ℕ)
      → find_first (rounds s) 2 (λ i. read_fat_entry io s d i == 0) ≡ slot
      → Allocs io s d (take_cluster io s d slot)
  unfolding take_cluster
  take_cluster-Allocs d none e = inr (
    refl,
    refl,
    λ j lo hi zero_entry.
        ground (arith, find_first-none (rounds s) 2 (λ i. read_fat_entry io s d i == 0) e j lo hi),
  )
  take_cluster-Allocs d (some i) e =
      let f = find_first-some (rounds s) 2 (λ i. read_fat_entry io s d i == 0) e in
      inl (
        i,
        refl,
        record {
          low = f.0;
          high = f.1;
          free = ground (arith, f.2);
          first = λ j lo hi z. ground (arith, f.3 j lo hi);
          marked = λ ok. read-write_fat_entry io law s d i eoc ok;
          others = λ ok k ne hk.
              read-write_fat_entry_other io law s d i eoc k ne hk (omega (arith, f.1)) small ok;
        },
      )

  -- Over a disk that reads back what it wrote, `fat32_alloc_cluster` takes the lowest free cluster,
  -- marks it as an end of chain and changes no other entry below 2 ^ 32, if the write succeeds; it fails, with
  -- the disk as it was, only where no cluster is free.
  pub alloc_cluster-Allocs : (d : D) → Allocs io s d (alloc_cluster io s d)
  unfolding alloc_cluster
  alloc_cluster-Allocs d = take_cluster-Allocs d _ refl

  some_cluster :
      (d : D) (i : ℕ) → (alloc_cluster io s d).1 ≡ some i → Taken io s d (alloc_cluster io s d).0 i
  some_cluster d i e = from_cases (alloc_cluster io s d) (alloc_cluster-Allocs d) e
    where
      from_cases : (r : D × Option ℕ) → Allocs io s d r → r.1 ≡ some i → Taken io s d r.0 i
      from_cases r (inl (j, e', t)) e = let same : j ≡ i = cc in subst (Taken io s d r.0) same t
      from_cases r (inr (e', same, busy)) e = absurd cc

  -- Of two allocations in a row, the first with a write that succeeds, the second does not yield
  -- the cluster of the first.
  pub alloc_cluster_twice :
      (d : D) (i : ℕ)
      → (alloc_cluster io s d).1 ≡ some i
      → (write_fat_entry io s d i eoc).1 ≡ true
      → (alloc_cluster io s (alloc_cluster io s d).0).1 ≢ some i
  alloc_cluster_twice d i e ok again =
      let marked = (some_cluster d i e).marked ok in
      let free = (some_cluster (alloc_cluster io s d).0 i again).free in
      ground (arith, marked, free)
