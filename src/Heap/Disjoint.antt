-- ===== src/Heap/Disjoint.antt =====
-- Two allocations of memory/kheap.c have no byte in common.
use valiant_core.Base.{
  ℕ, ◌+◌, ◌*◌, ◌≤◌, ◌<◌, ◌≡◌, sym, ◌∙◌, ◌⊎◌, inl, inr, arith, Bool, Option, some, dec_lt,
}
use valiant_core.Heap.{Heap, block_size, header_size, kernel_heap_start, blocks_needed, kmalloc_ext}
use valiant_core.Heap.Blocks.{GetsBits, TakesRun, Kmallocs, kmalloc_ext-Kmallocs}

blocks_needed-le :
    (size : ℕ) → size + 35 < 4294967296 → size + header_size ≤ blocks_needed size * block_size
blocks_needed-le size small = omega arith

blocks_needed-lt : (size : ℕ) → size + 35 < 4294967296 → 0 < blocks_needed size
blocks_needed-lt size small = omega arith

-- The run of an allocation that succeeds.
taken_run :
    (h : Heap) (size a : ℕ) (r : Heap × Option ℕ)
    → Kmallocs h size r
    → r.1 ≡ some a
    → (i : ℕ) × (a ≡ kernel_heap_start + i * block_size + header_size)
      × TakesRun h r.0 (blocks_needed size) i
taken_run h size a r (inl (i, e, t)) e' = (i, some_eq (sym e' ∙ e), t)
  where
    some_eq : {x y : ℕ} → some x ≡ some y → x ≡ y
    some_eq e = cc
taken_run h size a r (inr (e, same, full)) e' = absurd cc

runs_apart :
    (h m r : Heap) (n k i j : ℕ)
    → 0 < n
    → 0 < k
    → TakesRun h m n i
    → TakesRun m r k j
    → (i + n ≤ j) ⊎ (j + k ≤ i)
runs_apart h m r n k i j hn hk t u = elim (dec_lt j (i + n)) [
  | no stop ↦ inl (omega arith)
  | yes below ↦ elim (dec_lt i (j + k)) [
    | no stop ↦ inr (omega arith)
    | yes above ↦ elim (dec_lt i j) [
      | yes lt ↦ absurd (ground (arith, t.taken j, u.free j))
      | no stop ↦ absurd (ground (arith, t.taken i, u.free i))
    ]
  ]
]

-- Where `get_bitmap` tells the bits that `set_bitmap` sets, the memory of two allocations in a row,
-- of sizes whose rounding does not overflow, does not overlap.
pub kmalloc_ext_twice :
    (get_bitmap : (ℕ → ℕ) → ℕ → Bool) (h : Heap) (size other a b : ℕ)
    → GetsBits get_bitmap
    → size + 35 < 4294967296
    → other + 35 < 4294967296
    → (kmalloc_ext get_bitmap h size).1 ≡ some a
    → (kmalloc_ext get_bitmap (kmalloc_ext get_bitmap h size).0 other).1 ≡ some b
    → (a + size ≤ b) ⊎ (b + other ≤ a)
kmalloc_ext_twice get_bitmap h size other a b gets small small' e e' =
    let first = kmalloc_ext get_bitmap h size in
    let second = kmalloc_ext get_bitmap first.0 other in
    let t = taken_run h size a first (kmalloc_ext-Kmallocs get_bitmap gets h size) e in
    let u =
      taken_run first.0 other b second (kmalloc_ext-Kmallocs get_bitmap gets first.0 other) e' in
    let apart =
      runs_apart h first.0 second.0 (blocks_needed size) (blocks_needed other) t.0 u.0
        (blocks_needed-lt size small) (blocks_needed-lt other small') t.2 u.2 in
    elim apart [
      | inl le ↦ inl (omega (arith, t.1, u.1, blocks_needed-le size small))
      | inr le ↦ inr (omega (arith, t.1, u.1, blocks_needed-le other small'))
    ]
