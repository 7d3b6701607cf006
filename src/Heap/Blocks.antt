-- ===== src/Heap/Blocks.antt =====
-- `kmalloc_ext` of memory/kheap.c: which blocks it takes.
use valiant_core.Base.{
  ℕ, ◌+◌, ◌*◌, ◌≤◌, ◌<◌, ◌≡◌, refl, sym, ap, ◌∙◌, ◌⊎◌, inl, inr, arith, Bool, true, false, ◌||◌,
  Option, Option-cases, none, some, u32, update_self, find_first, find_first-some, find_first-none,
}
use valiant_core.Heap.{
  Heap, blocks, block_size, header_size, kernel_heap_start, blocks_needed, run_free, take_run,
  kmalloc_ext,
}
use valiant_core.Heap.BitTest.{bitmap_bit, in_run, mark_bit}

-- What the allocator needs of `get_bitmap`: it tells the bits that `set_bitmap` sets.
abbrev pub GetsBits : ((ℕ → ℕ) → ℕ → Bool) → Type 0
GetsBits get_bitmap = (h : ℕ → ℕ) (bit : ℕ) → get_bitmap h bit ≡ bitmap_bit h bit

-- The run of `n` blocks from `i` on was free, no earlier one was, and now just these are taken too.
pub record TakesRun (h r : Heap) (n i : ℕ) : Type 0 where
  pub in_heap : i < blocks
  pub free : (c : ℕ) → i ≤ c → c < i + n → bitmap_bit h.heap_bitmap c ≡ false
  pub first :
      (k : ℕ) → k < i → (c : ℕ) × (k ≤ c) × (c < k + n) × (bitmap_bit h.heap_bitmap c ≡ true)
  pub taken : (c : ℕ) → bitmap_bit r.heap_bitmap c ≡ (in_run i n c || bitmap_bit h.heap_bitmap c)
  pub marked : r.memory (kernel_heap_start + i * block_size) ≡ 0xDEADBEEF

abbrev pub Kmallocs : Heap → ℕ → Heap × Option ℕ → Type 0
Kmallocs h size r =
    ((i : ℕ) × (r.1 ≡ some (kernel_heap_start + i * block_size + header_size))
      × TakesRun h r.0 (blocks_needed size) i)
    ⊎ ((r.1 ≡ none)
        × (r.0 ≡ h)
        × ((k : ℕ)
            → k < blocks
            → (c : ℕ) × (k ≤ c)
              × (c < k + blocks_needed size)
              × (bitmap_bit h.heap_bitmap c ≡ true)))

module _ (get_bitmap : (ℕ → ℕ) → ℕ → Bool) (gets : GetsBits get_bitmap) where
  run_free_some :
      (h : ℕ → ℕ) (n k c : ℕ)
      → run_free get_bitmap h n k ≡ true
      → k ≤ c
      → c < k + n
      → bitmap_bit h c ≡ false
  run_free_some h n k c e lo hi = elim (Option-cases (find_first n k (get_bitmap h))) [
    | inl none_set ↦ sym (gets h c) ∙ find_first-none n k (get_bitmap h) none_set c lo hi
    | inr (j, some_set) ↦ ground (arith, some_set)
  ]

  run_free_none :
      (h : ℕ → ℕ) (n k : ℕ)
      → run_free get_bitmap h n k ≡ false
      → (c : ℕ) × (k ≤ c) × (c < k + n) × (bitmap_bit h c ≡ true)
  run_free_none h n k e = elim (Option-cases (find_first n k (get_bitmap h))) [
    | inl none_set ↦ ground (arith, none_set)
    | inr (j, some_set) ↦
        let f = find_first-some n k (get_bitmap h) some_set in (j, f.0, f.1, sym (gets h j) ∙ f.2)
  ]

  take_run-Kmallocs :
      (h : Heap) (size : ℕ) (slot : Option ℕ)
      → find_first blocks 0 (run_free get_bitmap h.heap_bitmap (blocks_needed size)) ≡ slot
      → Kmallocs h size (take_run get_bitmap h (blocks_needed size) slot)
  unfolding take_run
  take_run-Kmallocs h size none e = inr (
    refl,
    refl,
    λ k lt. run_free_none h.heap_bitmap (blocks_needed size) k (
        find_first-none blocks 0 (run_free get_bitmap h.heap_bitmap (blocks_needed size)) e k
          (omega arith) (omega arith)),
  )
  take_run-Kmallocs h size (some i) e =
      let n = blocks_needed size in
      let f = find_first-some blocks 0 (run_free get_bitmap h.heap_bitmap n) e in
      let word : u32 (kernel_heap_start + i * block_size) ≡ kernel_heap_start + i * block_size =
        omega (arith, f.1) in
      let addr = kernel_heap_start + i * block_size in
      inl (
        i,
        ap some (omega (arith, f.1)),
        record {
          in_heap = f.1;
          free = λ c lo hi. run_free_some h.heap_bitmap n i c f.2 lo hi;
          first = λ k lt. run_free_none h.heap_bitmap n k (f.3 k (omega arith) lt);
          taken = mark_bit n i h.heap_bitmap;
          marked = rw word (update_self h.memory addr 0xDEADBEEF);
        },
      )

  -- Where `get_bitmap` tells the bits that `set_bitmap` sets, `kmalloc_ext` takes the first run of
  -- free blocks for the size and its header, marks these and no other, and yields the address
  -- behind the header; or it yields NULL and changes nothing, where every run has a taken block.
  pub kmalloc_ext-Kmallocs : (h : Heap) (size : ℕ) → Kmallocs h size (kmalloc_ext get_bitmap h size)
  unfolding kmalloc_ext
  kmalloc_ext-Kmallocs h size = take_run-Kmallocs h size _ refl
