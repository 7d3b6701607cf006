-- ===== src/Heap.antt =====
-- memory/kheap.c with include/kheap.h, in its variant of 32 bits, where `size_t` and `uintptr_t` have
-- 4 bytes. `get_bitmap`, which the repository declares and nowhere defines, is an argument of
-- `kmalloc_ext`. The or of two bytes is a byte, so no truncation is written for the bitmap.
pub mod BitTest
pub mod Blocks
pub mod Disjoint
mod Tests
use valiant_core.Base.{
  ℕ, ◌+◌, ◌-◌, ◌*◌, ◌/◌, ◌%◌, ◌^◌, Bool, true, false, Option, none, some, u32, update, bit_and,
  bit_or, for_range, find_first,
}

abbrev pub kernel_heap_start : ℕ
kernel_heap_start = 0xD0000000

abbrev pub block_size : ℕ
block_size = 32

-- `KERNEL_HEAP_SIZE / BLOCK_SIZE`
abbrev pub blocks : ℕ
blocks = 1048576

abbrev pub header_size : ℕ
header_size = 4

-- `heap_bitmap`, and the words that the allocator writes, by address.
pub record Heap : Type 0 where
  pub heap_bitmap : ℕ → ℕ
  pub memory : ℕ → ℕ

unfoldable pub set_bitmap : (ℕ → ℕ) → ℕ → ℕ → ℕ
set_bitmap h bit = update h (bit / 8) (bit_or (h (bit / 8)) (2 ^ (bit % 8)))

unfoldable pub clear_bitmap : (ℕ → ℕ) → ℕ → ℕ → ℕ
clear_bitmap h bit = update h (bit / 8) (bit_and (h (bit / 8)) (255 - 2 ^ (bit % 8)))

abbrev pub blocks_needed : ℕ → ℕ
blocks_needed size = u32 (size + header_size + block_size - 1) / block_size

-- The loop that sets the bits of `n` blocks from `i` on.
unfoldable pub mark : (ℕ → ℕ) → ℕ → ℕ → ℕ → ℕ
mark h i n = for_range n i (λ k m. set_bitmap m k) h

abbrev pub is_none : Option ℕ → Bool
is_none none = true
is_none (some i) = false

module _ (get_bitmap : (ℕ → ℕ) → ℕ → Bool) where
  -- `found`, for the run of `n` blocks from `i` on.
  abbrev pub run_free : (ℕ → ℕ) → ℕ → ℕ → Bool
  run_free h n i = is_none (find_first n i (get_bitmap h))

  unfoldable pub take_run : Heap → ℕ → Option ℕ → Heap × Option ℕ
  take_run h n none = (h, none)
  take_run h n (some i) =
      let addr = u32 (kernel_heap_start + i * block_size) in
      (
        record h { heap_bitmap = mark h.heap_bitmap i n; memory = update h.memory addr 0xDEADBEEF },
        some (u32 (addr + header_size)),
      )

  unfoldable pub kmalloc_ext : Heap → ℕ → Heap × Option ℕ
  kmalloc_ext h size =
      let n = blocks_needed size in take_run h n (find_first blocks 0 (run_free h.heap_bitmap n))
