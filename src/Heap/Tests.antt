-- ===== src/Heap/Tests.antt =====
-- The heap with a `get_bitmap` that reads the bit, and the allocator's theorems there.
use valiant_core.Base.{ℕ, ◌+◌, ◌≤◌, ◌⊎◌, refl, arith, Bool, for_range, find_first}
use valiant_core.Heap.{Heap, kmalloc_ext, take_run, mark, set_bitmap}
use valiant_core.Heap.BitTest.{bitmap_bit, test_bit}
use valiant_core.Heap.Blocks.{GetsBits, Kmallocs, kmalloc_ext-Kmallocs}
use valiant_core.Heap.Disjoint.{kmalloc_ext_twice}

abbrev get_bitmap : (ℕ → ℕ) → ℕ → Bool
get_bitmap h bit = bitmap_bit h bit

get_bitmap-GetsBits : GetsBits get_bitmap
get_bitmap-GetsBits h bit = refl

-- The first two blocks are taken.
abbrev heap : Heap
heap = record { heap_bitmap = λ i. 3; memory = λ a. 0 }

kmalloc_ext-Kmallocs_example : Kmallocs heap 40 (kmalloc_ext get_bitmap heap 40)
kmalloc_ext-Kmallocs_example = kmalloc_ext-Kmallocs get_bitmap get_bitmap-GetsBits heap 40

kmalloc_ext_twice_example : (0xD0000044 + 40 ≤ 0xD0000084) ⊎ (0xD0000084 + 20 ≤ 0xD0000044)
unfolding kmalloc_ext take_run mark set_bitmap test_bit for_range find_first
kmalloc_ext_twice_example =
    kmalloc_ext_twice get_bitmap heap 40 20 0xD0000044 0xD0000084 get_bitmap-GetsBits (omega arith)
      (omega arith) refl refl
