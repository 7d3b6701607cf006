-- ===== src/Paging.antt =====
-- memory/paging.c with include/paging.h, in its variant of 32 bits.
-- `kernel_page_directory` is a function of the index. The page tables are words of a memory, each
-- at its address, apart from the directory. The address that `request_physical_page` returns is the
-- argument `new_pt`; the flush of the TLB leaves no trace in this state.
pub mod Walk
mod Tests
use valiant_core.Base.{
  ℕ, ◌+◌, ◌*◌, ◌/◌, ◌≤◌, ◌<◌, Bool, Option, none, some, ◌==◌, if◌then◌else◌, u32, update, bit_and,
  bit_or,
}

abbrev pub addr_mask : ℕ
addr_mask = 0xFFFFF000

abbrev pub page_present : ℕ
page_present = 1

-- `PT_INDEX` and `PD_INDEX`
abbrev pub pt_index : ℕ → ℕ
pt_index vaddr = bit_and (vaddr / 4096) 0x3FF

abbrev pub pd_index : ℕ → ℕ
pd_index vaddr = bit_and (vaddr / 4194304) 0x3FF

pub record Mmu : Type 0 where
  pub kernel_page_directory : ℕ → ℕ
  pub memory : ℕ → ℕ

abbrev pub is_present : ℕ → Bool
is_present entry = bit_and entry page_present == 1

-- The test of the directory entry, and the page table that it gets.
unfoldable pub with_table : Mmu → ℕ → ℕ → ℕ → Mmu
with_table m pd_idx flags new_pt =
    if is_present (m.kernel_page_directory pd_idx) then m else record m {
      kernel_page_directory =
          update m.kernel_page_directory pd_idx (bit_or (bit_or new_pt flags) page_present);
    }

-- The address of `table[i]`.
unfoldable pub slot_address : ℕ → ℕ → ℕ
slot_address entry i = u32 (bit_and entry addr_mask + 4 * i)

-- `table[pd_idx] = (phys & ADDR_MASK) | flags | PAGE_PRESENT;`
unfoldable pub write_slot : Mmu → ℕ → ℕ → ℕ → Mmu
write_slot m pd_idx phys flags = record m {
  memory =
      update m.memory (slot_address (m.kernel_page_directory pd_idx) pd_idx)
        (bit_or (bit_or (bit_and phys addr_mask) flags) page_present);
}

unfoldable pub map_page : Mmu → ℕ → ℕ → ℕ → ℕ → Mmu
map_page m phys virt flags new_pt =
    let pd_idx = pd_index virt in write_slot (with_table m pd_idx flags new_pt) pd_idx phys flags
