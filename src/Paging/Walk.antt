-- ===== src/Paging/Walk.antt =====
-- What the walk of the processor through the tables of memory/paging.c finds after `map_page`.
use valiant_core.Base.{
  ℕ, ◌/◌, ◌<◌, ◌≡◌, ◌≢◌, ap, ◌∙◌, arith, true, Bool-cases, inl, inr, Option, none, some,
  if◌then◌else◌, update, update_self, update_ne, bit_and, bit_or,
}
use valiant_core.Base.Bits.{bit_and_low, bit_or_step}
use valiant_core.Paging.{
  Mmu, addr_mask, page_present, pt_index, pd_index, is_present, with_table, slot_address,
  write_slot, map_page,
}

-- The table entry for an address, as the processor looks it up: no table, or the word at `PT_INDEX`
-- of the table at `PD_INDEX`.
unfoldable pub walk : Mmu → ℕ → Option ℕ
walk m virt =
    let entry = m.kernel_page_directory (pd_index virt) in
    if is_present entry then some (m.memory (slot_address entry (pt_index virt))) else none

pub pd_index-lt : (v : ℕ) → pd_index v < 1024
pd_index-lt v = omega (arith, bit_and_low 10 (v / 4194304))

pub pt_index-lt : (v : ℕ) → pt_index v < 1024
pt_index-lt v = omega (arith, bit_and_low 10 (v / 4096))

-- Slots of one table do not overlap.
slots_apart :
    (entry i j : ℕ) → i < 1024 → j < 1024 → i ≢ j → slot_address entry i ≢ slot_address entry j
unfolding slot_address
slots_apart entry i j hi hj ne e = omega arith

with_table_present :
    (m : Mmu) (i flags new_pt : ℕ)
    → is_present (m.kernel_page_directory i) ≡ true
    → with_table m i flags new_pt ≡ m
unfolding with_table
with_table_present m i flags new_pt here =
    ap
      (λ t. if t then m else record m {
        kernel_page_directory =
            update m.kernel_page_directory i (bit_or (bit_or new_pt flags) page_present);
      })
      here

is_present-bit_or : (x : ℕ) → is_present (bit_or x page_present) ≡ true
is_present-bit_or x = ground (arith, bit_and_low 1 (bit_or x 1), bit_or_step x 1)

-- After the test, the table is there.
present_after :
    (m : Mmu) (i flags new_pt : ℕ)
    → is_present ((with_table m i flags new_pt).kernel_page_directory i) ≡ true
unfolding with_table
present_after m i flags new_pt = elim (Bool-cases (is_present (m.kernel_page_directory i))) [
  | inl here ↦ rw here here
  | inr absent ↦
      rw (absent, update_self m.kernel_page_directory i (bit_or (bit_or new_pt flags) page_present))
        (is_present-bit_or (bit_or new_pt flags))
]

map_page-write_slot :
    (m : Mmu) (phys virt flags new_pt : ℕ)
    → is_present (m.kernel_page_directory (pd_index virt)) ≡ true
    → map_page m phys virt flags new_pt ≡ write_slot m (pd_index virt) phys flags
unfolding map_page
map_page-write_slot m phys virt flags new_pt here =
    ap (λ t. write_slot t (pd_index virt) phys flags)
      (with_table_present m (pd_index virt) flags new_pt here)

-- For an address whose table is there and whose `PT_INDEX` is not its `PD_INDEX`, `map_page` leaves
-- what the walk of that address finds as it was: the mapping asked for is not made.
pub map_page-walk :
    (m : Mmu) (phys virt flags new_pt : ℕ)
    → is_present (m.kernel_page_directory (pd_index virt)) ≡ true
    → pt_index virt ≢ pd_index virt
    → walk (map_page m phys virt flags new_pt) virt ≡ walk m virt
unfolding walk write_slot
map_page-walk m phys virt flags new_pt here apart =
    let entry = m.kernel_page_directory (pd_index virt) in
    let far =
      slots_apart entry (pt_index virt) (pd_index virt) (pt_index-lt virt) (pd_index-lt virt)
        apart in
    ap (λ t. walk t virt) (map_page-write_slot m phys virt flags new_pt here)
    ∙ ap (λ x. if is_present entry then some x else none)
        (update_ne m.memory (slot_address entry (pd_index virt))
          (bit_or (bit_or (bit_and phys addr_mask) flags) page_present)
          (slot_address entry (pt_index virt)) far)

-- Where the two indices agree, the walk finds the frame asked for, with its flags.
pub map_page-walk_same :
    (m : Mmu) (phys virt flags new_pt : ℕ)
    → pt_index virt ≡ pd_index virt
    → walk (map_page m phys virt flags new_pt) virt
      ≡ some (bit_or (bit_or (bit_and phys addr_mask) flags) page_present)
unfolding walk map_page write_slot
map_page-walk_same m phys virt flags new_pt same =
    let t = with_table m (pd_index virt) flags new_pt in
    let entry = t.kernel_page_directory (pd_index virt) in
    let value = bit_or (bit_or (bit_and phys addr_mask) flags) page_present in
    rw (present_after m (pd_index virt) flags new_pt, same)
      (ap some (update_self t.memory (slot_address entry (pd_index virt)) value))
