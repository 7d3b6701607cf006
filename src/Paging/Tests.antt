-- ===== src/Paging/Tests.antt =====
-- The theorems on `map_page` at concrete page directories.
use valiant_core.Base.{◌≡◌, refl, arith}
use valiant_core.Paging.{Mmu, map_page}
use valiant_core.Paging.Walk.{walk, map_page-walk}

-- Every directory entry is the table at 0x5000.
abbrev tables : Mmu
tables = record { kernel_page_directory = λ i. 0x5003; memory = λ a. 0 }

-- 0x00402000 has the indices 1 and 2.
map_page-walk_example :
    walk (map_page tables 0x9000 0x00402000 2 0x6000) 0x00402000 ≡ walk tables 0x00402000
map_page-walk_example =
    map_page-walk tables 0x9000 0x00402000 2 0x6000 refl (λ e. absurd (omega arith))
