-- ===== src/Syscalls/Tests.antt =====
-- The theorems on the system calls at concrete requests.
use valiant_core.Base.{ℕ, ◌≤◌, ◌<◌, ◌≡◌, ◌↔◌, true, List, [], ◌∷◌, ltb}
use valiant_core.Syscalls.{Counters, sys_write}
use valiant_core.Syscalls.Audit.{sys_write_lem}

abbrev boot : Counters
boot = record { syscall_count = 0; blocked_count = 0; alerts = [] }

abbrev requests : List ℕ
requests = 4 ∷ 0x77 ∷ []

sys_write_lem_example :
    (sys_write (λ addr size. ltb 4095 addr) boot 1 8192 64).1 ≡ true
    ↔ ((1 ≤ 1024) × (0 < 8192) × (0 < 64) × (64 ≤ 1048576) × (ltb 4095 8192 ≡ true))
sys_write_lem_example = sys_write_lem (λ addr size. ltb 4095 addr) boot 1 8192 64
