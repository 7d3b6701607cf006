-- ===== src/Syscalls.antt =====
-- kernel/syscalls.c with the call numbers of include/kernel.h for a 32-bit build. The answers of
-- `security_check_memory` are an argument, and `hw_security_chip_alert` adds its arguments to a
-- list, the last one first. A result 0 is `true`, -1 is `false`. `sys_exit` never returns and
-- changes nothing.
pub mod Audit
mod Tests
use valiant_core.Base.{
  ℕ, zero, suc, ◌+◌, ◌≤◌, ◌<◌, Bool, true, false, not, ◌&&◌, ◌||◌, List, [], ◌∷◌, ltb, ◌==◌,
  if◌then◌else◌, u32,
}

abbrev pub syscall_write : ℕ
syscall_write = 4

abbrev pub blocked_syscalls : List ℕ
blocked_syscalls = 0x80 ∷ 0x77 ∷ 0x65 ∷ 0xFF ∷ []

pub record Counters : Type 0 where
  pub syscall_count : ℕ
  pub blocked_count : ℕ
  pub alerts : List (ℕ × ℕ × ℕ)

-- The loop over the blocked numbers, from some position on.
unfoldable pub scan_blocked : ℕ → List ℕ → Bool
scan_blocked id [] = false
scan_blocked id (b ∷ bs) = if id == b then true else scan_blocked id bs

unfoldable pub sys_security_audit : Counters → ℕ → Counters × Bool
sys_security_audit s id =
    let counted = record s { syscall_count = u32 (s.syscall_count + 1) } in
    if scan_blocked id blocked_syscalls
    then (
      record counted { blocked_count = u32 (s.blocked_count + 1); alerts = (id, 0, 3) ∷ s.alerts },
      false,
    )
    else (counted, true)

-- `check addr size` tells whether `security_check_memory` returns 0.
unfoldable pub sys_validate_args : (ℕ → ℕ → Bool) → Counters → ℕ → ℕ → ℕ → Counters × Bool
sys_validate_args check s id addr size =
    let a = sys_security_audit s id in
    if not a.1
    then (a.0, false)
    else if addr == 0 || size == 0
    then (a.0, false)
    else if not (check addr size)
    then (a.0, false)
    else (a.0, true)

unfoldable pub sys_write : (ℕ → ℕ → Bool) → Counters → ℕ → ℕ → ℕ → Counters × Bool
sys_write check s fd buf count =
    let v = sys_validate_args check s syscall_write buf count in
    if not v.1
    then (v.0, false)
    else if ltb 1024 fd
    then (v.0, false)
    else if ltb 0x100000 count
    then (v.0, false)
    else (v.0, true)
