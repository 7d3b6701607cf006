-- ===== src/Syscalls/Audit.antt =====
-- What kernel/syscalls.c lets through, and what it counts.
use valiant_core.Base.{
  ℕ, ◌+◌, ◌≤◌, ◌<◌, ◌≡◌, ◌↔◌, ◌⊎◌, inl, inr, refl, arith, Bool, true, Bool-cases, List, [], ◌∷◌,
  length, if◌then◌else◌,
}
use valiant_core.Syscalls.{
  Counters, blocked_syscalls, scan_blocked, sys_security_audit, sys_validate_args, sys_write,
}

abbrev pub IsBlocked : ℕ → Type 0
IsBlocked id = (id ≡ 0x80) ⊎ (id ≡ 0x77) ⊎ (id ≡ 0x65) ⊎ (id ≡ 0xFF)

pub scan_blocked_lem : (id : ℕ) → scan_blocked id blocked_syscalls ≡ true ↔ IsBlocked id
unfolding scan_blocked
scan_blocked_lem id = (λ e. ground arith, λ h. ground arith)

-- `sys_write` accepts exactly the writes of 1 to 2 ^ 20 bytes from a buffer that is not null and
-- that the memory check allows, to a descriptor up to 1024.
pub sys_write_lem :
    (check : ℕ → ℕ → Bool) (s : Counters) (fd buf count : ℕ)
    → (sys_write check s fd buf count).1 ≡ true
      ↔ ((fd ≤ 1024) × (0 < buf) × (0 < count) × (count ≤ 1048576) × (check buf count ≡ true))
unfolding sys_write sys_validate_args sys_security_audit scan_blocked
sys_write_lem check s fd buf count = (λ e. ground arith, λ h. ground arith)

-- The requests of a list, audited in order.
unfoldable pub audit_all : Counters → List ℕ → Counters
audit_all s [] = s
audit_all s (id ∷ ids) = audit_all (sys_security_audit s id).0 ids

unfoldable pub blocked_of : List ℕ → List ℕ
blocked_of [] = []
blocked_of (id ∷ ids) =
    let rest = blocked_of ids in if scan_blocked id blocked_syscalls then id ∷ rest else rest

-- One request.
audit_once :
    (s : Counters) (id : ℕ)
    → s.syscall_count < 4294967295
    → s.blocked_count ≤ s.syscall_count
    → ((sys_security_audit s id).0.syscall_count ≡ s.syscall_count + 1)
      × ((sys_security_audit s id).0.blocked_count
          ≡ s.blocked_count + length (blocked_of (id ∷ [])))
      × (length (sys_security_audit s id).0.alerts
          ≡ length s.alerts + length (blocked_of (id ∷ [])))
unfolding sys_security_audit blocked_of
audit_once s id room le = elim (Bool-cases (scan_blocked id blocked_syscalls)) [
  | inl hit ↦ rw hit (omega arith, omega arith, omega arith)
  | inr miss ↦ rw miss (omega arith, omega arith, omega arith)
]

length-blocked_of :
    (id : ℕ) (ids : List ℕ)
    → length (blocked_of (id ∷ ids)) ≡ length (blocked_of (id ∷ [])) + length (blocked_of ids)
unfolding blocked_of
length-blocked_of id ids = elim (Bool-cases (scan_blocked id blocked_syscalls)) [
  | inl hit ↦ rw hit (omega arith)
  | inr miss ↦ rw miss (omega arith)
]

length-blocked_of_none : length (blocked_of []) ≡ 0
unfolding blocked_of
length-blocked_of_none = refl

blocked_of-le : (id : ℕ) → length (blocked_of (id ∷ [])) ≤ 1
unfolding blocked_of
blocked_of-le id = elim (Bool-cases (scan_blocked id blocked_syscalls)) [
  | inl hit ↦ rw hit (omega arith)
  | inr miss ↦ rw miss (omega arith)
]

-- Over any list of requests, as long as the counters do not wrap, `syscall_count` grows by their
-- number, `blocked_count` and the list of alerts by the number of the blocked ones.
pub audit_all_counts :
    (ids : List ℕ) (s : Counters)
    → s.syscall_count + length ids < 4294967296
    → s.blocked_count ≤ s.syscall_count
    → ((audit_all s ids).syscall_count ≡ s.syscall_count + length ids)
      × ((audit_all s ids).blocked_count ≡ s.blocked_count + length (blocked_of ids))
      × (length (audit_all s ids).alerts ≡ length s.alerts + length (blocked_of ids))
unfolding audit_all
audit_all_counts [] s room le =
    (omega arith, omega (arith, length-blocked_of_none), omega (arith, length-blocked_of_none))
audit_all_counts (id ∷ ids) s room le =
    let a = (sys_security_audit s id).0 in
    let one = audit_once s id (omega arith) le in
    let small = blocked_of-le id in
    let all = length-blocked_of id ids in
    let rest = audit_all_counts ids a (omega (arith, one.0)) (omega (arith, one.0, one.1, small)) in
    (
      omega (arith, rest.0, one.0),
      omega (arith, rest.1, one.1, all),
      omega (arith, rest.2, one.2, all),
    )
