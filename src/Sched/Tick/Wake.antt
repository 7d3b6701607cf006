-- ===== src/Sched/Tick/Wake.antt =====
-- The wake loop of `schedule_next`: what it does to each slot, and when a sleeper wakes.
use valiant_core.Base.{ℕ, suc, ◌≤◌, ◌<◌, ◌≡◌, arith, ltb, if◌then◌else◌, for_range_inv, ℕ_discrete}
use valiant_core.Sched.{Task, max_tasks, sleeping, ready, running, dead, is_dead}
use valiant_core.Sched.Tick.{wake, wake_at, wake_all}

-- After `n` rounds the slots below `n` have been looked at, once each.
abbrev Woken : (ℕ → Task) → ℕ → (ℕ → Task) → Type 0
Woken tasks n now = (j : ℕ) → now j ≡ (if ltb j n then wake (tasks j) else tasks j)

wake_at-Woken :
    (tasks : ℕ → Task) (n : ℕ) (now : ℕ → Task)
    → Woken tasks n now
    → Woken tasks (suc n) (wake_at n now)
unfolding wake_at
wake_at-Woken tasks n now w j = elim (ℕ_discrete j n) [
  | yes here ↦ rw here (ground (arith, w n))
  | no there ↦ ground (arith, w j)
]

wake_all-Woken : (tasks : ℕ → Task) → Woken tasks max_tasks (wake_all tasks)
unfolding wake_all
wake_all-Woken tasks =
    for_range_inv (Woken tasks) wake_at 512 0 512 tasks (omega arith)
      (λ k now lt w. wake_at-Woken tasks k now w) (λ j. ground arith)

-- The loop applies its body to every task of the table, and to each once.
pub wake_all_lem : (tasks : ℕ → Task) (j : ℕ) → j < max_tasks → wake_all tasks j ≡ wake (tasks j)
wake_all_lem tasks j h = ground (arith, wake_all-Woken tasks j)

pub wake_sleeper :
    (t : Task) (k : ℕ)
    → t.state ≡ sleeping
    → t.sleep_ticks ≡ suc (suc k)
    → wake t ≡ record t { sleep_ticks = suc k }
unfolding wake
wake_sleeper t k s e = ground arith

pub wake_last :
    (t : Task)
    → t.state ≡ sleeping
    → t.sleep_ticks ≤ 1
    → wake t ≡ record t { sleep_ticks = 0; state = ready }
unfolding wake
wake_last t s e = ground arith

-- The loop changes no state but `sleeping`, and that to `ready`.
pub wake_states :
    (t : Task)
    → ((wake t).state ≡ running → t.state ≡ running) × ((wake t).state ≡ dead → t.state ≡ dead)
unfolding wake
wake_states t = (λ e. ground arith, λ e. ground arith)

pub is_dead-wake : (t : Task) → is_dead (wake t).state ≡ is_dead t.state
unfolding wake
is_dead-wake t = ground arith
