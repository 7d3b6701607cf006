-- ===== src/Sched/Create.antt =====
-- `task_create`: which slot it takes, when it fails, and the name that the slot ends up with.
use valiant_core.Base.{
  ℕ, zero, suc, ◌+◌, ◌≤◌, ◌<◌, ◌≡◌, ◌≢◌, refl, ap, ◌⊎◌, inl, inr, none, some, arith, Option, List,
  [], ◌∷◌, ◌++◌, Bool-cases, update, find_first, find_first-some, find_first-none, if◌then◌else◌,
  ◌==◌, leb, length, First, ◌%◌, ◌-◌, update_self, update_ne,
}
use valiant_core.Sched.{
  Scheduler, ready, dead, max_tasks, dead_slot, task_create, create_at, fresh_task, copy_name,
  set_byte, slot_name,
}

-- The state after a creation in slot `i`, field by field; no other slot has changed.
pub record Created (s : Scheduler) (entry priority : ℕ) (name : List ℕ) (r : Scheduler) (i : ℕ)
    : Type 0 where
  pub first : First (dead_slot s.tasks) 0 max_tasks i
  pub has_entry : entry ≢ 0
  pub has_room : s.task_count < max_tasks
  pub task : r.tasks i ≡ record {
    id = i;
    state = ready;
    priority = priority;
    stack_ptr = entry;
    stack_base = (s.tasks i).stack_base;
    time_slice = (4294967306 - priority) % 4294967296;
    ticks_used = 0;
    sleep_ticks = 0;
    name = slot_name (s.tasks i).name name;
  }
  pub others : (j : ℕ) → j ≢ i → r.tasks j ≡ s.tasks j
  pub rest : r ≡ record s { tasks = r.tasks; task_count = s.task_count + 1 }

-- A creation that succeeds takes the first dead slot for an entry point that is not 0, writes the
-- new task there, counts it, and changes nothing else. One that fails changes nothing, and the count is at its limit, the entry
-- point is 0, or no slot is dead.
abbrev pub Creates : Scheduler → ℕ → ℕ → List ℕ → Scheduler × Option ℕ → Type 0
Creates s entry priority name r =
    ((i : ℕ) × (r.1 ≡ some i) × Created s entry priority name r.0 i)
    ⊎ ((r.1 ≡ none)
        × (r.0 ≡ s)
        × ((max_tasks ≤ s.task_count)
            ⊎ (entry ≡ 0)
            ⊎ ((j : ℕ) → j < max_tasks → (s.tasks j).state ≢ dead)))

created :
    (s : Scheduler) (entry priority : ℕ) (name : List ℕ) (i : ℕ)
    → s.task_count < max_tasks
    → entry ≢ 0
    → First (dead_slot s.tasks) 0 max_tasks i
    → Created s entry priority name (create_at s entry priority name (some i)).0 i
unfolding create_at fresh_task
created s entry priority name i room ne f =
    let new = fresh_task (s.tasks i) i entry priority name in
    record {
      first = f;
      has_entry = ne;
      has_room = room;
      task = update_self s.tasks i new;
      others = λ j other. update_ne s.tasks i new j other;
      rest = ap (λ c. record s { tasks = update s.tasks i new; task_count = c }) (omega arith);
    }

create_at-Creates :
    (s : Scheduler) (entry priority : ℕ) (name : List ℕ) (slot : Option ℕ)
    → s.task_count < max_tasks
    → entry ≢ 0
    → find_first max_tasks 0 (dead_slot s.tasks) ≡ slot
    → Creates s entry priority name (create_at s entry priority name slot)
unfolding create_at
create_at-Creates s entry priority name none h ne e = inr (
  refl,
  refl,
  inr (inr (λ j lt gone. ground (arith, find_first-none max_tasks 0 (dead_slot s.tasks) e j))),
)
create_at-Creates s entry priority name (some i) h ne e = inl (
  i,
  refl,
  created s entry priority name i h ne (find_first-some max_tasks 0 (dead_slot s.tasks) e),
)

-- `task_create` takes the first dead slot, only for an entry point that is not 0 and below the limit
-- of the count, and writes each field of the task there but its stack base; or it fails, changes
-- nothing, and the count is at its limit, the entry point is 0, or no slot is dead.
pub task_create-Creates :
    (s : Scheduler) (entry priority : ℕ) (name : List ℕ)
    → Creates s entry priority name (task_create s entry priority name)
unfolding task_create
task_create-Creates s entry priority name = elim (Bool-cases (leb max_tasks s.task_count)) [
  | inl full ↦ rw full (inr (refl, refl, inl (ground arith)))
  | inr room ↦ elim (Bool-cases (entry == 0)) [
    | inl bad ↦ rw (room, bad) (inr (refl, refl, inr (inl (ground arith))))
    | inr fine ↦
        rw (room, fine)
          (create_at-Creates s entry priority name (find_first max_tasks 0 (dead_slot s.tasks))
            (ground arith) (λ e. ground arith) refl)
  ]
]

-- The C string in a byte array: the bytes before the first 0.
unfoldable pub c_string : List ℕ → List ℕ
c_string [] = []
c_string (b ∷ bs) = if b == 0 then [] else b ∷ c_string bs

abbrev pub drop : ℕ → List ℕ → List ℕ
drop zero bs = bs
drop (suc n) [] = []
drop (suc n) (b ∷ bs) = drop n bs

-- A string with no 0 inside.
abbrev pub IsString : List ℕ → Type 0
IsString [] = Unit
IsString (c ∷ cs) = (0 < c) × IsString cs

copy_name_empty : (n : ℕ) (slot : List ℕ) → copy_name n slot [] ≡ slot
unfolding copy_name
copy_name_empty zero slot = refl
copy_name_empty (suc n) [] = refl
copy_name_empty (suc n) (b ∷ slot) = refl

c_string-copy_name :
    (name : List ℕ) (n k : ℕ) (slot : List ℕ)
    → IsString name
    → length name ≤ n
    → length name ≤ k
    → k < length slot
    → c_string (set_byte (copy_name n slot name) k 0)
      ≡ name ++ c_string (drop (length name) (set_byte slot k 0))
unfolding c_string copy_name set_byte
c_string-copy_name [] n k slot str hn hk hs =
    ap (λ bs. c_string (set_byte bs k 0)) (copy_name_empty n slot)
c_string-copy_name (c ∷ name) zero k slot str hn hk hs = absurd (omega arith)
c_string-copy_name (c ∷ name) (suc n) zero slot str hn hk hs = absurd (omega arith)
c_string-copy_name (c ∷ name) (suc n) (suc k) [] str hn hk hs = absurd (omega arith)
c_string-copy_name (c ∷ name) (suc n) (suc k) (b ∷ slot) str hn hk hs =
    ground (arith, c_string-copy_name name n k slot str.1 (omega arith) (omega arith) (omega arith))

-- For a name of at most 15 bytes, the name that the slot holds afterwards, read as a C string, is
-- the new name followed by what the slot held behind it before, up to byte 15.
pub slot_name_keeps_tail :
    (slot name : List ℕ)
    → length slot ≡ 16
    → IsString name
    → length name ≤ 15
    → c_string (slot_name slot name) ≡ name ++ c_string (drop (length name) (set_byte slot 15 0))
unfolding slot_name
slot_name_keeps_tail slot name h str hn = c_string-copy_name name 15 15 slot str hn hn (omega arith)
