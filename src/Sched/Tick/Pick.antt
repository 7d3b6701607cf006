-- ===== src/Sched/Tick/Pick.antt =====
-- Which task the search loop of `schedule_next` chooses.
use valiant_core.Base.{
  ℕ, suc, ◌+◌, ◌-◌, ◌%◌, ◌≤◌, ◌<◌, ◌≡◌, refl, ◌⊎◌, inl, inr, true, arith, Bool-cases, ltb, ◌&&◌,
  dec_lt, for_range_inv, subst, sym,
}
use valiant_core.Sched.{Task, max_tasks, is_ready}
use valiant_core.Sched.Tick.{Choice, slot_after, consider, pick}

-- A task that may run next.
abbrev pub Ready : (ℕ → Task) → ℕ → Type 0
Ready tasks j = is_ready (tasks j).state ≡ true

-- How far a slot stands behind `current` on the way round the table, less one.
abbrev pub distance : ℕ → ℕ → ℕ
distance current j = (j + 511 - current) % max_tasks

-- No ready task among the first `n` slots after `current` has a priority below `p`.
abbrev NoneBelow : (ℕ → Task) → ℕ → ℕ → ℕ → Type 0
NoneBelow tasks current n p =
    (i : ℕ)
    → i < n
    → Ready tasks (slot_after current i)
    → p ≤ (tasks (slot_after current i)).priority

NoneBelow-mono :
    (tasks : ℕ → Task) (current n p q : ℕ)
    → q ≤ p
    → NoneBelow tasks current n p
    → NoneBelow tasks current n q
NoneBelow-mono tasks current n p q le h i lt r = omega (arith, h i lt r)

NoneBelow-suc :
    (tasks : ℕ → Task) (current n p : ℕ)
    → NoneBelow tasks current n p
    → (Ready tasks (slot_after current n) → p ≤ (tasks (slot_after current n)).priority)
    → NoneBelow tasks current (suc n) p
NoneBelow-suc tasks current n p h last i lt = elim (dec_lt i n) [
  | yes before ↦ h i before
  | no stop ↦
      let here : i ≡ n = omega arith in
      subst (λ j. Ready tasks (slot_after current j) → p ≤ (tasks (slot_after current j)).priority)
        (sym here) last
]

-- Where the best choice so far comes from: the start values, or the slot of round `k`.
data Source (tasks : ℕ → Task) (current n : ℕ) (c : Choice) : Type 0 where
  start : c.next ≡ current → c.best ≡ 255 → Source tasks current n c
  round :
      (k : ℕ)
      → k < n
      → c.next ≡ slot_after current k
      → Ready tasks c.next
      → (tasks c.next).priority ≡ c.best
      → c.best < 255
      → NoneBelow tasks current k (suc c.best)
      → Source tasks current n c

Source-suc :
    {tasks : ℕ → Task} {current n : ℕ} {c : Choice}
    → Source tasks current n c
    → Source tasks current (suc n) c
Source-suc (start e b) = start e b
Source-suc (round k lt e r p low first) = round k (omega arith) e r p low first

-- What the loop has found after `n` rounds.
record Found (tasks : ℕ → Task) (current n : ℕ) (c : Choice) : Type 0 where
  least : NoneBelow tasks current n c.best
  small : c.best ≤ 255
  source : Source tasks current n c

consider-Found :
    (tasks : ℕ → Task) (current n : ℕ) (c : Choice)
    → Found tasks current n c
    → Found tasks current (suc n) (consider tasks current n c)
unfolding consider
consider-Found tasks current n c f =
    let t = tasks (slot_after current n) in
    elim (Bool-cases (is_ready t.state && ltb t.priority c.best)) [
      | inl better ↦
          rw (better, consider)
            (record {
              least =
                  NoneBelow-suc tasks current n t.priority
                    (NoneBelow-mono tasks current n c.best t.priority (ground arith) f.least)
                    (λ r. omega arith);
              small = ground (arith, f.small);
              source =
                  round n (omega arith) refl (ground arith) refl (ground (arith, f.small))
                    (NoneBelow-mono tasks current n c.best (suc t.priority) (ground arith) f.least);
            })
      | inr worse ↦
          rw (worse, consider)
            (record {
              least = NoneBelow-suc tasks current n c.best f.least (λ r. ground arith);
              small = f.small;
              source = Source-suc f.source;
            })
    ]

pick-Found : (tasks : ℕ → Task) (current : ℕ) → Found tasks current max_tasks (pick tasks current)
unfolding pick
pick-Found tasks current =
    for_range_inv (Found tasks current) (consider tasks current) 512 0 512 _ (omega arith)
      (λ k c lt f. consider-Found tasks current k c f)
      (record {
        least = λ i lt. absurd (omega arith);
        small = omega arith;
        source = start refl refl;
      })

slot_after-distance :
    (current j : ℕ)
    → current < max_tasks
    → j < max_tasks
    → slot_after current (distance current j) ≡ j
slot_after-distance current j hc hj = omega arith

distance-slot_after :
    (current k : ℕ)
    → current < max_tasks
    → k < max_tasks
    → distance current (slot_after current k) ≡ k
distance-slot_after current k hc hk = omega arith

none_below :
    (tasks : ℕ → Task) (current n p j : ℕ)
    → current < max_tasks
    → j < max_tasks
    → distance current j < n
    → NoneBelow tasks current n p
    → Ready tasks j
    → p ≤ (tasks j).priority
none_below tasks current n p j hc hj lt h =
    subst (λ i. Ready tasks i → p ≤ (tasks i).priority) (slot_after-distance current j hc hj)
      (h (distance current j) lt)

-- The choice is ready, no ready task has a smaller priority value, and of those with the same
-- value it is the nearest behind the current one.
pub record IsBest (tasks : ℕ → Task) (current next : ℕ) : Type 0 where
  pub in_table : next < max_tasks
  pub is_ready : Ready tasks next
  pub least : (j : ℕ) → j < max_tasks → Ready tasks j → (tasks next).priority ≤ (tasks j).priority
  pub nearest :
      (j : ℕ)
      → j < max_tasks
      → Ready tasks j
      → (tasks j).priority ≡ (tasks next).priority
      → distance current next ≤ distance current j

-- `schedule_next` keeps the current task only if no ready task has a priority below 255, and else
-- chooses a ready task of the least priority value, the first one round the table.
pub pick-IsBest :
    (tasks : ℕ → Task) (current : ℕ)
    → current < max_tasks
    → (((pick tasks current).next ≡ current)
        × ((j : ℕ) → j < max_tasks → Ready tasks j → 255 ≤ (tasks j).priority))
      ⊎ IsBest tasks current (pick tasks current).next
pick-IsBest tasks current hc = from_source (pick-Found tasks current).source
  where
    c : Choice
    c = pick tasks current

    from_source :
        Source tasks current max_tasks c
        → ((c.next ≡ current)
            × ((j : ℕ) → j < max_tasks → Ready tasks j → 255 ≤ (tasks j).priority))
          ⊎ IsBest tasks current c.next
    from_source (start e b) = inl (
      e,
      λ j hj r. omega (
        arith,
        none_below tasks current 512 c.best j hc hj (omega arith) (pick-Found tasks current).least
            r,
      ),
    )
    from_source (round k lt e r p low first) = inr (record {
      in_table = omega arith;
      is_ready = r;
      least = λ j hj rj. omega (
        arith,
        none_below tasks current 512 c.best j hc hj (omega arith) (pick-Found tasks current).least
            rj,
      );
      nearest = λ j hj rj same. elim (dec_lt (distance current j) k) [
        | yes nearer ↦
            absurd (omega (arith, none_below tasks current k (suc c.best) j hc hj nearer first rj))
        | no stop ↦ omega (arith, distance-slot_after current k hc lt)
      ];
    })
