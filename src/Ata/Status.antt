-- ===== src/Ata/Status.antt =====
-- `ata_status_wait` of drivers/ata.c for the bit DRQ, and a run of sectors with one wait before each.
use valiant_core.Base.{
  ℕ, zero, suc, ◌+◌, ◌/◌, ◌%◌, ◌<◌, ◌≡◌, ◌≢◌, ◌⊎◌, refl, subst, inl, inr, arith, true, false,
  Bool-cases, ◌∷◌, u8,
}
use valiant_core.Base.Bits.{bit_and_bit}
use valiant_core.Ports.{History, Hardware, in8}
use valiant_core.Ata.{ata_io_wait, is_ready, ata_status_wait}

-- `j` reads of the status, with four reads of the control port behind each.
unfoldable pub polls : ℕ → History → History
polls zero h = h
polls (suc j) h = polls j (in8 0x3F6 ∷ in8 0x3F6 ∷ in8 0x3F6 ∷ in8 0x3F6 ∷ in8 0x1F7 ∷ h)

-- The status read after `h` has DRQ, bit 3, set.
abbrev pub HasRequest : Hardware → History → Type 0
HasRequest hw h = u8 (hw (in8 0x1F7 ∷ h)) / 8 % 2 ≡ 1

-- The first of at most 10000 reads that shows DRQ.
abbrev pub Waited : Hardware → ℕ → History → History → Type 0
Waited hw timeout h h' =
    (j : ℕ) × (j < timeout)
    × ((i : ℕ) → i < j → ¬ HasRequest hw (polls i h))
    × HasRequest hw (polls j h)
    × (h' ≡ in8 0x1F7 ∷ polls j h)

-- None of so many reads shows it.
abbrev pub TimedOut : Hardware → ℕ → History → History → Type 0
TimedOut hw timeout h h' =
    ((i : ℕ) → i < timeout → ¬ HasRequest hw (polls i h)) × (h' ≡ polls timeout h)

is_ready-request :
    (status : ℕ)
    → (is_ready 8 status ≡ true → status / 8 % 2 ≡ 1)
      × (is_ready 8 status ≡ false → status / 8 % 2 ≢ 1)
unfolding is_ready
is_ready-request status =
    (λ e. ground (arith, bit_and_bit 3 status), λ e b. ground (arith, bit_and_bit 3 status))

-- A wait for DRQ returns 1 with the first status that shows it, or 0 where none does in time.
pub ata_status_wait_cases :
    (hw : Hardware) (timeout : ℕ) (h : History)
    → (((ata_status_wait hw 8 timeout h).0 ≡ true)
        × Waited hw timeout h (ata_status_wait hw 8 timeout h).1)
      ⊎ (((ata_status_wait hw 8 timeout h).0 ≡ false)
          × TimedOut hw timeout h (ata_status_wait hw 8 timeout h).1)
unfolding ata_status_wait ata_io_wait polls
ata_status_wait_cases hw zero h = inr (refl, ((λ i lt. absurd (omega arith)), refl))
ata_status_wait_cases hw (suc timeout) h =
    elim (Bool-cases (is_ready 8 (u8 (hw (in8 0x1F7 ∷ h))))) [
      | inl ready ↦
          rw (ready, ata_status_wait)
            (inl (
              refl,
              (
                0,
                omega arith,
                (λ i lt. absurd (omega arith)),
                (is_ready-request (u8 (hw (in8 0x1F7 ∷ h)))).0 ready,
                refl,
              ),
            ))
      | inr busy ↦
          let not_yet = (is_ready-request (u8 (hw (in8 0x1F7 ∷ h)))).1 busy in
          let h1 = in8 0x3F6 ∷ in8 0x3F6 ∷ in8 0x3F6 ∷ in8 0x3F6 ∷ in8 0x1F7 ∷ h in
          rw (busy, ata_status_wait)
            (elim (ata_status_wait_cases hw timeout h1) [
              | inl (ok, (j, lt, before, now, e)) ↦
                  inl (ok, (suc j, omega arith, earlier hw h not_yet j before, now, e))
              | inr (ok, (before, e)) ↦ inr (ok, (earlier hw h not_yet timeout before, e))
            ])
    ]
  where
    earlier :
        (hw : Hardware) (h : History)
        → ¬ HasRequest hw h
        → (j : ℕ)
        → ((i : ℕ)
            → i < j
            → ¬ HasRequest hw
                (polls i (in8 0x3F6 ∷ in8 0x3F6 ∷ in8 0x3F6 ∷ in8 0x3F6 ∷ in8 0x1F7 ∷ h)))
        → (i : ℕ) → i < suc j
        → ¬ HasRequest hw (polls i h)
    earlier hw h no_request j before zero lt = no_request
    earlier hw h no_request j before (suc i) lt = before i (omega arith)

-- `k` sectors from the number `s` on: before each one a wait that shows DRQ, and then `go`.
pub data Sectors {X : Type 0} (hw : Hardware) (history : X → History) (go : ℕ → X → History → X)
    : ℕ → ℕ → X → X → Type 0 where
  no_sector : (s : ℕ) (x : X) → Sectors hw history go s 0 x x
  a_sector :
      (s k : ℕ) (x y : X) (h : History)
      → Waited hw 10000 (history x) h
      → Sectors hw history go (suc s) k (go s x h) y
      → Sectors hw history go s (suc k) x y

-- What every sector keeps holds after them all.
Sectors-inv :
    {X : Type 0} {hw : Hardware} {history : X → History} {go : ℕ → X → History → X}
    (P : ℕ → X → Type 0)
    → ((s : ℕ) (x : X) (h : History) → Waited hw 10000 (history x) h → P s x → P (suc s) (go s x h))
    → (s k : ℕ) (x y : X) → Sectors hw history go s k x y
    → P s x
    → P (s + k) y
Sectors-inv P keep s k x y (no_sector s' x') p =
    let last : s ≡ s + 0 = omega arith in subst (λ t. P t x) last p
Sectors-inv P keep s k x y (a_sector s' k' x' y' h w rest) p =
    let last : suc s + k' ≡ s + suc k' = omega arith in
    subst (λ t. P t y) last (Sectors-inv P keep (suc s) k' _ y rest (keep s x h w p))

-- The same from the first sector on.
pub Sectors-all :
    {X : Type 0} {hw : Hardware} {history : X → History} {go : ℕ → X → History → X}
    (P : ℕ → X → Type 0)
    → ((s : ℕ) (x : X) (h : History) → Waited hw 10000 (history x) h → P s x → P (suc s) (go s x h))
    → (k : ℕ) (x y : X) → Sectors hw history go 0 k x y
    → P 0 x
    → P k y
Sectors-all P keep k x y run p =
    let same : 0 + k ≡ k = omega arith in subst (λ t. P t y) same (Sectors-inv P keep 0 k x y run p)
