-- ===== src/Ethernet/Scan.antt =====
-- The scan for the network card of drivers/ethernet/realtek/rtl8111.c.
use valiant_core.Base.{
  ℕ, zero, suc, ◌+◌, ◌*◌, ◌/◌, ◌%◌, ◌≡◌, refl, sym, ap, subst, ◌∙◌, inl, inr, arith, Bool, true,
  false, Bool-cases, Option, Option-cases, none, some, List, [], ◌∷◌, ◌==◌, if◌then◌else◌, u32,
  bit_and, bit_or, find_first,
}
use valiant_core.Ports.{History, Hardware, out32, in32}
use valiant_core.Ethernet.{
  config_address, pci_read32, pci_write32, is_rtl, take_device, find_on_bus, find_from,
  rtl_find_device,
}

-- The address that was last written to the address port.
unfoldable pub config_selected : History → ℕ
config_selected [] = 0
config_selected (out32 port v ∷ h) =
    let before = config_selected h in if port == 0xCF8 then v else before
config_selected (_ ∷ h) = config_selected h

-- The writes to the configuration space, each with its address, the last one first.
unfoldable pub config_written : History → List (ℕ × ℕ)
config_written [] = []
config_written (out32 port v ∷ h) =
    let before = config_written h in
    if port == 0xCFC then (config_selected h, v) ∷ before else before
config_written (_ ∷ h) = config_written h

-- The register `offset` of the device `k % 32` on the bus `k / 32`.
abbrev pub register_at : ℕ → ℕ → ℕ
register_at k offset = u32 (config_address (k / 32) (k % 32) 0 offset)

-- A scan that runs out goes on behind its range, and one that does not is not changed by a longer range.
find_first-none_join :
    (a b n i : ℕ) (p : ℕ → Bool)
    → a + b ≡ n
    → find_first a i p ≡ none
    → find_first n i p ≡ find_first b (i + a) p
unfolding find_first
find_first-none_join zero b n i p sum e =
    let n_b : n ≡ b = omega arith in
    let same : i ≡ i + 0 = omega arith in
    ap (λ m. find_first m i p) n_b ∙ ap (λ t. find_first b t p) same
find_first-none_join (suc a) b zero i p sum e = absurd (omega arith)
find_first-none_join (suc a) b (suc n) i p sum e = elim (Bool-cases (p i)) [
  | inl hit ↦ ground arith
  | inr miss ↦
      let next : suc i + a ≡ i + suc a = omega arith in
      rw (miss, find_first)
        (find_first-none_join a b n (suc i) p (omega arith) (ground arith)
          ∙ ap (λ t. find_first b t p) next)
]

find_first-some_join :
    (a b n i k : ℕ) (p : ℕ → Bool)
    → a + b ≡ n
    → find_first a i p ≡ some k
    → find_first n i p ≡ some k
unfolding find_first
find_first-some_join zero b n i k p sum e = ground arith
find_first-some_join (suc a) b zero i k p sum e = absurd (omega arith)
find_first-some_join (suc a) b (suc n) i k p sum e = elim (Bool-cases (p i)) [
  | inl hit ↦ ground arith
  | inr miss ↦
      rw (miss, find_first) (find_first-some_join a b n (suc i) k p (omega arith) (ground arith))
]

module _ (hw : Hardware) (config : ℕ → ℕ)
    (config_lem : (a : ℕ) (h : History) → hw (in32 0xCFC ∷ out32 0xCF8 a ∷ h) ≡ config a) where
  abbrev pub is_rtl_at : ℕ → Bool
  is_rtl_at k = is_rtl (u32 (config (register_at k 0)))

  abbrev pub base_at : ℕ → ℕ
  base_at k = bit_and (u32 (config (register_at k 0x10))) 0xFFFFFFF0

  abbrev pub command_at : ℕ → ℕ
  command_at k = u32 (bit_or (u32 (config (register_at k 0x04))) 0x07)

  abbrev pub Finds : Option ℕ → ℕ × History → List (ℕ × ℕ) → Type 0
  Finds none (base, h') old = (base ≡ 0) × (config_written h' ≡ old)
  Finds (some k) (base, h') old =
      (base ≡ base_at k) × (config_written h' ≡ (register_at k 0x04, command_at k) ∷ old)

  take_device-Finds :
      (k : ℕ) (h : History) → Finds (some k) (take_device hw (k / 32) (k % 32) h) (config_written h)
  unfolding take_device pci_read32 pci_write32 config_written config_selected
  take_device-Finds k h = (
    ap (λ t. bit_and (u32 t) 0xFFFFFFF0) (config_lem (register_at k 0x10) _),
    ap (λ t. (register_at k 0x04, u32 (bit_or (u32 t) 0x07)) ∷ config_written h)
        (config_lem (register_at k 0x04) h),
  )

  take_device_at :
      (bus slot k : ℕ) (h : History)
      → bus ≡ k / 32
      → slot ≡ k % 32
      → Finds (some k) (take_device hw bus slot h) (config_written h)
  take_device_at bus slot k h bus_k slot_k = rw (bus_k, slot_k) (take_device-Finds k h)

  -- The same of a scan that has not ended where it has found nothing.
  abbrev FindsHere : Option ℕ → Option ℕ × History → List (ℕ × ℕ) → Type 0
  FindsHere none (found, h') old = (found ≡ none) × (config_written h' ≡ old)
  FindsHere (some k) (found, h') old =
      (found ≡ some (base_at k)) × (config_written h' ≡ (register_at k 0x04, command_at k) ∷ old)

  find_on_bus-FindsHere :
      (bus n slot : ℕ) (h : History)
      → slot + n ≡ 32
      → FindsHere
          (find_first n (bus * 32 + slot) is_rtl_at)
          (find_on_bus hw bus n slot h)
          (config_written h)
  unfolding find_on_bus find_first pci_read32 config_written
  find_on_bus-FindsHere bus zero slot h e = (refl, refl)
  find_on_bus-FindsHere bus (suc n) slot h e =
      let k = bus * 32 + slot in
      let bus_k : bus ≡ k / 32 = omega arith in
      let slot_k : slot ≡ k % 32 = omega arith in
      let h1 = (pci_read32 hw bus slot 0 0 h).1 in
      let id = (pci_read32 hw bus slot 0 0 h).0 in
      let at_k : id ≡ u32 (config (register_at k 0)) =
        ap u32 (config_lem (u32 (config_address bus slot 0 0)) h)
        ∙ ap (λ t. u32 (config (u32 (config_address t slot 0 0)))) bus_k
        ∙ ap (λ t. u32 (config (u32 (config_address (k / 32) t 0 0)))) slot_k in
      elim (Bool-cases (is_rtl id)) [
        | inl hit ↦
            let found : is_rtl_at k ≡ true = ap is_rtl (sym at_k) ∙ hit in
            let (base, wrote) = take_device_at bus slot k h1 bus_k slot_k in
            rw (found, find_first, hit, find_on_bus) (ap some base, wrote)
        | inr miss ↦
            let missed : is_rtl_at k ≡ false = ap is_rtl (sym at_k) ∙ miss in
            let next : suc k ≡ bus * 32 + suc slot = omega arith in
            rw (missed, find_first, miss, find_on_bus, next)
              (find_on_bus-FindsHere bus n (suc slot) h1 (omega arith))
      ]

  find_from-zero :
      (bus : ℕ) (h : History)
      → Finds (find_first (0 * 32) (bus * 32) is_rtl_at) (find_from hw 0 bus h) (config_written h)
  unfolding find_from find_first
  find_from-zero bus h = (refl, refl)

  find_from-Finds :
      (n bus : ℕ) (h : History)
      → Finds (find_first (n * 32) (bus * 32) is_rtl_at) (find_from hw n bus h) (config_written h)
  unfolding find_from
  find_from-Finds zero bus h = find_from-zero bus h
  find_from-Finds (suc n) bus h =
      let (opt, h1) = find_on_bus hw bus 32 0 h in
      let start : bus * 32 + 0 ≡ bus * 32 = omega arith in
      let here =
        subst (λ i. FindsHere (find_first 32 i is_rtl_at) (opt, h1) (config_written h)) start
          (find_on_bus-FindsHere bus 32 0 h (omega arith)) in
      elim (Option-cases (find_first 32 (bus * 32) is_rtl_at)) [
        | inl missed ↦
            let (none_here, kept) =
              subst (λ o. FindsHere o (opt, h1) (config_written h)) missed here in
            let next : suc bus * 32 ≡ bus * 32 + 32 = omega arith in
            let later =
              find_first-none_join 32 (n * 32) (suc n * 32) (bus * 32) is_rtl_at (omega arith)
                missed
              ∙ ap (λ i. find_first (n * 32) i is_rtl_at) (sym next) in
            rw (later, none_here, find_from)
              (subst
                (λ old.
                  Finds (find_first (n * 32) (suc bus * 32) is_rtl_at) (find_from hw n (suc bus) h1)
                    old)
                kept (find_from-Finds n (suc bus) h1))
        | inr (k, hit) ↦
            let (found, wrote) = subst (λ o. FindsHere o (opt, h1) (config_written h)) hit here in
            let same =
              find_first-some_join 32 (n * 32) (suc n * 32) (bus * 32) k is_rtl_at (omega arith)
                hit in
            rw (same, found, find_from) (refl, wrote)
      ]

  -- If the answers at the data port depend on the address selected only, the scan yields the base
  -- address of the first card, in the order of the buses and then of the slots, and 0 where there
  -- is none. It writes to the configuration space once where it finds one, the command register with
  -- the three lowest bits set, and otherwise never.
  pub rtl_find_device-Finds :
      (h : History) → Finds (find_first 8192 0 is_rtl_at) (rtl_find_device hw h) (config_written h)
  unfolding rtl_find_device
  rtl_find_device-Finds h = find_from-Finds 256 0 h
