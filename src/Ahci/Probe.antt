-- ===== src/Ahci/Probe.antt =====
-- `ahci_init` of drivers/ahci64.c.
use valiant_core.Base.{
  ℕ, zero, suc, ◌+◌, ◌/◌, ◌%◌, ◌^◌, ◌≤◌, ◌<◌, ◌≡◌, ◌≢◌, refl, sym, ap, ◌∙◌, subst, arith, Bool,
  true, false, not, Option, some, dec_lt, if_cases, ◌∷◌, ltb, ◌==◌, update, update_self, update_ne,
  u32, bit_and, ◌>>=◌, if◌then◌else◌,
}
use valiant_core.Base.Bits.{bit_and_low}
use valiant_core.Base.Waits.{Passes, wait_for-Passes}
use valiant_core.Mmio.{History, Device, load32, store32, read32}
use valiant_core.Ahci.{
  Ahci, Layout, ahci_port_addr, is_clear, ahci_port_start, ahci_port_init, add_port, is_present,
  probe, probe_from, ahci_init,
}

-- Whatever has been done, a port has stopped within `fuel` reads of its command register.
abbrev pub Stops : Device → ℕ → Type 0
Stops dev fuel =
    (addr : ℕ) (h : History) → (k : ℕ) × (k < fuel) × Passes (is_clear dev addr 0x8000) k h

-- The SATA status of each port, which reads of its register yield while the ports are looked at.
abbrev pub Answers : Device → (ℕ → ℕ) → Type 0
Answers dev ssts =
    (i : ℕ) (h : History)
    → i < 32
    → u32 (dev (load32 (ahci_port_addr 0x10000000 i 0x28) ∷ h)) ≡ ssts i

-- DET, bits 0 to 3, says that a device is there, and IPM, bits 8 to 11, that it is active.
abbrev pub HasDrive : ℕ → Type 0
HasDrive v = (v % 16 ≡ 3) × (v / 256 % 16 ≡ 1)

is_present-HasDrive : (v : ℕ) → is_present v ≡ true → HasDrive v
unfolding is_present
is_present-HasDrive v e = (ground (arith, bit_and_low 4 v), ground (arith, bit_and_low 4 (v / 256)))

HasDrive-is_present : (v : ℕ) → HasDrive v → is_present v ≡ true
unfolding is_present
HasDrive-is_present v (det, ipm) = ground (arith, bit_and_low 4 v, bit_and_low 4 (v / 256))

-- The ports found are below `i`, among those of the mask, with a drive, and active, and their numbers
-- rise; every port of the mask below `i` with a drive is found.
abbrev pub IsProbed : ℕ → (ℕ → ℕ) → ℕ → Ahci → Type 0
IsProbed pi ssts i s =
    (s.port_count ≤ i)
    × ((j : ℕ)
        → j < s.port_count
        → (s.port_num j < i)
          × (bit_and pi (2 ^ s.port_num j) ≢ 0)
          × HasDrive (ssts (s.port_num j))
          × (s.active j ≡ 1))
    × ((j k : ℕ) → j < k → k < s.port_count → s.port_num j < s.port_num k)
    × ((p : ℕ)
        → p < i
        → bit_and pi (2 ^ p) ≢ 0
        → HasDrive (ssts p)
        → (j : ℕ) × (j < s.port_count) × (s.port_num j ≡ p))

-- The end of `ahci_init`.
abbrev concluded : Ahci → Bool × Ahci
concluded s = if s.port_count == 0 then (false, s) else (true, record s { initialized = 1 })

concluded-IsProbed :
    (mask : ℕ) (ssts : ℕ → ℕ) (s : Ahci)
    → IsProbed mask ssts 32 s
    → s.initialized ≡ 0
    → IsProbed mask ssts 32 (concluded s).1
      × ((concluded s).0 ≡ ltb 0 (concluded s).1.port_count)
      × ((concluded s).1.initialized ≡ (if (concluded s).0 then 1 else 0))
concluded-IsProbed mask ssts s v unset =
    if_cases
      (λ (r : Bool × Ahci).
        IsProbed mask ssts 32 r.1
        × (r.0 ≡ ltb 0 r.1.port_count)
        × (r.1.initialized ≡ (if r.0 then 1 else 0)))
      (s.port_count == 0) (λ e. (v, ground arith, unset)) (λ e. (v, ground arith, refl))

module _ (dev : Device) (fuel : ℕ) (stops : Stops dev fuel) (l : Layout) where
  ahci_port_start-ends :
      (base port : ℕ) (h : History)
      → (h' : History) × (ahci_port_start dev fuel base port h ≡ some h')
  unfolding ahci_port_start
  ahci_port_start-ends base port h =
      let cmd_reg = ahci_port_addr base port 0x18 in
      let (k, lt, p) = stops cmd_reg h in
      rw (wait_for-Passes (is_clear dev cmd_reg 0x8000) fuel k h lt p) (_, refl)

  ahci_port_init-ends :
      (base port : ℕ) (h : History)
      → (h' : History) × (ahci_port_init dev fuel l base port h ≡ some h')
  unfolding ahci_port_init
  ahci_port_init-ends base port h = ahci_port_start-ends base port _

module _ (dev : Device) (fuel : ℕ) (stops : Stops dev fuel) (l : Layout) (ssts : ℕ → ℕ)
    (answers : Answers dev ssts) where
  -- A round that ends, and what it keeps.
  abbrev Probes : ℕ → ℕ → Ahci → Option Ahci → Type 0
  Probes pi i s res =
      (s' : Ahci) × (res ≡ some s')
      × IsProbed pi ssts i s'
      × (s'.initialized ≡ s.initialized)
      × (s'.base ≡ s.base)

  later :
      (pi i : ℕ) (s : Ahci)
      → (bit_and pi (2 ^ i) ≢ 0 → ¬ HasDrive (ssts i))
      → IsProbed pi ssts i s
      → IsProbed pi ssts (suc i) s
  later pi i s not_here (few, each, rising, all) = (
    omega arith,
    λ j lt. let (low, bit, drive, on) = each j lt in (omega arith, bit, drive, on),
    rising,
    λ p lt bit drive. elim (dec_lt p i) [
      | yes old ↦ all p old bit drive
      | no stop ↦
          let here : p ≡ i = omega arith in
          absurd (
            not_here (subst (λ t. bit_and pi (2 ^ t) ≢ 0) here bit)
              (subst (λ t. HasDrive (ssts t)) here drive))
    ],
  )

  add_port-IsProbed :
      (pi i : ℕ) (s : Ahci) (h : History)
      → i < 32
      → bit_and pi (2 ^ i) ≢ 0
      → HasDrive (ssts i)
      → IsProbed pi ssts i s
      → IsProbed pi ssts (suc i) (add_port i h s)
  unfolding add_port
  add_port-IsProbed pi i s h lt bit_i drive_i (few, each, rising, all) =
      let c = s.port_count in
      let num = update s.port_num c i in
      let at_c : num c ≡ i = update_self s.port_num c i in
      let old_num = λ (j : ℕ) (below : j < c). update_ne s.port_num c i j (λ e. omega (arith, e)) in
      (
        omega arith,
        λ j below. elim (dec_lt j c) [
          | yes old ↦
              let (low, bit, drive, on) = each j old in
              let same = old_num j old in
              (
                omega (arith, same),
                subst (λ t. bit_and pi (2 ^ t) ≢ 0) (sym same) bit,
                subst (λ t. HasDrive (ssts t)) (sym same) drive,
                update_ne s.active c 1 j (λ e. omega (arith, e)) ∙ on,
              )
          | no stop ↦
              let here : c ≡ j = omega arith in
              rw (← here) (
                omega (arith, at_c),
                subst (λ t. bit_and pi (2 ^ t) ≢ 0) (sym at_c) bit_i,
                subst (λ t. HasDrive (ssts t)) (sym at_c) drive_i,
                update_self s.active c 1,
              )
        ],
        λ j k lt_k below. elim (dec_lt k c) [
          | yes old ↦ omega (arith, rising j k lt_k old, old_num j (omega arith), old_num k old)
          | no stop ↦
              let here : k ≡ c = omega arith in
              omega (arith, (each j (omega arith)).0, old_num j (omega arith), ap num here, at_c)
        ],
        λ p below bit drive. elim (dec_lt p i) [
          | yes old ↦
              let (j, at_j, same) = all p old bit drive in (j, omega arith, old_num j at_j ∙ same)
          | no stop ↦ let here : i ≡ p = omega arith in (c, omega arith, at_c ∙ here)
        ],
      )

  added :
      (pi i : ℕ) (s : Ahci) (h : History)
      → i < 32
      → bit_and pi (2 ^ i) ≢ 0
      → HasDrive (ssts i)
      → IsProbed pi ssts i s
      → Probes pi (suc i) s (ahci_port_init dev fuel l s.base i h >>= λ h2. some (add_port i h2 s))
  unfolding add_port
  added pi i s h lt bit_i drive_i v =
      let (h2, ended) = ahci_port_init-ends dev fuel stops l s.base i h in
      rw ended (add_port i h2 s, refl, add_port-IsProbed pi i s h2 lt bit_i drive_i v, refl, refl)

  probe-Probes :
      (pi i : ℕ) (s : Ahci)
      → i < 32
      → s.base ≡ 0x10000000
      → IsProbed pi ssts i s
      → Probes pi (suc i) s (probe dev fuel l pi i s)
  unfolding probe
  probe-Probes pi i s lt based v =
      let (status, h1) = read32 dev (ahci_port_addr s.base i 0x28) s.regs in
      let told : status ≡ ssts i =
        ap (λ b. u32 (dev (load32 (ahci_port_addr b i 0x28) ∷ s.regs))) based
        ∙ answers i s.regs lt in
      if_cases (Probes pi (suc i) s) (bit_and pi (2 ^ i) == 0)
        (λ e. (s, refl, later pi i s (λ bit. absurd (bit (ground arith))) v, refl, refl))
        (λ bit.
          if_cases (Probes pi (suc i) s) (not (is_present status))
            (λ e. (
              record s { regs = h1 },
              refl,
              later pi i s
                  (λ _ drive.
                    let there : is_present status ≡ true =
                      ap is_present told ∙ HasDrive-is_present (ssts i) drive in
                    cc)
                  v,
              refl,
              refl,
            ))
            (λ e.
              let there : is_present status ≡ true = ground arith in
              added pi i s h1 lt (ground arith)
                (is_present-HasDrive (ssts i) (ap is_present (sym told) ∙ there)) v))

  probe_from-Probes :
      (pi n i : ℕ) (s : Ahci)
      → i + n ≡ 32
      → s.base ≡ 0x10000000
      → IsProbed pi ssts i s
      → Probes pi 32 s (probe_from dev fuel l pi n i s)
  unfolding probe_from
  probe_from-Probes pi zero i s e based v =
      let last : i ≡ 32 = omega arith in
      (s, refl, subst (λ t. IsProbed pi ssts t s) last v, refl, refl)
  probe_from-Probes pi (suc n) i s e based v =
      let (s1, e1, v1, same1, base1) = probe-Probes pi i s (omega arith) based v in
      let (s2, e2, v2, same2, base2) =
        probe_from-Probes pi n (suc i) s1 (omega arith) (base1 ∙ based) v1 in
      rw e1 (s2, e2, v2, same2 ∙ same1, base2 ∙ base1)

  -- The mask of the ports that the controller has.
  abbrev pub ports_mask : Ahci → ℕ
  ports_mask s = u32 (dev (load32 0x1000000C ∷ store32 0x10000004 0x80000000 ∷ s.regs))

  -- If every port stops in time, and the status register of a port yields the same value while the
  -- ports are looked at, `ahci_init` returns. The ports that it has found, 32 at most, are exactly those
  -- of the controller's mask whose status says that a device is there and active, in rising order, and
  -- it succeeds, and calls the driver initialised, exactly where it has found one.
  pub ahci_init-IsProbed :
      (s : Ahci)
      → (ok : Bool) × (s' : Ahci) × (ahci_init dev fuel l s ≡ some (ok, s'))
        × IsProbed (ports_mask s) ssts 32 s'
        × (ok ≡ ltb 0 s'.port_count)
        × (s'.initialized ≡ (if ok then 1 else 0))
  unfolding ahci_init
  ahci_init-IsProbed s =
      let h1 = load32 0x1000000C ∷ store32 0x10000004 0x80000000 ∷ s.regs in
      let start : Ahci = record s {
        base = 0x10000000;
        port_count = 0;
        initialized = 0;
        regs = h1;
      } in
      let empty : IsProbed (ports_mask s) ssts 0 start = (
        omega arith,
        (λ j lt. absurd (omega arith)),
        (λ j k lt below. absurd (omega arith)),
        (λ p lt. absurd (omega arith)),
      ) in
      let (s', e, v, same, base) = probe_from-Probes (ports_mask s) 32 0 start refl refl empty in
      let (good, told, set) = concluded-IsProbed (ports_mask s) ssts s' v same in
      rw e ((concluded s').0, (concluded s').1, refl, good, told, set)
