-- ===== src/Pci/Table.antt =====
-- The table that `pci_init` fills.
use valiant_core.Base.{
  ℕ, suc, ◌+◌, ◌*◌, ◌≤◌, ◌<◌, ◌≡◌, ◌≢◌, refl, inl, inr, arith, true, Bool-cases, ◌||◌, leb, ◌==◌,
  update, update_self, update_ne, bit_and, for_range, for_range_inv, dec_lt,
}
use valiant_core.Ports.{History, Hardware}
use valiant_core.Pci.{
  PciDevice, Pci, pci_read16, pci_read8, read_device, add_device, pci_scan_device, scan_function,
  scan_others, scan_slot, report, pci_init,
}

-- An entry for a function that answered.
abbrev pub IsDevice : PciDevice → Type 0
IsDevice d =
    (d.bus < 256)
    × (d.slot < 32)
    × (d.func < 8)
    × (d.vendor_id ≢ 0xFFFF)
    × (d.vendor_id < 65536)
    × (d.device_id < 65536)
    × (d.class_code < 256)
    × (d.subclass < 256)
    × (d.valid ≡ true)

-- The place of a function in the order of the scan.
abbrev pub place : PciDevice → ℕ
place d = d.bus * 256 + d.slot * 8 + d.func

-- The entries are those of functions before the place `k`, in the order of the scan.
abbrev pub IsTable : Pci → ℕ → Type 0
IsTable p k =
    (p.pci_device_count ≤ 256)
    × ((i : ℕ) → i < p.pci_device_count → IsDevice (p.pci_devices i))
    × ((i : ℕ) → i < p.pci_device_count → place (p.pci_devices i) < k)
    × ((i j : ℕ)
        → i < j
        → j < p.pci_device_count
        → place (p.pci_devices i) < place (p.pci_devices j))

IsTable-le : (p : Pci) (k k' : ℕ) → k ≤ k' → IsTable p k → IsTable p k'
IsTable-le p k k' le t = (t.0, t.1, (λ i lt. omega (arith, t.2 i lt)), t.3)

pci_read16-lt :
    (hw : Hardware) (bus slot func offset : ℕ) (h : History)
    → (pci_read16 hw bus slot func offset h).0 < 65536
unfolding pci_read16
pci_read16-lt hw bus slot func offset h = omega arith

pci_read8-lt :
    (hw : Hardware) (bus slot func offset : ℕ) (h : History)
    → (pci_read8 hw bus slot func offset h).0 < 256
unfolding pci_read8
pci_read8-lt hw bus slot func offset h = omega arith

read_device-IsDevice :
    (hw : Hardware) (bus slot func vendor : ℕ) (old : PciDevice) (h : History)
    → bus < 256
    → slot < 32
    → func < 8
    → vendor ≢ 0xFFFF
    → vendor < 65536
    → IsDevice (read_device hw bus slot func vendor old h).0
unfolding read_device
read_device-IsDevice hw bus slot func vendor old h b s f v w = (
  b,
  s,
  f,
  v,
  w,
  pci_read16-lt hw bus slot func 0x02 h,
  pci_read8-lt hw bus slot func 0x0B _,
  pci_read8-lt hw bus slot func 0x0A _,
  refl,
)

place-read_device :
    (hw : Hardware) (bus slot func vendor : ℕ) (old : PciDevice) (h : History)
    → place (read_device hw bus slot func vendor old h).0 ≡ bus * 256 + slot * 8 + func
unfolding read_device
place-read_device hw bus slot func vendor old h = refl

module _ (hw : Hardware) (bus slot : ℕ) (bus_lt : bus < 256) (slot_lt : slot < 32) where
  add_device-IsTable :
      (func vendor : ℕ) (h : History) (p : Pci)
      → func < 8
      → vendor ≢ 0xFFFF
      → vendor < 65536
      → p.pci_device_count < 256
      → IsTable p (bus * 256 + slot * 8 + func)
      → IsTable (add_device hw bus slot func vendor h p) (bus * 256 + slot * 8 + suc func)
  unfolding add_device
  add_device-IsTable func vendor h p f v w room (le, entries, before, ordered) =
      let n = p.pci_device_count in
      let d = (read_device hw bus slot func vendor (p.pci_devices n) h).0 in
      let at_n : update p.pci_devices n d n ≡ d = update_self p.pci_devices n d in
      let below : ((i : ℕ) → i < n → update p.pci_devices n d i ≡ p.pci_devices i) =
        λ i lt. update_ne p.pci_devices n d i (λ e. omega (arith, e)) in
      let last : place d ≡ bus * 256 + slot * 8 + func =
        place-read_device hw bus slot func vendor (p.pci_devices n) h in
      let device : IsDevice d =
        read_device-IsDevice hw bus slot func vendor (p.pci_devices n) h bus_lt slot_lt f v w in
      (
        omega arith,
        (λ i lt. elim (dec_lt i n) [
          | yes old ↦ rw (below i old) (entries i old)
          | no new ↦ let here : i ≡ n = omega arith in rw (here, at_n) device
        ]),
        (λ i lt. elim (dec_lt i n) [
          | yes old ↦ rw (below i old) (omega (arith, before i old))
          | no new ↦ let here : i ≡ n = omega arith in rw (here, at_n) (omega (arith, last))
        ]),
        λ i j lt up. elim (dec_lt j n) [
          | yes old ↦ rw (below j old, below i (omega arith)) (ordered i j lt old)
          | no new ↦
              let here : j ≡ n = omega arith in
              rw (here, at_n, below i (omega arith)) (omega (arith, last, before i (omega arith)))
        ],
      )

  pci_scan_device-IsTable :
      (func : ℕ) (p : Pci)
      → func < 8
      → IsTable p (bus * 256 + slot * 8 + func)
      → IsTable (pci_scan_device hw bus slot func p) (bus * 256 + slot * 8 + suc func)
  unfolding pci_scan_device
  pci_scan_device-IsTable func p f table =
      let vendor = (pci_read16 hw bus slot func 0x00 p.ports).0 in
      elim (Bool-cases (vendor == 0xFFFF || leb 256 p.pci_device_count)) [
        | inl stop ↦ rw stop (IsTable-le p (bus * 256 + slot * 8 + func) _ (omega arith) table)
        | inr go ↦ rw go (
            add_device-IsTable func vendor (pci_read16 hw bus slot func 0x00 p.ports).1 p f
              (λ e. ground arith) (pci_read16-lt hw bus slot func 0x00 p.ports) (ground arith)
              table)
      ]

  scan_function-IsTable :
      (func : ℕ) (p : Pci)
      → func < 8
      → IsTable p (bus * 256 + slot * 8 + func)
      → IsTable (scan_function hw bus slot func p) (bus * 256 + slot * 8 + suc func)
  unfolding scan_function
  scan_function-IsTable func p f table =
      elim (Bool-cases ((pci_read16 hw bus slot func 0x00 p.ports).0 == 0xFFFF)) [
        | inl stop ↦ rw stop (IsTable-le p (bus * 256 + slot * 8 + func) _ (omega arith) table)
        | inr go ↦ rw go (pci_scan_device-IsTable func _ f table)
      ]

  scan_others-IsTable :
      (p : Pci)
      → IsTable p (bus * 256 + slot * 8 + 1)
      → IsTable (scan_others hw bus slot p) (bus * 256 + slot * 8 + 8)
  unfolding scan_others
  scan_others-IsTable p table =
      elim (Bool-cases (bit_and (pci_read8 hw bus slot 0 0x0E p.ports).0 0x80 == 0)) [
        | inl single ↦ rw single (IsTable-le p (bus * 256 + slot * 8 + 1) _ (omega arith) table)
        | inr many ↦ rw many (
            for_range_inv (λ k q. IsTable q (bus * 256 + slot * 8 + k))
              (λ func. scan_function hw bus slot func) 7 1 8 _ refl
              (λ k q lt t. scan_function-IsTable k q lt t) table)
      ]

  scan_slot-IsTable :
      (p : Pci)
      → IsTable p (bus * 256 + slot * 8 + 0)
      → IsTable (scan_slot hw bus slot p) (bus * 256 + slot * 8 + 8)
  unfolding scan_slot
  scan_slot-IsTable p table =
      elim (Bool-cases ((pci_read16 hw bus slot 0 0x00 p.ports).0 == 0xFFFF)) [
        | inl stop ↦ rw stop (IsTable-le p (bus * 256 + slot * 8 + 0) _ (omega arith) table)
        | inr go ↦ rw go (scan_others-IsTable _ (pci_scan_device-IsTable 0 _ (omega arith) table))
      ]

-- Whatever the hardware answers and whatever the table held, after `pci_init` it has 256 entries at
-- most, each for a function 0 to 7 of a slot 0 to 31 of a bus 0 to 255 whose vendor was not 0xFFFF,
-- with its fields inside their widths; the entries are in the order of bus, slot and function, so
-- no function stands there twice.
pub pci_init-IsTable : (hw : Hardware) (p : Pci) → IsTable (pci_init hw p) 65536
unfolding pci_init report
pci_init-IsTable hw p =
    for_range_inv (λ k q. IsTable q (k * 256))
      (λ bus. for_range 32 0 (λ slot. scan_slot hw bus slot)) 256 0 256 _ refl
      (λ bus q bus_lt t.
        IsTable-le (for_range 32 0 (λ slot. scan_slot hw bus slot) q) (bus * 256 + 32 * 8) _
          (omega arith)
          (for_range_inv (λ k r. IsTable r (bus * 256 + k * 8)) (λ slot. scan_slot hw bus slot) 32 0
            32 q refl
            (λ slot r slot_lt u.
              IsTable-le (scan_slot hw bus slot r) (bus * 256 + slot * 8 + 8) _ (omega arith) (
                scan_slot-IsTable hw bus slot bus_lt slot_lt r
                  (IsTable-le r (bus * 256 + slot * 8) _ (omega arith) u)))
            (IsTable-le q (bus * 256) _ (omega arith) t)))
      (
        omega arith,
        (λ i lt. absurd (omega arith)),
        (λ i lt. absurd (omega arith)),
        λ i j lt up. absurd (omega arith),
      )
