-- ===== src/Pci/Find.antt =====
-- The searches in the table of drivers/pci.c.
use valiant_core.Base.{
  ℕ, ◌<◌, ◌≡◌, inl, inr, arith, Bool, true, false, ◌&&◌, Option, Option-cases, none, some, ◌==◌,
  First, find_first, find_first-some, find_first-none,
}
use valiant_core.Pci.{PciDevice, Pci, pci_find_device, pci_find_class}

-- The first entry with a property, or none where there is no such entry.
pub data Finds (p : Pci) (Matches : PciDevice → Type 0) : Option ℕ → Type 0 where
  found :
      (k : ℕ)
      → k < p.pci_device_count
      → Matches (p.pci_devices k)
      → ((j : ℕ) → j < k → ¬ Matches (p.pci_devices j))
      → Finds p Matches (some k)
  missing : ((j : ℕ) → j < p.pci_device_count → ¬ Matches (p.pci_devices j)) → Finds p Matches none

-- A scan of the table with a test that decides the property.
scan-Finds :
    (p : Pci) (Matches : PciDevice → Type 0) (test : PciDevice → Bool)
    → ((d : PciDevice) → test d ≡ true → Matches d)
    → ((d : PciDevice) → test d ≡ false → ¬ Matches d)
    → Finds p Matches (find_first p.pci_device_count 0 (λ i. test (p.pci_devices i)))
scan-Finds p Matches test yes_lem no_lem =
    let t : ℕ → Bool = λ i. test (p.pci_devices i) in
    elim (Option-cases (find_first p.pci_device_count 0 t)) [
      | inl e ↦ rw e (
          missing (λ j lt.
            no_lem (p.pci_devices j)
              (find_first-none p.pci_device_count 0 t e j (omega arith) (omega arith))))
      | inr (k, e) ↦
          let first : First t 0 p.pci_device_count k = find_first-some p.pci_device_count 0 t e in
          rw e (
            found k (omega (arith, first.1)) (yes_lem (p.pci_devices k) first.2)
              (λ j lt. no_lem (p.pci_devices j) (first.3 j (omega arith) lt)))
    ]

-- `pci_find_device` yields the first entry with the two numbers, `pci_find_class` the first one with
-- the class and the subclass, and NULL exactly where no entry has them.
pub pci_find-Finds :
    (p : Pci) (vendor device class_code subclass : ℕ)
    → Finds p
        (λ d. (d.vendor_id ≡ vendor) × (d.device_id ≡ device))
        (pci_find_device p vendor device)
      × Finds p
          (λ d. (d.class_code ≡ class_code) × (d.subclass ≡ subclass))
          (pci_find_class p class_code subclass)
unfolding pci_find_device pci_find_class
pci_find-Finds p vendor device class_code subclass = (
  scan-Finds p (λ d. (d.vendor_id ≡ vendor) × (d.device_id ≡ device))
      (λ d. d.vendor_id == vendor && d.device_id == device) (λ d e. ground arith)
      (λ d e f. ground (arith, f.0, f.1)),
  scan-Finds p (λ d. (d.class_code ≡ class_code) × (d.subclass ≡ subclass))
      (λ d. d.class_code == class_code && d.subclass == subclass) (λ d e. ground arith)
      (λ d e f. ground (arith, f.0, f.1)),
)
