-- ===== src/Pci.antt =====
-- drivers/pci.c: the configuration space, the table of devices and the searches in it. An address is
-- written to its port byte by byte, as the code does. The console is the list of the lines printed.
pub mod Table
pub mod Find
pub mod Cycle
mod Tests
use valiant_core.Base.{
  ℕ, zero, suc, ◌+◌, ◌-◌, ◌*◌, ◌/◌, ◌%◌, ◌^◌, Bool, true, false, not, ◌&&◌, ◌||◌, Option, none,
  some, List, [], ◌∷◌, ltb, leb, ◌==◌, if◌then◌else◌, u8, u16, u32, update, bit_and, bit_or,
  for_range, find_first, codes,
}
use valiant_core.Ports.{History, Hardware, outb, inb}

-- `pci_device_t`
pub record PciDevice : Type 0 where
  pub bus : ℕ
  pub slot : ℕ
  pub func : ℕ
  pub vendor_id : ℕ
  pub device_id : ℕ
  pub class_code : ℕ
  pub subclass : ℕ
  pub prog_if : ℕ
  pub irq : ℕ
  pub bar : ℕ → ℕ
  pub valid : Bool

-- `pci_devices` and `pci_device_count`, the accesses to ports, and the lines printed, the last first.
pub record Pci : Type 0 where
  pub pci_devices : ℕ → PciDevice
  pub pci_device_count : ℕ
  pub ports : History
  pub console : List (List ℕ)

abbrev pub max_devices : ℕ
max_devices = 256

unfoldable pub config_address : ℕ → ℕ → ℕ → ℕ → ℕ
config_address bus slot func offset =
    bit_or
      (bit_or (bit_or (bit_or 2147483648 (u32 (bus * 65536))) (u32 (slot * 2048)))
        (u32 (func * 256)))
      (bit_and offset 0xFC)

unfoldable pub send_address : ℕ → History → History
send_address address h =
    outb 0xCFB (address / 16777216)
      (outb 0xCFA (address / 65536) (outb 0xCF9 (address / 256) (outb 0xCF8 address h)))

unfoldable pub pci_read32 : Hardware → ℕ → ℕ → ℕ → ℕ → History → ℕ × History
pci_read32 hw bus slot func offset h =
    let (b0, h0) = inb hw 0xCFC (send_address (config_address bus slot func offset) h) in
    let (b1, h1) = inb hw 0xCFD h0 in
    let (b2, h2) = inb hw 0xCFE h1 in
    let (b3, h3) = inb hw 0xCFF h2 in
    (bit_or (bit_or (bit_or b0 (b1 * 256)) (b2 * 65536)) (b3 * 16777216), h3)

unfoldable pub pci_read16 : Hardware → ℕ → ℕ → ℕ → ℕ → History → ℕ × History
pci_read16 hw bus slot func offset h =
    let (val, h') = pci_read32 hw (u8 bus) slot func (bit_and offset 0xFC) h in
    (u16 (val / 256 ^ (offset % 4)), h')

unfoldable pub pci_read8 : Hardware → ℕ → ℕ → ℕ → ℕ → History → ℕ × History
pci_read8 hw bus slot func offset h =
    let (val, h') = pci_read32 hw bus slot func (bit_and offset 0xFC) h in
    (u8 (val / 256 ^ (offset % 4)), h')

unfoldable pub pci_write32 : ℕ → ℕ → ℕ → ℕ → ℕ → History → History
pci_write32 bus slot func offset val h = outb 0xCFF (val / 16777216) (
    outb 0xCFE (val / 65536) (
      outb 0xCFD (val / 256)
        (outb 0xCFC val (send_address (config_address bus slot func offset) h))))

-- `for (i = 0; i < 6; i++) dev->bar[i] = ...`
unfoldable pub read_bars : Hardware → ℕ → ℕ → ℕ → (ℕ → ℕ) → History → (ℕ → ℕ) × History
read_bars hw bus slot func bar h =
    for_range 6 0
      (λ i s.
        let (val, h') = pci_read32 hw bus slot func (0x10 + i * 4) s.1 in (update s.0 i val, h'))
      (bar, h)

-- The entry of a function, from its registers.
unfoldable pub read_device : Hardware → ℕ → ℕ → ℕ → ℕ → PciDevice → History → PciDevice × History
read_device hw bus slot func vendor old h =
    let (device_id, h1) = pci_read16 hw bus slot func 0x02 h in
    let (class_code, h2) = pci_read8 hw bus slot func 0x0B h1 in
    let (subclass, h3) = pci_read8 hw bus slot func 0x0A h2 in
    let (prog_if, h4) = pci_read8 hw bus slot func 0x09 h3 in
    let (irq, h5) = pci_read8 hw bus slot func 0x3C h4 in
    let (bar, h6) = read_bars hw bus slot func old.bar h5 in
    (
      record {
        bus = bus;
        slot = slot;
        func = func;
        vendor_id = vendor;
        device_id = device_id;
        class_code = class_code;
        subclass = subclass;
        prog_if = prog_if;
        irq = irq;
        bar = bar;
        valid = true;
      },
      h6,
    )

unfoldable pub enable : Hardware → ℕ → ℕ → ℕ → History → History
enable hw bus slot func h =
    let (cmd, h') = pci_read16 hw bus slot func 0x04 h in
    pci_write32 bus slot func 0x04 (bit_or cmd 0x0006) h'

-- A new entry.
unfoldable pub add_device : Hardware → ℕ → ℕ → ℕ → ℕ → History → Pci → Pci
add_device hw bus slot func vendor h p =
    let n = p.pci_device_count in
    let (dev, h') = read_device hw bus slot func vendor (p.pci_devices n) h in
    record p {
      pci_devices = update p.pci_devices n dev;
      pci_device_count = suc n;
      ports = enable hw bus slot func h';
    }

unfoldable pub pci_scan_device : Hardware → ℕ → ℕ → ℕ → Pci → Pci
pci_scan_device hw bus slot func p =
    let (vendor, h) = pci_read16 hw bus slot func 0x00 p.ports in
    if vendor == 0xFFFF || leb max_devices p.pci_device_count
    then record p { ports = h }
    else add_device hw bus slot func vendor h p

-- `if (vendor != 0xFFFF) pci_scan_device(...)`
unfoldable pub scan_function : Hardware → ℕ → ℕ → ℕ → Pci → Pci
scan_function hw bus slot func p =
    let (vendor, h) = pci_read16 hw bus slot func 0x00 p.ports in
    if vendor == 0xFFFF
    then record p { ports = h }
    else pci_scan_device hw bus slot func (record p { ports = h })

-- The other functions of a device whose header type says that it has them.
unfoldable pub scan_others : Hardware → ℕ → ℕ → Pci → Pci
scan_others hw bus slot p =
    let (hdr, h) = pci_read8 hw bus slot 0 0x0E p.ports in
    if bit_and hdr 0x80 == 0
    then record p { ports = h }
    else for_range 7 1 (λ func. scan_function hw bus slot func) (record p { ports = h })

unfoldable pub scan_slot : Hardware → ℕ → ℕ → Pci → Pci
scan_slot hw bus slot p =
    let (vendor, h) = pci_read16 hw bus slot 0 0x00 p.ports in
    if vendor == 0xFFFF
    then record p { ports = h }
    else scan_others hw bus slot (pci_scan_device hw bus slot 0 (record p { ports = h }))

-- `while (n > 0) tmp[tp++] = ...` and the loop that turns `tmp` round; a count has 10 digits at most.
unfoldable pub tmp_loop : ℕ → ℕ → List ℕ → List ℕ
tmp_loop zero n buf = buf
tmp_loop (suc fuel) n buf = elim (n == 0) [
  | true ↦ buf
  | false ↦ tmp_loop fuel (n / 10) ((b'0' + n % 10) ∷ buf)
]

unfoldable pub count_text : ℕ → List ℕ
count_text n = if n == 0 then b'0' ∷ [] else tmp_loop 10 n []

unfoldable pub describe : PciDevice → List (List ℕ) → List (List ℕ)
describe d console =
    if d.vendor_id == 0x10EC && d.device_id == 0x8168
    then codes "[PCI] Found: Realtek RTL8111 Ethernet\n" ∷ console
    else if d.class_code == 0x01 && d.subclass == 0x06
    then codes "[PCI] Found: SATA Controller\n" ∷ console
    else if d.class_code == 0x01 && d.subclass == 0x01
    then codes "[PCI] Found: IDE Controller\n" ∷ console
    else if d.class_code == 0x03
    then codes "[PCI] Found: Display Controller\n" ∷ console
    else if d.class_code == 0x02
    then codes "[PCI] Found: Network Controller\n" ∷ console
    else console

unfoldable pub report : Pci → Pci
report p = record p {
  console =
      for_range p.pci_device_count 0 (λ i. describe (p.pci_devices i))
        (codes "\n"
          ∷ count_text p.pci_device_count
          ∷ codes "[PCI] Scan complete. Devices found: "
          ∷ p.console);
}

unfoldable pub pci_init : Hardware → Pci → Pci
pci_init hw p = report (
    for_range 256 0 (λ bus. for_range 32 0 (λ slot. scan_slot hw bus slot))
      (record p { pci_device_count = 0 }))

-- The index of the entry; `none` is the null pointer.
unfoldable pub pci_find_device : Pci → ℕ → ℕ → Option ℕ
pci_find_device p vendor device =
    find_first p.pci_device_count 0
      (λ i. (p.pci_devices i).vendor_id == vendor && (p.pci_devices i).device_id == device)

unfoldable pub pci_find_class : Pci → ℕ → ℕ → Option ℕ
pci_find_class p class_code subclass =
    find_first p.pci_device_count 0
      (λ i. (p.pci_devices i).class_code == class_code && (p.pci_devices i).subclass == subclass)

-- `bar_idx` is an `int` of 32 bits, `addr_t` has 32 bits.
unfoldable pub pci_get_bar_addres : Option PciDevice → ℕ → ℕ
pci_get_bar_addres none bar_idx = 0
pci_get_bar_addres (some dev) bar_idx =
    let bar = dev.bar bar_idx in
    if leb 2147483648 bar_idx || ltb 5 bar_idx
    then 0
    else if bit_and bar 1 == 0
    then bit_and bar 0xFFFFFFF0
    else bit_and bar 0xFFFFFFFC
