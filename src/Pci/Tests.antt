-- ===== src/Pci/Tests.antt =====
-- The theorems on the PCI table at concrete input.
use valiant_core.Base.{true, [], ◌==◌, if◌then◌else◌}
use valiant_core.Ports.{Hardware}
use valiant_core.Pci.{PciDevice, Pci, pci_init}
use valiant_core.Pci.Table.{IsTable, pci_init-IsTable}

-- A network card RTL8111 at slot 3.
abbrev card : PciDevice
card = record {
  bus = 0;
  slot = 3;
  func = 0;
  vendor_id = 0x10EC;
  device_id = 0x8168;
  class_code = 2;
  subclass = 0;
  prog_if = 0;
  irq = 11;
  bar = λ i. if i == 0 then 0xC001 else 0;
  valid = true;
}

abbrev one_card : Pci
one_card = record { pci_devices = λ i. card; pci_device_count = 1; ports = []; console = [] }

-- Hardware that answers every read with 0x12.
abbrev hardware : Hardware
hardware h = 0x12

pci_init-IsTable_example : IsTable (pci_init hardware one_card) 65536
pci_init-IsTable_example = pci_init-IsTable hardware one_card
