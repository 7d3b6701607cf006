-- ===== src/Ahci/Tests.antt =====
-- The disk controller at concrete values.
use valiant_core.Base.{◌*◌, ◌≡◌, refl, arith, Bool, true, false, some, [], ltb, if◌then◌else◌}
use valiant_core.Base.Waits.{after}
use valiant_core.Mmio.{Device}
use valiant_core.Ahci.{
  Ahci, Layout, is_clear, make_header, make_fis, make_prdt, ahci_init, ahci_read, ahci_write,
}
use valiant_core.Ahci.Command.{fis_lba, fis_count, prdt_address, prdt_bytes, make_command_lem}
use valiant_core.Ahci.Issue.{Transfers, ahci_transfer-Transfers}
use valiant_core.Ahci.Probe.{Stops, Answers, IsProbed, ports_mask, ahci_init-IsProbed}

-- Four ports that have stopped, with a device each.
abbrev disks : Device
disks h = 0x113

disks_stop : Stops disks 1
unfolding is_clear after
disks_stop addr h = (0, omega arith, ((λ j lt. absurd (omega arith)), refl))

disks_answer : Answers disks (λ i. 0x113)
disks_answer i h lt = refl

abbrev layout : Layout
layout = record { cmd_list = 0x41000400; cmd_table = 0x41000800; fis_buf = 0x41000900 }

abbrev driver : Ahci
driver = record {
  base = 0x10000000;
  port_num = λ i. 0;
  active = λ i. 1;
  port_count = 1;
  initialized = 1;
  header = make_header layout false;
  table = record { cfis = make_fis 0 1 false; prdt = make_prdt 0 1 };
  regs = [];
}

make_command_lem_example :
    (fis_lba (make_fis 0x123456789AB 2048 true) ≡ 0x123456789AB)
    × (fis_count (make_fis 0x123456789AB 2048 true) ≡ 2048)
    × (prdt_address (make_prdt 0x140000000 2048) ≡ 0x140000000)
    × (prdt_bytes (make_prdt 0x140000000 2048) ≡ 2048 * 512)
make_command_lem_example =
    make_command_lem 0x123456789AB 2048 0x140000000 true (omega arith) (omega arith) (omega arith)
      (omega arith)

ahci_transfer-Transfers_example :
    Transfers disks layout 77 8 0x42000000 false driver
      (ahci_read disks layout 77 8 0x42000000 driver)
    × Transfers disks layout 77 8 0x42000000 true driver
        (ahci_write disks layout 77 8 0x42000000 driver)
ahci_transfer-Transfers_example = ahci_transfer-Transfers disks layout 77 8 0x42000000 driver

ahci_init-IsProbed_example :
    (ok : Bool) × (s' : Ahci) × (ahci_init disks 1 layout driver ≡ some (ok, s'))
    × IsProbed
        (ports_mask disks 1 disks_stop layout (λ i. 0x113) disks_answer driver)
        (λ i. 0x113)
        32
        s'
    × (ok ≡ ltb 0 s'.port_count)
    × (s'.initialized ≡ (if ok then 1 else 0))
ahci_init-IsProbed_example =
    ahci_init-IsProbed disks 1 disks_stop layout (λ i. 0x113) disks_answer driver
