-- ===== src/Ata/Tests.antt =====
-- The theorem on the ATA driver at concrete input.
use valiant_core.Base.{ℕ, ◌*◌, ◌≤◌, ◌<◌, ◌≡◌, ◌⊎◌, arith, true, false, [], ◌++◌}
use valiant_core.Ports.{Hardware, History}
use valiant_core.Ata.{ata_write_250gb, ata_read_250gb}
use valiant_core.Ata.Status.{TimedOut}
use valiant_core.Ata.Receive.{received, Stored, ata_read_250gb-received}
use valiant_core.Ata.Transfer.{
  written, words, sent, sent_lba, sent_count, Written, ata_write_250gb-Sends,
}

-- A disk that is always ready.
abbrev disk : Hardware
disk h = 0x48

abbrev counting : ℕ → ℕ
counting i = i

ata_write_250gb-Sends_example :
    let r = ata_write_250gb disk 0x123456789A 2 counting [] in
    (start : History) × (k : ℕ) × (h' : History) × (sent_lba start ≡ 0x123456789A)
    × (sent_count start ≡ 2)
    × (sent 0 0x1F7 start ≡ 0x34)
    × (written start ≡ written [])
    × Written disk counting 0 k start h'
    × (written r.1 ≡ written [] ++ words counting (k * 256))
    × (((k ≡ 2) × (r.0 ≡ true)) ⊎ ((k < 2) × (r.0 ≡ false) × TimedOut disk 10000 h' r.1))
ata_write_250gb-Sends_example =
    ata_write_250gb-Sends disk 0x123456789A 2 counting [] (omega arith) (omega arith)

ata_read_250gb-received_example :
    let r = ata_read_250gb disk 7 1 counting [] in
    (start : History) × (k : ℕ) × (b : (ℕ → ℕ) × History) × (sent_lba start ≡ 7)
    × (sent_count start ≡ 1)
    × (sent 0 0x1F7 start ≡ 0x24)
    × (received disk start ≡ received disk [])
    × Stored disk 0 k (counting, start) b
    × (received disk r.2 ≡ received disk [] ++ words r.1 (k * 256))
    × ((j : ℕ) → k * 256 ≤ j → r.1 j ≡ j)
    × (((k ≡ 1) × (r.0 ≡ true)) ⊎ ((k < 1) × (r.0 ≡ false) × TimedOut disk 10000 b.1 r.2))
ata_read_250gb-received_example =
    ata_read_250gb-received disk 7 1 counting [] (omega arith) (omega arith)
