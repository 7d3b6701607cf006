-- ===== src/Ata.antt =====
-- drivers/ata.c over Ports: reads and writes of sectors by 48-bit addresses. A buffer is a function of
-- the index of its 16-bit words.
pub mod Status
pub mod Transfer
pub mod Receive
mod Tests
use valiant_core.Base.{
  ℕ, zero, suc, ◌+◌, ◌*◌, ◌/◌, Bool, true, false, not, ◌&&◌, ◌||◌, ◌∷◌, ◌==◌, if◌then◌else◌, update,
  bit_and, for_range,
}
use valiant_core.Ports.{History, Hardware, Access, in8, outb, outw, inb, inw}

-- Four reads of the control port.
unfoldable pub ata_io_wait : History → History
ata_io_wait h = in8 0x3F6 ∷ in8 0x3F6 ∷ in8 0x3F6 ∷ in8 0x3F6 ∷ h

-- The two tests of a round, on the status.
unfoldable pub is_ready : ℕ → ℕ → Bool
is_ready bit status =
    (not (bit == 0) && not (bit_and status bit == 0)) || (bit == 0 && bit_and status 0x80 == 0)

-- The result and the history.
unfoldable pub ata_status_wait : Hardware → ℕ → ℕ → History → Bool × History
ata_status_wait hw bit zero h = (false, h)
ata_status_wait hw bit (suc timeout) h =
    let (status, h1) = inb hw 0x1F7 h in
    elim (is_ready bit status) [
      | true ↦ (true, h1)
      | false ↦ ata_status_wait hw bit timeout (ata_io_wait h1)
    ]

-- The registers, twice each, and the command.
unfoldable pub send_command : ℕ → ℕ → ℕ → History → History
send_command command lba count h =
    let h1 = ata_io_wait (outb 0x1F6 0x40 h) in
    let h2 =
      outb 0x1F5 (lba / 1099511627776) (
        outb 0x1F4 (lba / 4294967296)
          (outb 0x1F3 (lba / 16777216) (outb 0x1F2 (count / 256) h1))) in
    let h3 =
      outb 0x1F5 (lba / 65536) (outb 0x1F4 (lba / 256) (outb 0x1F3 lba (outb 0x1F2 count h2))) in
    outb 0x1F7 command h3

-- Sectors from the number `s` on.
unfoldable pub write_sectors : Hardware → ℕ → ℕ → (ℕ → ℕ) → History → Bool × History
write_sectors hw zero s buffer h = (true, h)
write_sectors hw (suc n) s buffer h =
    let (ok, h1) = ata_status_wait hw 0x08 10000 h in
    elim ok [
      | false ↦ (false, h1)
      | true ↦
          write_sectors hw n (suc s) buffer
            (for_range 256 0 (λ i. outw 0x1F0 (buffer (s * 256 + i))) h1)
    ]

-- The result, where `false` is -1, and the history.
unfoldable pub ata_write_250gb : Hardware → ℕ → ℕ → (ℕ → ℕ) → History → Bool × History
ata_write_250gb hw lba count buffer h =
    let (ok, h1) = write_sectors hw count 0 buffer (send_command 0x34 lba count h) in
    if not ok then (false, h1) else (true, (ata_status_wait hw 0 100000 (outb 0x1F7 0xE7 h1)).1)

-- `buffer[s * 256 + i] = inw(ATA_DATA)`
unfoldable pub read_word : Hardware → ℕ → ℕ → (ℕ → ℕ) × History → (ℕ → ℕ) × History
read_word hw s i (buffer, h) =
    let (word, h') = inw hw 0x1F0 h in (update buffer (s * 256 + i) word, h')

unfoldable pub read_sectors : Hardware → ℕ → ℕ → (ℕ → ℕ) → History → Bool × (ℕ → ℕ) × History
read_sectors hw zero s buffer h = (true, buffer, h)
read_sectors hw (suc n) s buffer h =
    let (ok, h1) = ata_status_wait hw 0x08 10000 h in
    elim ok [
      | false ↦ (false, buffer, h1)
      | true ↦
          let (buffer', h2) = for_range 256 0 (read_word hw s) (buffer, h1) in
          read_sectors hw n (suc s) buffer' h2
    ]

-- The result, the buffer and the history.
unfoldable pub ata_read_250gb : Hardware → ℕ → ℕ → (ℕ → ℕ) → History → Bool × (ℕ → ℕ) × History
ata_read_250gb hw lba count buffer h =
    read_sectors hw count 0 buffer (send_command 0x24 lba count h)
