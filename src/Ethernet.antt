-- ===== src/Ethernet.antt =====
-- drivers/ethernet/realtek/rtl8111.c over Ports: the network card. The addresses of its two buffers
-- are arguments; so is what the card has stored in the memory from `rx_buf` on, which is a function
-- of the accesses made so far and of the offset, beyond the end of the buffer too. The messages are
-- left out.
pub mod Scan
pub mod Init
pub mod Send
pub mod Receive
pub mod Calls
mod Tests
use valiant_core.Base.{
  ℕ, zero, suc, ◌+◌, ◌*◌, ◌/◌, Bool, true, false, not, ◌&&◌, ◌||◌, Option, none, some, ltb, ◌==◌,
  if◌then◌else◌, u8, u16, u32, update, bit_and, bit_or, for_range, ℤ, pos, negsuc, le_ℤ,
}
use valiant_core.Base.Waits.{count_down}
use valiant_core.Ports.{History, Hardware, outb, inb, outw, inw, outl, inl}

-- The file's variables, without `rx_buf`.
pub record Rtl : Type 0 where
  pub rtl_base : ℕ
  pub rtl_mac : ℕ → ℕ
  pub cable_status : ℕ
  pub rx_packets : ℕ
  pub rx_errors : ℕ
  pub tx_packets : ℕ
  pub tx_error : ℕ
  pub tx_buf : ℕ → ℕ

abbrev pub rx_buf_size : ℕ
rx_buf_size = 65536

abbrev pub tx_buf_size : ℕ
tx_buf_size = 1536

unfoldable pub config_address : ℕ → ℕ → ℕ → ℕ → ℕ
config_address bus slot func offset = u32 (
    bit_or
      (bit_or (bit_or (bit_or (u32 (bus * 65536)) (u32 (slot * 2048))) (u32 (func * 256)))
        (bit_and offset 0xFC))
      2147483648)

unfoldable pub pci_read32 : Hardware → ℕ → ℕ → ℕ → ℕ → History → ℕ × History
pci_read32 hw bus slot func offset h =
    inl hw 0xCFC (outl 0xCF8 (config_address bus slot func offset) h)

unfoldable pub pci_write32 : ℕ → ℕ → ℕ → ℕ → ℕ → History → History
pci_write32 bus slot func offset val h =
    outl 0xCFC val (outl 0xCF8 (config_address bus slot func offset) h)

-- The three tests of the device number.
unfoldable pub is_rtl : ℕ → Bool
is_rtl id =
    let device = bit_and (id / 65536) 0xFFFF in
    bit_and id 0xFFFF == 0x10EC && (device == 0x8168 || device == 0x8136 || device == 0x8169)

-- The body for a device that has passed the tests: bus mastering on, and the address of its registers.
unfoldable pub take_device : Hardware → ℕ → ℕ → History → ℕ × History
take_device hw bus slot h =
    let (cmd, h1) = pci_read32 hw bus slot 0 0x04 h in
    let (bar, h2) =
      pci_read32 hw bus slot 0 0x10 (pci_write32 bus slot 0 0x04 (bit_or cmd 0x07) h1) in
    (bit_and bar 0xFFFFFFF0, h2)

-- The inner loop, from `slot` on; `none` where it has not returned.
unfoldable pub find_on_bus : Hardware → ℕ → ℕ → ℕ → History → Option ℕ × History
find_on_bus hw bus zero slot h = (none, h)
find_on_bus hw bus (suc n) slot h =
    let (id, h1) = pci_read32 hw bus slot 0 0 h in
    elim (is_rtl id) [
      | true ↦ let (base, h2) = take_device hw bus slot h1 in (some base, h2)
      | false ↦ find_on_bus hw bus n (suc slot) h1
    ]

-- The outer loop, from `bus` on.
unfoldable pub find_from : Hardware → ℕ → ℕ → History → ℕ × History
find_from hw zero bus h = (0, h)
find_from hw (suc n) bus h =
    let (found, h1) = find_on_bus hw bus 32 0 h in
    elim found [ some base ↦ (base, h1) | none ↦ find_from hw n (suc bus) h1 ]

unfoldable pub rtl_find_device : Hardware → History → ℕ × History
rtl_find_device hw h = find_from hw 256 0 h

-- The port of a register: `(uint16_t)(rtl_base + reg)`.
abbrev pub rtl_port : ℕ → ℕ → ℕ
rtl_port base reg = u16 (base + reg)

abbrev pub rtl_read8 : Hardware → ℕ → ℕ → History → ℕ × History
rtl_read8 hw base reg h = inb hw (u16 (u16 base + reg)) h

abbrev pub rtl_read16 : Hardware → ℕ → ℕ → History → ℕ × History
rtl_read16 hw base reg h = inw hw (rtl_port base reg) h

abbrev pub rtl_read32 : Hardware → ℕ → ℕ → History → ℕ × History
rtl_read32 hw base reg h = inl hw (rtl_port base reg) h

abbrev pub rtl_write8 : ℕ → ℕ → ℕ → History → History
rtl_write8 base reg val h = outb (rtl_port base reg) val h

abbrev pub rtl_write16 : ℕ → ℕ → ℕ → History → History
rtl_write16 base reg val h = outw (rtl_port base reg) val h

abbrev pub rtl_write32 : ℕ → ℕ → ℕ → History → History
rtl_write32 base reg val h = outl (rtl_port base reg) val h

unfoldable pub read_mac_byte : Hardware → ℕ → ℕ → (ℕ → ℕ) × History → (ℕ → ℕ) × History
read_mac_byte hw base i (mac, h) =
    let (byte, h') = rtl_read8 hw base (0x00 + i) h in (update mac i byte, h')

unfoldable pub rtl_read_mac : Hardware → ℕ → (ℕ → ℕ) → History → (ℕ → ℕ) × History
rtl_read_mac hw base mac h = for_range 6 0 (read_mac_byte hw base) (mac, h)

unfoldable pub rtl_check_cable : Hardware → ℕ → History → ℕ × History
rtl_check_cable hw base h =
    let (msr, h') = rtl_read8 hw base 0x58 h in (if bit_and msr 0x04 == 0 then 0 else 1, h')

-- `!(rtl_read8(RTL_CMD) & RTL_CMD_RESET)`
unfoldable pub reset_done : Hardware → ℕ → History → Bool × History
reset_done hw base h = let (cmd, h') = rtl_read8 hw base 0x37 h in (bit_and cmd 0x10 == 0, h')

-- `rtl8111_init` from the reading of the address on.
unfoldable pub set_up : Hardware → ℕ → Rtl → History → Rtl × History
set_up hw rx_buf r h =
    let base = r.rtl_base in
    let (mac, h1) = rtl_read_mac hw base r.rtl_mac h in
    let masked = rtl_write16 base 0x3C 0x2005 (rtl_write32 base 0x30 rx_buf h1) in
    let configured = rtl_write32 base 0x40 0x03000700 (rtl_write32 base 0x44 0x1F8A masked) in
    let enabled = rtl_write8 base 0x52 0x00 (rtl_write8 base 0x37 0x0C configured) in
    let (cable, h2) = rtl_check_cable hw base enabled in
    (record r { rtl_mac = mac; cable_status = cable }, h2)

-- The result, where `false` is -1, the variables and the history; so below.
unfoldable pub rtl8111_init : Hardware → ℕ → Rtl → History → Bool × Rtl × History
rtl8111_init hw rx_buf r h =
    let (base, h1) = rtl_find_device hw h in
    let found : Rtl = record r { rtl_base = base } in
    let (timeout, h2) = count_down (reset_done hw base) 10000 (rtl_write8 base 0x37 0x10 h1) in
    if base == 0
    then (false, found, h1)
    else (if le_ℤ timeout (pos 0)
        then (false, found, h2)
        else (let (ready, h3) = set_up hw rx_buf found h2 in (true, ready, h3)))

-- `rtl_read32(RTL_TXSTATUSO) & 0x8000`
unfoldable pub transmitted : Hardware → ℕ → History → Bool × History
transmitted hw base h =
    let (status, h') = rtl_read32 hw base 0x10 h in (not (bit_and status 0x8000 == 0), h')

-- `rtl8111_send` after the three tests.
unfoldable pub transmit : Hardware → ℕ → Rtl → (ℕ → ℕ) → ℕ → History → Bool × Rtl × History
transmit hw tx_addr r data' len h =
    let base = r.rtl_base in
    let filled : Rtl = record r {
      tx_buf = for_range len 0 (λ i b. update b i (data' i)) r.tx_buf;
    } in
    let h1 = rtl_write32 base 0x10 len (rtl_write32 base 0x20 tx_addr h) in
    let (timeout, h2) = count_down (transmitted hw base) 100000 h1 in
    if le_ℤ timeout (pos 0)
    then (false, filled, h2)
    else (true, record filled { tx_packets = u32 (r.tx_packets + 1) }, h2)

unfoldable pub rtl8111_send : Hardware → ℕ → Rtl → (ℕ → ℕ) → ℕ → History → Bool × Rtl × History
rtl8111_send hw tx_addr r data' len h =
    if r.rtl_base == 0
    then (false, r, h)
    else (if r.cable_status == 0
        then (false, r, h)
        else (if ltb tx_buf_size len then (false, r, h) else transmit hw tx_addr r data' len h))

-- The bytes from `rx_buf` on.
abbrev pub Ram : Type 0
Ram = History → ℕ → ℕ

-- The result of `rtl8111_receive`, the variables, the two results through pointers, and the history.
pub record Received : Type 0 where
  pub result : ℤ
  pub driver : Rtl
  pub buf : ℕ → ℕ
  pub len : ℕ
  pub ports : History

-- `rtl8111_receive` after the test of the status.
unfoldable pub take_packet : Hardware → Ram → Rtl → (ℕ → ℕ) → ℕ → History → Received
take_packet hw ram r buf len h =
    let (rx_ptr, h') = rtl_read16 hw r.rtl_base 0x38 (rtl_write16 r.rtl_base 0x3E 0x0001 h) in
    let pkt_len = u8 (ram h' (rx_ptr + 2)) + 256 * u8 (ram h' (rx_ptr + 3)) in
    if ltb rx_buf_size pkt_len
    then record {
      result = negsuc 0;
      driver = record r { rx_errors = u32 (r.rx_errors + 1) };
      buf = buf;
      len = len;
      ports = h';
    }
    else record {
      result = pos 1;
      driver = record r { rx_packets = u32 (r.rx_packets + 1) };
      buf = for_range pkt_len 0 (λ i b. update b i (u8 (ram h' (rx_ptr + 4 + i)))) buf;
      len = u16 pkt_len;
      ports = h';
    }

unfoldable pub rtl8111_receive : Hardware → Ram → Rtl → (ℕ → ℕ) → ℕ → History → Received
rtl8111_receive hw ram r buf len h =
    let (isr, h') = rtl_read16 hw r.rtl_base 0x3E h in
    if r.rtl_base == 0
    then record { result = negsuc 0; driver = r; buf = buf; len = len; ports = h }
    else (if bit_and isr 0x0001 == 0
        then record { result = pos 0; driver = r; buf = buf; len = len; ports = h' }
        else take_packet hw ram r buf len h')

unfoldable pub rtl8111_irq_handler : Hardware → Rtl → History → Rtl × History
rtl8111_irq_handler hw r h =
    let (isr, h1) = rtl_read16 hw r.rtl_base 0x3E h in
    let acked = rtl_write16 r.rtl_base 0x3E isr h1 in
    let (cable, h2) = rtl_check_cable hw r.rtl_base acked in
    let looked : Rtl × History =
      if bit_and isr 0x2000 == 0 then (r, acked) else (record r { cable_status = cable }, h2) in
    let counted : Rtl = record looked.0 { tx_packets = u32 (looked.0.tx_packets + 1) } in
    if r.rtl_base == 0
    then (r, h)
    else (if bit_and isr 0x0004 == 0 then looked else (counted, looked.1))
