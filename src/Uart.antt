-- ===== src/Uart.antt =====
-- drivers/uart/uart64.c over Mmio: the serial port. Each wait for the port has a number of rounds as
-- an argument, with `none` where they run out. The characters of AArch64 are unsigned.
pub mod Print
mod Tests
use valiant_core.Base.{
  ℕ, Bool, not, Option, none, some, List, [], ◌∷◌, ◌==◌, if◌then◌else◌, ◌>>=◌, bit_and,
}
use valiant_core.Base.Waits.{wait_for}
use valiant_core.Mmio.{History, Device, write32, read32}

abbrev pub uart0_dr : ℕ
uart0_dr = 0x09000000

abbrev pub uart0_fr : ℕ
uart0_fr = 0x09000018

unfoldable pub uart_init : History → History
uart_init h =
    let off = write32 0x09000030 0x00 h in
    let baud = write32 0x09000028 1 (write32 0x09000024 13 off) in
    write32 0x09000030 0x301 (write32 0x09000038 0x00 (write32 0x0900002C 0x70 baud))

-- `!(mmio_read32_uart(UART0_FR) & UART_FR_TXFF)`
unfoldable pub has_room : Device → History → Bool × History
has_room dev h = let (fr, h') = read32 dev uart0_fr h in (bit_and fr 0x20 == 0, h')

-- `!(mmio_read32_uart(UART0_FR) & UART_FR_RXFE)`
unfoldable pub uart_has_input : Device → History → Bool × History
uart_has_input dev h = let (fr, h') = read32 dev uart0_fr h in (bit_and fr 0x10 == 0, h')

unfoldable pub uart_putc : Device → ℕ → ℕ → History → Option History
uart_putc dev fuel c h = do h' ← wait_for (has_room dev) fuel h; some (write32 uart0_dr c h')

unfoldable pub uart_print : Device → ℕ → List ℕ → History → Option History
uart_print dev fuel [] h = some h
uart_print dev fuel (c ∷ s) h = do
  h1 ← if c == 10 then uart_putc dev fuel 13 h else some h
  h2 ← uart_putc dev fuel c h1
  uart_print dev fuel s h2

unfoldable pub uart_getc : Device → ℕ → History → Option (ℕ × History)
uart_getc dev fuel h = do
  h1 ← wait_for (uart_has_input dev) fuel h
  let (word, h2) = read32 dev uart0_dr h1
  some (bit_and word 0xFF, h2)
