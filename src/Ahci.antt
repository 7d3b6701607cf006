-- ===== src/Ahci.antt =====
-- drivers/ahci64.c over Mmio: the disk controller. The addresses of the command list, the command table
-- and the buffer of received FISes are arguments. The first header of the list and the table are records of
-- their fields; a field of fewer bits keeps that many. Messages are left out. `ahci_port_start` waits
-- without a limit, so that wait has a number of rounds, with `none` where they run out.
pub mod Command
pub mod Issue
pub mod Probe
mod Tests
use valiant_core.Base.{
  ℕ, zero, suc, ◌+◌, ◌-◌, ◌*◌, ◌/◌, ◌%◌, ◌^◌, Bool, true, false, not, ◌&&◌, ◌||◌, Option, none,
  some, List, [], ◌∷◌, ◌==◌, if◌then◌else◌, u8, u16, u32, update, bit_and, bit_or, ◌>>=◌,
}
use valiant_core.Base.Waits.{give_up, wait_for}
use valiant_core.Mmio.{History, Device, write32, read32}

-- The set fields of `ahci_cmd_header_t`.
pub record Header : Type 0 where
  pub cfl : ℕ
  pub w : ℕ
  pub prdtl : ℕ
  pub ctba : ℕ
  pub ctbau : ℕ

-- The set fields of `ahci_fis_h2d_t`.
pub record Fis : Type 0 where
  pub fis_type : ℕ
  pub c : ℕ
  pub command : ℕ
  pub lba0 : ℕ
  pub lba1 : ℕ
  pub lba2 : ℕ
  pub device : ℕ
  pub lba3 : ℕ
  pub lba4 : ℕ
  pub lba5 : ℕ
  pub countl : ℕ
  pub counth : ℕ

-- `ahci_prdt_entry_t`
pub record Prdt : Type 0 where
  pub dba : ℕ
  pub dbau : ℕ
  pub dbc : ℕ
  pub interrupt : ℕ

-- `ahci_cmd_table_t`
pub record Table : Type 0 where
  pub cfis : Fis
  pub prdt : Prdt

-- The variable `ahci`, with the numbers of its ports and their `active` fields, the first header and
-- the table, and the history.
pub record Ahci : Type 0 where
  pub base : ℕ
  pub port_num : ℕ → ℕ
  pub active : ℕ → ℕ
  pub port_count : ℕ
  pub initialized : ℕ
  pub header : Header
  pub table : Table
  pub regs : History

-- Where the driver's memory is.
pub record Layout : Type 0 where
  pub cmd_list : ℕ
  pub cmd_table : ℕ
  pub fis_buf : ℕ

abbrev pub ahci_port_addr : ℕ → ℕ → ℕ → ℕ
ahci_port_addr base port offset = base + 0x100 + u32 (port * 0x80) + offset

-- A break of a waiting loop: the bits `mask` of a register are clear.
unfoldable pub is_clear : Device → ℕ → ℕ → History → Bool × History
is_clear dev addr mask h = let (v, h') = read32 dev addr h in (bit_and v mask == 0, h')

unfoldable pub ahci_port_stop : Device → ℕ → ℕ → History → History
ahci_port_stop dev base port h =
    let cmd_reg = ahci_port_addr base port 0x18 in
    let (cmd, h1) = read32 dev cmd_reg h in
    let no_st = bit_and cmd 0xFFFFFFFE in
    let h2 = give_up (is_clear dev cmd_reg 0x8000) 500 (write32 cmd_reg no_st h1) in
    let no_fre = bit_and no_st 0xFFFFFFEF in
    give_up (is_clear dev cmd_reg 0x4000) 500 (write32 cmd_reg no_fre h2)

unfoldable pub ahci_port_start : Device → ℕ → ℕ → ℕ → History → Option History
ahci_port_start dev fuel base port h = do
  let cmd_reg = ahci_port_addr base port 0x18
  h1 ← wait_for (is_clear dev cmd_reg 0x8000) fuel h
  let (cmd, h2) = read32 dev cmd_reg h1
  some (write32 cmd_reg (bit_or (bit_or cmd 0x10) 0x01) h2)

unfoldable pub ahci_port_init : Device → ℕ → Layout → ℕ → ℕ → History → Option History
ahci_port_init dev fuel l base port h =
    let stopped = ahci_port_stop dev base port h in
    let listed =
      write32 (ahci_port_addr base port 0x04) (l.cmd_list / 4294967296)
        (write32 (ahci_port_addr base port 0x00) (bit_and l.cmd_list 0xFFFFFFFF) stopped) in
    let received =
      write32 (ahci_port_addr base port 0x0C) (l.fis_buf / 4294967296)
        (write32 (ahci_port_addr base port 0x08) (bit_and l.fis_buf 0xFFFFFFFF) listed) in
    let cleared =
      write32 (ahci_port_addr base port 0x10) 0xFFFFFFFF
        (write32 (ahci_port_addr base port 0x30) 0xFFFFFFFF received) in
    ahci_port_start dev fuel base port cleared

unfoldable pub make_header : Layout → Bool → Header
make_header l write = record {
  cfl = 20 / 4 % 32;
  w = if write then 1 else 0;
  prdtl = 1;
  ctba = bit_and l.cmd_table 0xFFFFFFFF;
  ctbau = u32 (l.cmd_table / 4294967296);
}

unfoldable pub make_fis : ℕ → ℕ → Bool → Fis
make_fis lba count write = record {
  fis_type = 0x27;
  c = 1;
  command = if write then 0x35 else 0x25;
  lba0 = u8 (bit_and lba 0xFF);
  lba1 = u8 (bit_and (lba / 256) 0xFF);
  lba2 = u8 (bit_and (lba / 65536) 0xFF);
  device = 0x40;
  lba3 = u8 (bit_and (lba / 16777216) 0xFF);
  lba4 = u8 (bit_and (lba / 4294967296) 0xFF);
  lba5 = u8 (bit_and (lba / 1099511627776) 0xFF);
  countl = u8 (bit_and count 0xFF);
  counth = u8 (bit_and (count / 256) 0xFF);
}

unfoldable pub make_prdt : ℕ → ℕ → Prdt
make_prdt buf count = record {
  dba = bit_and buf 0xFFFFFFFF;
  dbau = u32 (buf / 4294967296);
  dbc = (count * 512 - 1) % 4194304;
  interrupt = 1;
}

-- The loop behind the write of PORT_CI; `false` is -1.
unfoldable pub wait_done : Device → ℕ → ℕ → ℕ → History → Bool × History
wait_done dev base port zero h = (true, h)
wait_done dev base port (suc n) h =
    let (ci, h1) = read32 dev (ahci_port_addr base port 0x38) h in
    let (status, h2) = read32 dev (ahci_port_addr base port 0x10) h1 in
    elim (bit_and ci 1 == 0) [
      | true ↦ (true, h1)
      | false ↦ elim (bit_and status 0x40000000 == 0) [
        | true ↦ wait_done dev base port n h2
        | false ↦ (false, h2)
      ]
    ]

-- `ahci_send_cmd` from the wait for the port on.
unfoldable pub issue : Device → ℕ → ℕ → History → Bool × History
issue dev base port h =
    let free = give_up (is_clear dev (ahci_port_addr base port 0x20) 0x88) 1000 h in
    wait_done dev base port 100000 (write32 (ahci_port_addr base port 0x38) 1 free)

-- The result, where `false` is -1, and the variables; so below.
unfoldable pub ahci_send_cmd : Device → Layout → ℕ → ℕ → ℕ → ℕ → Bool → Ahci → Bool × Ahci
ahci_send_cmd dev l port lba count buf write s =
    let (ok, h) = issue dev s.base port s.regs in
    if buf == 0 || count == 0 then (false, s) else (
      ok,
      record s {
        header = make_header l write;
        table = record { cfis = make_fis lba count write; prdt = make_prdt buf count };
        regs = h;
      },
    )

-- A device is there, `det == 3 && ipm == 1`.
unfoldable pub is_present : ℕ → Bool
is_present ssts = u8 (bit_and ssts 0x0F) == 3 && u8 (bit_and (ssts / 256) 0x0F) == 1

-- The end of the body for a port that has a device.
unfoldable pub add_port : ℕ → History → Ahci → Ahci
add_port i h s = record s {
  active = update s.active s.port_count 1;
  port_num = update s.port_num s.port_count i;
  port_count = u32 (s.port_count + 1);
  regs = h;
}

-- One round of the loop of `ahci_init`.
unfoldable pub probe : Device → ℕ → Layout → ℕ → ℕ → Ahci → Option Ahci
probe dev fuel l pi i s =
    let (ssts, h1) = read32 dev (ahci_port_addr s.base i 0x28) s.regs in
    if bit_and pi (2 ^ i) == 0
    then some s
    else (if not (is_present ssts)
        then some (record s { regs = h1 })
        else do h2 ← ahci_port_init dev fuel l s.base i h1; some (add_port i h2 s))

-- The loop, from the port `i` on.
unfoldable pub probe_from : Device → ℕ → Layout → ℕ → ℕ → ℕ → Ahci → Option Ahci
probe_from dev fuel l pi zero i s = some s
probe_from dev fuel l pi (suc n) i s = do
  s' ← probe dev fuel l pi i s
  probe_from dev fuel l pi n (suc i) s'

unfoldable pub ahci_init : Device → ℕ → Layout → Ahci → Option (Bool × Ahci)
ahci_init dev fuel l s = do
  let h = write32 (0x10000000 + 0x04) 0x80000000 s.regs
  let (pi, h1) = read32 dev (0x10000000 + 0x0C) h
  s' ←
      probe_from dev fuel l pi 32 0
        (record s { base = 0x10000000; port_count = 0; initialized = 0; regs = h1 })
  some (if s'.port_count == 0 then (false, s') else (true, record s' { initialized = 1 }))

-- `ahci_read` for `false`, and `ahci_write` for `true`.
unfoldable pub transfer : Device → Layout → ℕ → ℕ → ℕ → Bool → Ahci → Bool × Ahci
transfer dev l lba count buf write s =
    if s.initialized == 0
    then (false, s)
    else (if buf == 0 || count == 0
        then (false, s)
        else (if s.port_count == 0
            then (false, s)
            else ahci_send_cmd dev l (s.port_num 0) lba count buf write s))

unfoldable pub ahci_read : Device → Layout → ℕ → ℕ → ℕ → Ahci → Bool × Ahci
ahci_read dev l lba count buf s = transfer dev l lba count buf false s

unfoldable pub ahci_write : Device → Layout → ℕ → ℕ → ℕ → Ahci → Bool × Ahci
ahci_write dev l lba count buf s = transfer dev l lba count buf true s
