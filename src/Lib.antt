-- ===== src/Lib.antt =====
-- A verification library for the ValiantCore kernel: its C code as executable functions, and what
-- is proved of them. The parts below call each other only through what their headers say; hardware
-- and assembly code are arguments, and what the code prints on the console is left out, but for the
-- report of Pci.
--
-- Base holds what the modules share: the loops `for` and search loops of C, arrays, Boolean tests
-- on machine words and laws of the bitwise operations. A word keeps its wrap-around as `% 2 ^ w`.
--
-- Sched is kernel/scheduler.c with include/scheduler.h. A `Scheduler` holds the file's static
-- variables; `init_scheduler`, `task_create`, `task_kill`, `task_sleep`, `task_set_priority`,
-- `task_block` and `task_unblock` keep their names, and take and return it. `schedule_next` is in
-- Sched.Tick, its wake loop as `wake_all`, its search loop as `pick` and its switch as `give`;
-- `ipc_send` and `ipc_receive` are in Sched.Ipc, and Sched.Calls runs lists of calls.
-- Sched.Aarch64 is kernel/scheduler64.c: its operations in Sched.Aarch64.Ops, under their names with
-- a 64 behind, and lists of calls as `run64`.
--
-- Fat is fs/fat32/fat32.c, over drivers/ata.c as the interface `Disk`, which returns a sector or an
-- error. The table of clusters and `fat32_alloc_cluster` are in Fat, `fat32_init` in Fat.Init,
-- `fat32_8dot3_to_name` and `fat32_open` in Fat.Dir, `fat32_read` and `fat32_close` in Fat.Read.
-- The read loop has `len` rounds of fuel, and each round copies a byte at least. The walk over the
-- root directory has fuel as an argument, since on a cyclic chain the code does not end.
-- `fat32_ls`, which only prints, is not modelled.
--
-- Keyboard is drivers/keyboard.c: `kbd_buffer_push`, `keyboard_getchar` and `keyboard_handler` on
-- the static variables, with the scancode as an argument.
--
-- Paging is memory/paging.c with include/paging.h for 32 bits: `map_page` on the directory and the
-- words of the page tables, and `walk`, the processor's way through them. `page_fault_handler`
-- only panics and is not modelled.
--
-- Heap is memory/kheap.c with include/kheap.h for 32 bits: the bitmap with `set_bitmap` and
-- `clear_bitmap`, and `kmalloc_ext`. `get_bitmap`, which the repository does not define, is an
-- argument with the hypothesis that it tells the bits that `set_bitmap` sets.
--
-- Pic is arch/x86/i8259.c: `pic_set_mask` and `pic_clear_mask` on the two mask registers, and in
-- Pic.Setup `pic_init`, `pic_send_eoi`, `pic_disable` and the reads of registers over Ports.
--
-- Syscalls is kernel/syscalls.c: `sys_security_audit`, `sys_validate_args` and `sys_write` on the
-- counters and the list of alerts, with the answers of security/security.rs as an argument.
--
-- Vef.Window and Vef.Loader are loaders/vef-loader.c for the i386 kernel. The calls that draw, map
-- pages and enter ring 3 are lists, and memory is a function of the address. The scan of
-- security/security.rs is an argument, which yields its result and the memory that it leaves. Its copy loop has
-- 2 ^ 32 rounds of fuel, since its index has 32 bits. Vef.Pack is bin/vef-pack.c, `main` as
-- `vef_pack`, without its messages; its files are an argument.
--
-- Stdio is bin/stdio.h over the system calls `sys_write` and `sys_read`, which add to the output
-- and take from the input. A `long` has 32 or 64 bits; the least one is undefined behaviour of
-- `valiant_itoa`. Its loop has 64 rounds of fuel for its 64 bits; the
-- length of a line bounds the other loops.
--
-- Ports is include/io.h: the accesses to ports are a history, and the hardware is a function from
-- the history to its answers.
--
-- Pci is drivers/pci.c over Ports, every function under its name; the body of `pci_scan_device` is
-- split into `read_device`, `enable` and `add_device`, that of `pci_init` into `scan_slot`,
-- `scan_others`, `scan_function` and `report`.
--
-- Framebuffer is drivers/framebuffer.c for 32 bits, and Framebuffer.Aarch64 is
-- arch/aarch64/framebuffer64.c, every function under its name. The stores to the screen are a list.
-- `line_loop64` of the second also tells where an `int` overflows.
-- Framebuffer.Shapes has the other loops, over a function that draws a pixel; the
-- numbers of rounds of a circle and of a line are arguments. A circle of radius r needs r + 2.
--
-- Console is drivers/font.c over Framebuffer: the font from its file, text, and the console
-- `kprint`, whose loop is `put_chars` with the steps `put_char` and `wrap`.
--
-- Ata is drivers/ata.c over Ports, every function under its name, with the registers and the command
-- in `send_command` and the loops over sectors in `write_sectors` and `read_sectors`. Ata.Status
-- describes the waits between the sectors on their own.
--
-- Descriptors is arch/x86/gdt.c and arch/x86/interrupts.c for 32 bits: `gdt_set_gate`, `init_gdt`,
-- `idt_set_gate` and `init_idt`, whose calls for the handlers are `set_handlers` on a list.
--
-- Ethernet is drivers/ethernet/realtek/rtl8111.c over Ports, with the body of `rtl_find_device` split
-- into `find_from`, `find_on_bus` and `take_device`, and those of `rtl8111_init`, `rtl8111_send` and
-- `rtl8111_receive` into themselves and `set_up`, `transmit` and `take_packet`. Base.Waits has the
-- loops that wait for a register, with the counters of the code.
--
-- Pit is arch/x86/i8254.c and `irq_handler` of arch/x86/interrupts.c over Sched, Keyboard and Pic. The
-- part of the handler behind the call of the scheduler is `after_timer`.
--
-- Mmio is the access to registers in memory and to the timer's on AArch64, as a history. Uart is
-- drivers/uart/uart64.c, and Gic is arch/aarch64/gic64.c, timer64.c and irq_handler64.c, every function
-- under its name. The waits for the port have a number of rounds as an argument; the theorems ask
-- that the port has room within it.
--
-- Panic is arch/x86/vcorepanic.c for 32 bits and arch/aarch64/panic64.c: the numerals of the two, in
-- Panic.Screen the PC's screens as lists of drawing calls, and in Panic.Aarch64 the text on the serial
-- port. The endless loop of `kernel_panic` has a number of rounds as an argument.
--
-- Ahci is drivers/ahci64.c over Mmio, every function under its name, with the body of
-- `ahci_send_cmd` split into what it stores, `make_header`, `make_fis` and `make_prdt`, and what it
-- does, `issue` with its loop `wait_done`, and the loop of `ahci_init` into `probe_from`, `probe` and
-- `add_port`.
--
-- Boot is kernel/vcore_bootscreen.c: the tables, the logo and the spinner, whose first loop is split
-- into `draw_part` and `draw_ray`, and whose discs are `fill_near`.
--
-- Not modelled: the rest of the boot code of init and kernel, which calls the parts in turn, the data
-- of include/terminus16.h and include/vcore_logo.h, and what is Rust or assembly.
pub mod Base
pub mod Sched
pub mod Fat
pub mod Heap
pub mod Keyboard
pub mod Paging
pub mod Pic
pub mod Syscalls
pub mod Stdio
pub mod Vef
pub mod Ports
pub mod Pci
pub mod Framebuffer
pub mod Console
pub mod Ata
pub mod Descriptors
pub mod Ethernet
pub mod Mmio
pub mod Uart
pub mod Gic
pub mod Panic
pub mod Pit
pub mod Ahci
pub mod Boot
