-- ===== src/Panic/Aarch64.antt =====
-- arch/aarch64/panic64.c over Uart, with the two handlers that call it, sync_handler64.c and
-- serror_handler64.c: the text that a panic prints. What the two buffers of the numerals hold before is
-- an argument. The endless wait at the end is left out.
use valiant_core.Base.{ℕ, ◌/◌, Option, some, List, [], ◌∷◌, ◌++◌, ◌>>=◌, codes, bit_and}
use valiant_core.Mmio.{History, Device}
use valiant_core.Uart.{uart_print}
use valiant_core.Panic.{choose, text_of, uint64_to_hex}

abbrev names : List (ℕ × List ℕ)
names =
    (0x00, codes "ERR_UNKOWN")
    ∷ (0x01, codes "ERR_TRAPPED_WFI_WFE")
    ∷ (0x0E, codes "ERR_ILLEGAL_EXEC")
    ∷ (0x15, codes "ERR_SVC_AARCH64")
    ∷ (0x20, codes "ERR_INST_ABORT_LOWER")
    ∷ (0x21, codes "ERR_INST_ABORT")
    ∷ (0x22, codes "ERR_PC_ALIGNMENT")
    ∷ (0x24, codes "ERR_DATA_ABORT_LOWER")
    ∷ (0x25, codes "ERR_DATA_ABORT")
    ∷ (0x26, codes "ERR_SP_ALIGNMENT")
    ∷ (0x28, codes "ERR_TRAPPED_FPU")
    ∷ (0x2F, codes "ERR_SERROR")
    ∷ (0x30, codes "ERR_BREAKPOINT_LOWER")
    ∷ (0x31, codes "ERR_BREAKPOINT")
    ∷ (0x32, codes "ERR_STEP_LOWER")
    ∷ (0x33, codes "ERR_STEP")
    ∷ (0x34, codes "ERR_WATCHPOINT_LOWER")
    ∷ (0x35, codes "ERR_WATCHPOINT")
    ∷ (0x3C, codes "ERR_BRK_AARCH64")
    ∷ []

unfoldable pub panic_detect_aarch64 : ℕ → List ℕ
panic_detect_aarch64 esr = choose (bit_and (esr / 67108864) 0x3F) names (codes "ERR_UNKOWN")

abbrev end_line : List ℕ → List ℕ
end_line s = s ++ (13 ∷ 10 ∷ [])

abbrev rule : List ℕ
rule =
    end_line
      (codes "################################################################################")

abbrev bangs : List ℕ
bangs =
    end_line
      (codes "!!!!!!!!!!!!!!!!!!!!!!!!!!!!!!!!!!!!!!!!!!!!!!!!!!!!!!!!!!!!!!!!!!!!!!!!!!!!!!!!")

-- The texts that are printed, in turn.
unfoldable pub panic_texts : List ℕ → List ℕ → List ℕ → List (List ℕ)
panic_texts code esr_str elr_str =
    end_line []
    ∷ rule
    ∷ bangs
    ∷ end_line
        (codes "!!                                                                            !!")
    ∷ end_line
        (codes "!!           ValiantCore AArch64 - A Problem Has Been Detected               !!")
    ∷ end_line
        (codes "!!              Please reboot your device to recover.                        !!")
    ∷ end_line
        (codes "!!                                                                            !!")
    ∷ bangs
    ∷ rule
    ∷ end_line []
    ∷ end_line (codes "                           *** STOP ERROR ***")
    ∷ end_line []
    ∷ codes "    Error Code  :  "
    ∷ code
    ∷ end_line []
    ∷ codes "    ESR_EL1     :  "
    ∷ esr_str
    ∷ end_line []
    ∷ codes "    ESR_EL1     :  "
    ∷ elr_str
    ∷ end_line []
    ∷ end_line (codes "    Architecture:  AArch64")
    ∷ end_line []
    ∷ rule
    ∷ end_line
        (codes "##                                                                            ##")
    ∷ end_line
        (codes "##   If you cannot resolve this issue, please open an issue at:              ##")
    ∷ end_line
        (codes "##                                                                            ##")
    ∷ end_line
        (codes "##          >>> github.com/finndev62/valiantcore -> Issues tab <<<           ##")
    ∷ end_line
        (codes "##                                                                            ##")
    ∷ rule
    ∷ end_line []
    ∷ []

-- `uart_print` of each.
unfoldable pub print_all : Device → ℕ → List (List ℕ) → History → Option History
print_all dev fuel [] h = some h
print_all dev fuel (s ∷ texts) h = do h' ← uart_print dev fuel s h; print_all dev fuel texts h'

unfoldable pub kernel_panic_aarch64 : Device → ℕ → (ℕ → ℕ) → ℕ → ℕ → History → Option History
kernel_panic_aarch64 dev fuel junk esr elr h =
    print_all dev fuel
      (panic_texts (panic_detect_aarch64 esr) (text_of 20 (uint64_to_hex esr junk))
        (text_of 20 (uint64_to_hex elr junk)))
      h

unfoldable pub sync_handler : Device → ℕ → (ℕ → ℕ) → ℕ → ℕ → ℕ → History → Option History
sync_handler dev fuel junk esr elr type' h = kernel_panic_aarch64 dev fuel junk esr elr h

unfoldable pub serror_handler : Device → ℕ → (ℕ → ℕ) → ℕ → ℕ → ℕ → History → Option History
serror_handler dev fuel junk esr elr type' h = kernel_panic_aarch64 dev fuel junk esr elr h
