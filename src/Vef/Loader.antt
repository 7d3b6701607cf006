-- ===== src/Vef/Loader.antt =====
-- `vef_exec` of loaders/vef-loader.c. The file stands in memory at `buf`; `security_scan_buffer`,
-- of security/security.rs, is an argument, and may change memory. `addr_t` has 32 bits. The jump to
-- ring 3 is an `iret`, which does not come back: what stands behind it in `vef_exec` is not reached.
pub mod Copy
pub mod Exec
use valiant_core.Base.{
  ℕ, zero, suc, ◌+◌, ◌*◌, ◌≤◌, ◌<◌, Bool, true, false, not, ◌&&◌, ◌||◌, List, [], ◌∷◌, ltb, ◌==◌,
  if◌then◌else◌, u32, update, codes,
}
use valiant_core.Vef.Window.{Screen, Window, win_fg, win_err, vef_win_open, vef_win_print}

abbrev pub header_size : ℕ
header_size = 13

-- `VEF_ARCH_I386`, which `vef_current_arch` returns.
abbrev pub cur_arch : ℕ
cur_arch = 1

-- What the loader asks of paging and of the processor.
pub data Effect : Type 0 where
  map_user : ℕ → ℕ → ℕ → Effect
  switch_user : Effect
  ring3 : ℕ → ℕ → Effect

-- How a call ends: with the result -1, or in ring 3.
pub data End : Type 0 where
  error entered : End

-- Memory, the window and the effects, the last one first.
pub record Machine : Type 0 where
  pub memory : ℕ → ℕ
  pub window : Window
  pub effects : List Effect

-- The fields of `vef_header_t`.
unfoldable pub get_word : (ℕ → ℕ) → ℕ → ℕ
get_word m a = m a + 256 * m (u32 (a + 1)) + 65536 * m (u32 (a + 2)) + 16777216 * m (u32 (a + 3))

abbrev pub magic_ok : (ℕ → ℕ) → ℕ → Bool
magic_ok m buf =
    m buf == b'F'
    && m (u32 (buf + 1)) == b'I'
    && m (u32 (buf + 2)) == b'N'
    && m (u32 (buf + 3)) == b'N'

abbrev pub arch : (ℕ → ℕ) → ℕ → ℕ
arch m buf = m (u32 (buf + 4))

abbrev pub entry_point : (ℕ → ℕ) → ℕ → ℕ
entry_point m buf = get_word m (u32 (buf + 5))

abbrev pub text_size : (ℕ → ℕ) → ℕ → ℕ
text_size m buf = get_word m (u32 (buf + 9))

abbrev pub payload : ℕ → ℕ
payload buf = u32 (buf + header_size)

-- `for (i = 0; i < hdr->text_size; i++) load_addr[i] = payload[i];` from some `i` on: the header is
-- read again in every round, so the loop has 2 ^ 32 rounds at most.
unfoldable pub copy_loop : ℕ → ℕ → ℕ → ℕ → (ℕ → ℕ) → ℕ → ℕ
copy_loop zero buf load_addr i m = m
copy_loop (suc fuel) buf load_addr i m = elim (ltb i (text_size m buf)) [
  | false ↦ m
  | true ↦
      copy_loop fuel buf load_addr (suc i)
        (update m (u32 (load_addr + i)) (m (u32 (payload buf + i))))
]

unfoldable pub say : Screen → ℕ → List (List ℕ) → Window → Window
say screen color [] win = win
say screen color (s ∷ ss) win = say screen color ss (vef_win_print screen s color win)

-- A window with a title and lines, before `return -1`.
unfoldable pub fail_with : Screen → List ℕ → List (List ℕ) → Machine → Machine × End
fail_with screen title messages s =
    (record s { window = say screen win_err messages (vef_win_open screen title s.window) }, error)

unfoldable pub arch_message : ℕ → List (List ℕ)
arch_message a =
    if a == 1
    then codes "File is for i386, current system is different.\n" ∷ []
    else if a == 2
    then codes "File is for x86_64, current system is different.\n" ∷ []
    else if a == 3
    then codes "File is for Aarch64, current system is different.\n" ∷ []
    else []

-- From the window of the running program on, to the jump. `user_stack` is the address of the array.
unfoldable pub launch : Screen → ℕ → Machine → ℕ → Machine × End
launch screen user_stack s buf =
    let opened =
      say screen win_fg
        (codes "VEF signature: OK\n" ∷ codes "Security scan: OK\n" ∷ codes "Loading...\n\n" ∷ [])
        (vef_win_open screen (codes "ValiantCore VEF - Running") s.window) in
    let m = copy_loop 4294967296 buf (entry_point s.memory buf) 0 s.memory in
    (
      record {
        memory = m;
        window = opened;
        effects =
            ring3 (entry_point m buf) (u32 (user_stack + 4096))
            ∷ switch_user
            ∷ map_user (entry_point m buf) (entry_point m buf) (text_size m buf)
            ∷ s.effects;
      },
      entered,
    )

-- `scan m a n` tells whether `security_scan_buffer` returns 0 for the `n` bytes at `a` of the memory
-- `m`, and yields the memory that it leaves.
abbrev pub Scan : Type 0
Scan = (ℕ → ℕ) → ℕ → ℕ → Bool × (ℕ → ℕ)

unfoldable pub vef_exec : Scan → Screen → ℕ → Machine → ℕ → ℕ → Machine × End
vef_exec scan screen user_stack s buf size =
    let m = s.memory in
    let scanned = scan m (payload buf) (text_size m buf) in
    let s' = record s { memory = scanned.1 } in
    if buf == 0 || ltb size header_size
    then (s, error)
    else if not (magic_ok m buf)
    then fail_with screen (codes "VEF Loader - Error")
        (codes "ERROR: No valid signature was found in this file.\n"
          ∷ codes "Expected: FINN signature\n"
          ∷ codes "This file cannot be executed.\n"
          ∷ [])
        s
    else if not (arch m buf == cur_arch)
    then fail_with screen (codes "VEF Loader - Error")
        (codes "ERROR: Architecture mismatch.\n" ∷ arch_message (arch m buf)) s
    else if ltb size (text_size m buf + header_size)
    then fail_with screen (codes "VEF Loader - Error")
        (codes "ERROR: Corrupted VEF file (size mismatch).\n" ∷ []) s
    else if not scanned.0
    then fail_with screen (codes "VEF Loader - Security")
        (codes "ERROR: Security scan failed.\n"
          ∷ codes "Execution blocked by ValiantCore's Cyber Armor.\n"
          ∷ [])
        s'
    else launch screen user_stack s' buf
