-- ===== src/Vef/Pack/Loads.antt =====
-- What the loader reads in a file that the tool has made.
use valiant_core.Base.{
  ℕ, ◌+◌, ◌≤◌, ◌<◌, ◌≡◌, refl, ap, ◌∙◌, inl, inr, arith, true, false, Bool-cases, some,
  Option-cases, List, [], ◌∷◌, ◌++◌, length, get_or, u32, codes,
}
use valiant_core.Vef.Window.{Screen}
use valiant_core.Vef.Loader.{
  End, error, Scan, Machine, get_word, magic_ok, arch, entry_point, text_size, payload, vef_exec,
}
use valiant_core.Vef.Loader.Copy.{Apart}
use valiant_core.Vef.Loader.Exec.{Keeps, Outcome, refused, blocked, ran, vef_exec-Outcome}
use valiant_core.Vef.Pack.{
  same_string, arch_id, little_endian, header, default_entry, Host, pack_file, vef_pack,
}

-- The file stands in memory at `buf`.
abbrev pub Holds : (ℕ → ℕ) → ℕ → List ℕ → Type 0
Holds m buf file = (i : ℕ) → i < length file → m (buf + i) ≡ get_or file i 0

-- What a run of the tool writes when it succeeds.
pack_file-some :
    (host : Host) (id : ℕ) (input_bin output_vef file : List ℕ)
    → pack_file host id input_bin output_vef ≡ (0, some file)
    → (bytes : List ℕ) × (header id default_entry (length bytes) ++ bytes ≡ file)
unfolding pack_file
pack_file-some host id input_bin output_vef file e =
    elim (Option-cases (host.open_read input_bin)) [
      | inl missing ↦ absurd (ground arith)
      | inr (bytes, found) ↦ elim (Bool-cases (host.can_create output_vef)) [
        | inr no_file ↦ absurd (ground arith)
        | inl created ↦ elim (Bool-cases (host.can_alloc (length bytes))) [
          | inr no_room ↦ absurd (ground arith)
          | inl room ↦ (bytes, ground arith)
        ]
      ]
    ]

header-length : (bytes : List ℕ) → 21 ≤ length (header 1 default_entry (length bytes) ++ bytes)
unfolding header little_endian
header-length bytes = omega arith

-- The fields that the loader finds in the 21 bytes of the tool's header.
header-fields :
    (m : ℕ → ℕ) (buf : ℕ) (bytes : List ℕ)
    → buf + 21 ≤ 4294967296
    → Holds m buf (header 1 default_entry (length bytes) ++ bytes)
    → (magic_ok m buf ≡ true)
      × (arch m buf ≡ 1)
      × (entry_point m buf ≡ 0x100000)
      × (text_size m buf ≡ 0)
unfolding header little_endian get_word
header-fields m buf bytes fits holds =
    let b0 : m buf ≡ b'F' = at 0 (omega arith) buf (omega arith) in
    let b1 : m (u32 (buf + 1)) ≡ b'I' = at 1 (omega arith) (u32 (buf + 1)) (omega arith) in
    let b2 : m (u32 (buf + 2)) ≡ b'N' = at 2 (omega arith) (u32 (buf + 2)) (omega arith) in
    let b3 : m (u32 (buf + 3)) ≡ b'N' = at 3 (omega arith) (u32 (buf + 3)) (omega arith) in
    let b4 : m (u32 (buf + 4)) ≡ 1 = at 4 (omega arith) (u32 (buf + 4)) (omega arith) in
    let b5 : m (u32 (buf + 5)) ≡ 0 = at 5 (omega arith) (u32 (buf + 5)) (omega arith) in
    let b6 : m (u32 (u32 (buf + 5) + 1)) ≡ 0 =
      at 6 (omega arith) (u32 (u32 (buf + 5) + 1)) (omega arith) in
    let b7 : m (u32 (u32 (buf + 5) + 2)) ≡ 16 =
      at 7 (omega arith) (u32 (u32 (buf + 5) + 2)) (omega arith) in
    let b8 : m (u32 (u32 (buf + 5) + 3)) ≡ 0 =
      at 8 (omega arith) (u32 (u32 (buf + 5) + 3)) (omega arith) in
    let b9 : m (u32 (buf + 9)) ≡ 0 = at 9 (omega arith) (u32 (buf + 9)) (omega arith) in
    let b10 : m (u32 (u32 (buf + 9) + 1)) ≡ 0 =
      at 10 (omega arith) (u32 (u32 (buf + 9) + 1)) (omega arith) in
    let b11 : m (u32 (u32 (buf + 9) + 2)) ≡ 0 =
      at 11 (omega arith) (u32 (u32 (buf + 9) + 2)) (omega arith) in
    let b12 : m (u32 (u32 (buf + 9) + 3)) ≡ 0 =
      at 12 (omega arith) (u32 (u32 (buf + 9) + 3)) (omega arith) in
    (rw (b0, b1, b2, b3) refl, b4, omega (arith, b5, b6, b7, b8), omega (arith, b9, b10, b11, b12))
  where
    at :
        (k : ℕ)
        → k < length (header 1 default_entry (length bytes) ++ bytes)
        → (a : ℕ) → a ≡ buf + k
        → m a ≡ get_or (header 1 default_entry (length bytes) ++ bytes) k 0
    at k lt a e = rw e (holds k lt)

-- A scan of no byte returns -1 at once, as that of security/security.rs does.
abbrev pub RefusesEmpty : Scan → Type 0
RefusesEmpty scan = (m : ℕ → ℕ) (a : ℕ) → scan m a 0 ≡ (false, m)

module _ (scan : Scan) (screen : Screen) (user_stack : ℕ) (s : Machine) (buf : ℕ) where
  -- The result -1, with memory, paging and the processor untouched.
  abbrev pub Refuses : Machine × End → Type 0
  Refuses r = (r.1 ≡ error) × (r.0.memory ≡ s.memory) × (r.0.effects ≡ s.effects)

  blocked_empty :
      (size : ℕ) (r : Machine × End)
      → Outcome scan user_stack s buf size r
      → RefusesEmpty scan
      → text_size s.memory buf ≡ 0
      → Refuses r
  blocked_empty size r (refused t rejected same e) none empty = (refl, same, e)
  blocked_empty size r (blocked t ok found same e) none empty = (
    refl,
    same
        ∙ ap (λ n. (scan s.memory (payload buf) n).1) empty
        ∙ ap (λ v. v.1) (none s.memory (payload buf)),
    e,
  )
  blocked_empty size r (ran t ok clean same e) none empty =
      let failed : (scan s.memory (payload buf) (text_size s.memory buf)).0 ≡ false =
        ap (λ n. (scan s.memory (payload buf) n).0) empty
        ∙ ap (λ v. v.0) (none s.memory (payload buf)) in
      cc

  -- The loader on i386 refuses every file that `vef-pack i386` makes, whatever the program: in the
  -- high half of the tool's 8-byte entry point it reads the size 0, and the scan of no byte fails.
  -- Memory, paging and the processor stay untouched.
  pub vef_pack-vef_exec :
      (host : Host) (input_bin output_vef file : List ℕ)
      → vef_pack host (codes "i386" ∷ input_bin ∷ output_vef ∷ []) ≡ (0, some file)
      → Holds s.memory buf file
      → 0 < buf
      → buf + length file ≤ 4294967296
      → Keeps scan
      → RefusesEmpty scan
      → Refuses (vef_exec scan screen user_stack s buf (length file))
  unfolding vef_pack arch_id same_string
  vef_pack-vef_exec host input_bin output_vef file e holds there fits keeps empty_fails =
      let (bytes, made) = pack_file-some host 1 input_bin output_vef file e in
      let stands : Holds s.memory buf (header 1 default_entry (length bytes) ++ bytes) =
        rw made holds in
      let long : 21 ≤ length file = rw (← made) (header-length bytes) in
      let (magic, here, entry, empty) = header-fields s.memory buf bytes (omega arith) stands in
      let apart : Apart buf (entry_point s.memory buf) (text_size s.memory buf) =
        (omega (arith, empty), omega (arith, empty, entry), inr (inr empty)) in
      blocked_empty (length file) (vef_exec scan screen user_stack s buf (length file))
        (vef_exec-Outcome scan user_stack s buf (length file) screen apart keeps) empty_fails empty
