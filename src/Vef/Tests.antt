-- ===== src/Vef/Tests.antt =====
-- Runs of the packer and the loader, and their theorems at concrete input.
use valiant_core.Base.{
  ℕ, ◌+◌, ◌-◌, ◌≡◌, refl, inl, inr, arith, true, false, not, ◌==◌, some, List, [], ◌∷◌, ◌++◌,
  length, get_or, codes,
}
use valiant_core.Vef.Window.{Screen, Window}
use valiant_core.Vef.Loader.{Machine, Scan, get_word, vef_exec}
use valiant_core.Vef.Loader.Exec.{Outcome, vef_exec-Outcome}
use valiant_core.Vef.Pack.{Host, header, little_endian, vef_pack, pack_file, arch_id, same_string}
use valiant_core.Vef.Pack.Loads.{Refuses, vef_pack-vef_exec}

abbrev screen : Screen
screen = record { sw = 1024; sh = 768; fw = 8; fh = 16 }

abbrev no_window : Window
no_window = record {
  x = 0;
  y = 0;
  w = 0;
  h = 0;
  text_x = 0;
  text_y = 0;
  text_start_y = 0;
  active = false;
  drawn = [];
}

-- A program of two bytes for 0x2000, with the 13-byte header of the loader.
abbrev program : List ℕ
program = b'F' ∷ b'I' ∷ b'N' ∷ b'N' ∷ 1 ∷ 0 ∷ 32 ∷ 0 ∷ 0 ∷ 2 ∷ 0 ∷ 0 ∷ 0 ∷ 0x90 ∷ 0xC3 ∷ []

abbrev holding : List ℕ → Machine
holding file = record { memory = λ a. get_or file (a - 4096) 0; window = no_window; effects = [] }

-- A scan that finds nothing, and fails on no byte.
abbrev scan : Scan
scan m a n = (not (n == 0), m)

vef_exec-Outcome_example :
    Outcome scan 0x9000
      (holding program)
      4096
      15
      (vef_exec scan screen 0x9000 (holding program) 4096 15)
unfolding get_word
vef_exec-Outcome_example =
    vef_exec-Outcome scan 0x9000 (holding program) 4096 15 screen
      (omega arith, omega arith, inr (inl (omega arith))) (λ m a n e. refl)

-- A host with one input file, of two bytes.
abbrev host : Host
host = record {
  open_read = λ name. some (0x90 ∷ 0xC3 ∷ []);
  can_create = λ name. true;
  can_alloc = λ n. true;
}

abbrev packed : List ℕ
packed =
    codes "FINN"
    ++ (1 ∷ 0 ∷ 0 ∷ 16 ∷ 0 ∷ 0 ∷ 0 ∷ 0 ∷ 0 ∷ 2 ∷ 0 ∷ 0 ∷ 0 ∷ 0 ∷ 0 ∷ 0 ∷ 0 ∷ 0x90 ∷ 0xC3 ∷ [])

-- The bytes of `file` from 4096 on.
stands : (file : List ℕ) (i : ℕ) → (holding file).memory (4096 + i) ≡ get_or file i 0
stands file i = rw (lem i) refl
  where
    lem : (i : ℕ) → 4096 + i - 4096 ≡ i
    lem i = omega arith

vef_pack-vef_exec_example :
    Refuses scan screen 0x9000
      (holding packed)
      4096
      (vef_exec scan screen 0x9000 (holding packed) 4096 (length packed))
unfolding vef_pack pack_file arch_id same_string header little_endian
vef_pack-vef_exec_example =
    vef_pack-vef_exec scan screen 0x9000 (holding packed) 4096 host (codes "a.bin") (codes "a.vef")
      packed refl (λ i lt. stands packed i) (omega arith) (omega arith) (λ m a n e. refl)
      (λ m a. refl)
