-- ===== src/Fat/Read/Loop.antt =====
-- The loop of `fat32_read` in fs/fat32/fat32.c reads the bytes of the file.
use valiant_core.Base.{
  ℕ, zero, suc, ◌+◌, ◌-◌, ◌≤◌, ◌≡◌, refl, ap, subst, ◌∙◌, inl, inr, arith, true, false, ◌&&◌,
  Bool-cases, Option, Option-cases, none, some, List, [], ltb, if◌then◌else◌,
}
use valiant_core.Fat.{Disk, Fat, File}
use valiant_core.Fat.Read.{slice, sector_at, byte_off, to_copy, prepend, advance, read_loop}
use valiant_core.Fat.Read.Content.{
  bytes_from, bytes_from-++, content, IsAt, to_copy-le, slice-content,
}
use valiant_core.Fat.Read.Advance.{IsReadable, Moved, advance-Moved}

-- The number of bytes that are left to read.
abbrev pub amount : File → ℕ → ℕ
amount f left = if ltb (f.file_size - f.pos) left then f.file_size - f.pos else left

module _ {D : Type 0} (io : Disk D) (s : Fat) (d : D) where
  -- `r` holds the bytes from `f.pos` on, and the file has moved behind them.
  pub record Reads (f : File) (left : ℕ) (r : File × Option (List ℕ)) : Type 0 where
    pub bytes : r.1 ≡ some (bytes_from (content io s d f.first_cluster) f.pos (amount f left))
    pub pos : r.0.pos ≡ f.pos + amount f left
    pub first : r.0.first_cluster ≡ f.first_cluster
    pub size : r.0.file_size ≡ f.file_size
    pub at : IsAt io s d r.0

  nothing-Reads :
      (f : File) (left : ℕ) → IsAt io s d f → amount f left ≡ 0 → Reads f left (f, some [])
  unfolding bytes_from
  nothing-Reads f left at e = record {
    bytes = rw e refl;
    pos = omega (arith, e);
    first = refl;
    size = refl;
    at = at;
  }

  last-Reads :
      (f : File) (left n : ℕ) (a : File) (bytes : List ℕ)
      → n ≤ left
      → n ≤ f.file_size - f.pos
      → Moved io s d f n (a, false)
      → bytes ≡ bytes_from (content io s d f.first_cluster) f.pos n
      → Reads f left (a, some bytes)
  last-Reads f left n a bytes le fits v e =
      let all : amount f left ≡ n = ground (arith, v.ended refl) in
      record {
        bytes = rw (all, e) refl;
        pos = rw all v.pos;
        first = v.first;
        size = v.size;
        at = v.at;
      }

  prepend-Reads :
      (f : File) (left n : ℕ) (a : File) (bytes : List ℕ) (r : File × Option (List ℕ))
      → n ≤ left
      → n ≤ f.file_size - f.pos
      → Moved io s d f n (a, true)
      → bytes ≡ bytes_from (content io s d f.first_cluster) f.pos n
      → Reads a (left - n) r
      → Reads f left (prepend bytes r)
  unfolding prepend
  prepend-Reads f left n a bytes (g, none) le fits v e w = absurd (none_some w.bytes)
    where
      none_some : {l : List ℕ} → ¬ (none ≡ some l)
      none_some e = cc
  prepend-Reads f left n a bytes (g, some more) le fits v e w =
      let k = amount a (left - n) in
      let total : n + k ≡ amount f left = ground (arith, v.pos, v.size) in
      let c = content io s d f.first_cluster in
      let rest : more ≡ bytes_from c (f.pos + n) k =
        Option-some w.bytes
        ∙ ap (λ i. bytes_from (content io s d i) a.pos k) v.first
        ∙ ap (λ p. bytes_from c p k) v.pos in
      record {
        bytes = ap some (rw (e, rest) (bytes_from-++ c f.pos n k ∙ ap (bytes_from c f.pos) total));
        pos = w.pos ∙ omega (arith, v.pos, total);
        first = w.first ∙ v.first;
        size = w.size ∙ v.size;
        at = w.at;
      }
    where
      Option-some : {x y : List ℕ} → some x ≡ some y → x ≡ y
      Option-some e = cc

  pub read_loop-Reads :
      (fuel : ℕ) (f : File) (left : ℕ)
      → left ≤ fuel
      → IsAt io s d f
      → IsReadable io s d f.first_cluster f.file_size
      → Reads f left (read_loop io s d fuel f left)
  unfolding read_loop
  read_loop-Reads zero f left le at ok = nothing-Reads f left at (ground arith)
  read_loop-Reads (suc fuel) f left le at ok =
      elim (Bool-cases (ltb 0 left && ltb f.pos f.file_size)) [
        | inr stop ↦ rw (stop, read_loop) (nothing-Reads f left at (ground (arith, at.within)))
        | inl go ↦ elim (Option-cases (io.read d (sector_at s f))) [
          | inl e ↦ absurd (ok.reads (sector_at s f) e)
          | inr (b, e) ↦
              let n = to_copy s f left in
              let c = to_copy-le io s d f left (ground arith) (ground arith) in
              let v = advance-Moved io s d f n at ok c.0 c.2 c.3 in
              let bytes = slice-content io s d f b n at ok.clusters c.3 e in
              rw (go, e, read_loop)
                (elim (Bool-cases (advance io s d f n).1) [
                  | inl more ↦
                      let a = (advance io s d f n).0 in
                      rw more (
                        prepend-Reads f left n a (slice b (byte_off s f) n)
                          (read_loop io s d fuel a (left - n)) c.1 c.2
                          (subst (λ t. Moved io s d f n (a, t)) more v) bytes
                          (read_loop-Reads fuel a (left - n) (omega (arith, c.0)) v.at
                            (rw (v.first, v.size) ok)))
                  | inr over ↦
                      let a = (advance io s d f n).0 in
                      rw over (
                        last-Reads f left n a (slice b (byte_off s f) n) c.1 c.2
                          (subst (λ t. Moved io s d f n (a, t)) over v) bytes)
                ])
        ]
      ]
