-- ===== src/Framebuffer/Bounds.antt =====
-- The stores of drivers/framebuffer.c lie on the screen.
use native.Mathlib.Nat.{mul-le-mul_right, mul_comm, add-mul}
use valiant_core.Base.{
  ℕ, suc, ◌+◌, ◌*◌, ◌/◌, ◌≤◌, ◌<◌, ◌≡◌, refl, sym, ap, ◌∙◌, inl, inr, arith, not, Bool-cases,
  if_not_keep, ◌||◌, Option, some, List, [], ◌∷◌, leb, u32, for_range, for_range_inv, ℤ, pos, neg_ℤ,
  to_u32,
}
use valiant_core.Framebuffer.{
  Fb, store, fb_but_pixel, fill_row, fb_fill_rect, fb_clear, fb_draw_line, fb_draw_circle,
  fb_fill_circle,
}
use valiant_core.Framebuffer.Shapes.{distance}
use valiant_core.Framebuffer.Shapes.Ends.{Keeps, line_keep, circle_ends, disc_keep}

-- The rows are as long as their pixels, the pixels as long as a store, and the screen lies in memory.
abbrev pub IsMode : Fb → Type 0
IsMode s =
    (s.fb_width * (s.fb_bpp / 8) ≤ s.fb_pitch)
    × (4 ≤ s.fb_bpp / 8)
    × (s.fb_addr + s.fb_height * s.fb_pitch ≤ 4294967296)

abbrev pub IsInside : ℕ → ℕ → List (ℕ × ℕ) → Type 0
IsInside lo hi [] = Unit
IsInside lo hi ((a, color) ∷ stores) = (lo ≤ a) × (a + 4 ≤ hi) × IsInside lo hi stores

-- Every store so far lies on the screen.
abbrev pub IsSafe : Fb → Type 0
IsSafe s = IsMode s × IsInside s.fb_addr (s.fb_addr + s.fb_height * s.fb_pitch) s.stores

suc_mul : (a b : ℕ) → suc a * b ≡ a * b + b
suc_mul a b = omega arith

-- A pixel of the screen ends on it.
pixel_fits :
    (s : Fb) (x y : ℕ)
    → IsMode s
    → x < s.fb_width
    → y < s.fb_height
    → y * s.fb_pitch + x * (s.fb_bpp / 8) + 4 ≤ s.fb_height * s.fb_pitch
pixel_fits s x y (wide, deep, room) xlt ylt =
    let row : suc y * s.fb_pitch ≤ s.fb_height * s.fb_pitch = mul-le-mul_right s.fb_pitch ylt in
    let col : suc x * (s.fb_bpp / 8) ≤ s.fb_width * (s.fb_bpp / 8) =
      mul-le-mul_right (s.fb_bpp / 8) xlt in
    omega (arith, row, col, suc_mul y s.fb_pitch, suc_mul x (s.fb_bpp / 8))

store-IsSafe :
    (a color : ℕ) (s : Fb)
    → s.fb_addr ≤ a
    → a + 4 ≤ s.fb_addr + s.fb_height * s.fb_pitch
    → IsSafe s
    → IsSafe (store a color s)
unfolding store
store-IsSafe a color s lo hi (mode, inside) = (mode, (lo, hi, inside))

pub fb_but_pixel-IsSafe : (color x y : ℕ) (s : Fb) → IsSafe s → IsSafe (fb_but_pixel color x y s)
unfolding fb_but_pixel
fb_but_pixel-IsSafe color x y s safe =
    let test = not s.fb_ready || leb s.fb_width x || leb s.fb_height y in
    elim (Bool-cases test) [
      | inl out ↦ rw out safe
      | inr on ↦
          let fits = pixel_fits s x y safe.0 (ground arith) (ground arith) in
          rw on (
            store-IsSafe (u32 (s.fb_addr + u32 (y * s.fb_pitch + x * (s.fb_bpp / 8)))) color s
              (omega (arith, fits, safe.0.2)) (omega (arith, fits, safe.0.2)) safe)
    ]

-- The screen of `s`, with stores on it only.
abbrev OnScreen : Fb → Fb → Type 0
OnScreen s t =
    (t.fb_addr ≡ s.fb_addr)
    × (t.fb_pitch ≡ s.fb_pitch)
    × (t.fb_bpp ≡ s.fb_bpp)
    × (t.fb_width ≡ s.fb_width)
    × (t.fb_height ≡ s.fb_height)
    × IsInside s.fb_addr (s.fb_addr + s.fb_height * s.fb_pitch) t.stores

store-OnScreen :
    (a color : ℕ) (s t : Fb)
    → s.fb_addr ≤ a
    → a + 4 ≤ s.fb_addr + s.fb_height * s.fb_pitch
    → OnScreen s t
    → OnScreen s (store a color t)
unfolding store
store-OnScreen a color s t lo hi on = (on.0, on.1, on.2, on.3, on.4, (lo, hi, on.5))

-- The pixel `k` of a row from `x` on, where every pixel has 4 bytes at least.
row_fits :
    (s : Fb) (x y k : ℕ)
    → IsMode s
    → x + k < s.fb_width
    → y < s.fb_height
    → y * s.fb_pitch + x * (s.fb_bpp / 8) + 4 * k + 4 ≤ s.fb_height * s.fb_pitch
row_fits s x y k mode xlt ylt =
    let each : 4 * k ≤ s.fb_bpp / 8 * k = mul-le-mul_right k mode.1 in
    omega (
      arith,
      pixel_fits s (x + k) y mode xlt ylt,
      each,
      add-mul x k (s.fb_bpp / 8),
      mul_comm k (s.fb_bpp / 8),
    )

fill_row-OnScreen :
    (color x y w row : ℕ) (s r : Fb)
    → IsMode s
    → x + w ≤ s.fb_width
    → y + row < s.fb_height
    → OnScreen s r
    → OnScreen s (fill_row color x y w row r)
unfolding fill_row
fill_row-OnScreen color x y w row s r mode xle ylt on =
    let start : ℕ → ℕ → ℕ = λ p b. u32 (u32 (y + row) * p + x * (b / 8)) in
    let same : start r.fb_pitch r.fb_bpp ≡ start s.fb_pitch s.fb_bpp =
      ap (λ p. start p r.fb_bpp) on.1 ∙ ap (λ b. start s.fb_pitch b) on.2 in
    for_range_inv (λ k t. OnScreen s t) _ w 0 w r (omega arith)
      (λ k t lt ont.
        let fits = row_fits s x (u32 (y + row)) k mode (omega arith) (omega arith) in
        let at : u32 (r.fb_addr + start r.fb_pitch r.fb_bpp + 4 * k)
            ≡ s.fb_addr + start s.fb_pitch s.fb_bpp + 4 * k =
          omega (arith, on.0, same, fits, mode.2) in
        store-OnScreen (u32 (r.fb_addr + start r.fb_pitch r.fb_bpp + 4 * k)) color s t
          (omega (arith, at)) (omega (arith, at, fits)) ont)
      on

area_change :
    {lo hi lo' hi' : ℕ} (l : List (ℕ × ℕ))
    → lo ≡ lo'
    → hi ≡ hi'
    → IsInside lo hi l
    → IsInside lo' hi' l
area_change [] e f i = tt
area_change ((a, color) ∷ l) e f i =
    (omega (arith, e, i.0), omega (arith, f, i.1), area_change l e f i.2)

OnScreen-IsSafe : (s t : Fb) → IsMode s → OnScreen s t → IsSafe t
OnScreen-IsSafe s t mode on =
    let area : s.fb_height * s.fb_pitch ≡ t.fb_height * t.fb_pitch =
      ap (λ h. h * s.fb_pitch) (sym on.4) ∙ ap (λ p. t.fb_height * p) (sym on.1) in
    let width : s.fb_width * (s.fb_bpp / 8) ≡ t.fb_width * (t.fb_bpp / 8) =
      ap (λ w. w * (s.fb_bpp / 8)) (sym on.3) ∙ ap (λ b. t.fb_width * (b / 8)) (sym on.2) in
    (
      (
        omega (arith, width, mode.0, on.1),
        omega (arith, on.2, mode.1),
        omega (arith, area, on.0, mode.2),
      ),
      area_change t.stores (sym on.0) (omega (arith, on.0, area)) on.5,
    )

-- A rectangle that lies on the screen: `fb_fill_rect` does not clip it.
pub fb_fill_rect-IsSafe :
    (color x y w h : ℕ) (s : Fb)
    → x + w ≤ s.fb_width
    → y + h ≤ s.fb_height
    → IsSafe s
    → IsSafe (fb_fill_rect color x y w h s)
unfolding fb_fill_rect
fb_fill_rect-IsSafe color x y w h s xle yle safe =
    let filled : OnScreen s (for_range h 0 (fill_row color x y w) s) =
      for_range_inv (λ k t. OnScreen s t) (fill_row color x y w) h 0 h s (omega arith)
        (λ row t lt ont. fill_row-OnScreen color x y w row s t safe.0 xle (omega arith) ont)
        (refl, refl, refl, refl, refl, safe.1) in
    if_not_keep IsSafe s.fb_ready safe
      (OnScreen-IsSafe s (for_range h 0 (fill_row color x y w) s) safe.0 filled)

pub fb_clear-IsSafe : (color : ℕ) (s : Fb) → IsSafe s → IsSafe (fb_clear color s)
unfolding fb_clear
fb_clear-IsSafe color s safe =
    if_not_keep IsSafe s.fb_ready safe
      (fb_fill_rect-IsSafe color 0 0 s.fb_width s.fb_height s (omega arith) (omega arith) safe)

-- Where the mode fits memory, the stores of a pixel, of a cleared screen, of a disc and of a line lie
-- on the screen, whatever their coordinates; so do those of a circle, which ends: it takes at most two
-- rounds more than its radius.
pub fb_draw-IsSafe :
    (color x y rounds r : ℕ) (x0 y0 x1 y1 : ℤ) (s : Fb)
    → IsSafe s
    → IsSafe (fb_but_pixel color x y s)
      × IsSafe (fb_clear color s)
      × IsSafe (fb_fill_circle color x0 y0 x1 s)
      × Keeps IsSafe (fb_draw_line rounds color x0 y0 x1 y1 s)
      × ((t : Fb) × (fb_draw_circle (r + 2) color x0 y0 (pos r) s ≡ some t) × IsSafe t)
unfolding fb_fill_circle fb_draw_line fb_draw_circle
fb_draw-IsSafe color x y rounds r x0 y0 x1 y1 s safe =
    let plot = fb_but_pixel color in
    let keep = fb_but_pixel-IsSafe color in
    (
      keep x y s safe,
      fb_clear-IsSafe color s safe,
      if_not_keep IsSafe s.fb_ready safe (disc_keep plot IsSafe keep x0 y0 x1 s safe),
      if_not_keep (Keeps IsSafe) s.fb_ready safe (
          line_keep (λ x y. plot (to_u32 x) (to_u32 y)) IsSafe (λ x y. keep (to_u32 x) (to_u32 y))
            rounds (distance x1 x0) (neg_ℤ (distance y1 y0)) x0 y0 x1 y1 s safe),
      if_not_keep (λ (o : Option Fb). (t : Fb) × (o ≡ some t) × IsSafe t) s.fb_ready (s, refl, safe)
          (circle_ends plot IsSafe keep x0 y0 r s safe),
    )
