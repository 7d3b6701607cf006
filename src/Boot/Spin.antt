-- ===== src/Boot/Spin.antt =====
-- The spinner of kernel/vcore_bootscreen.c over any number of turns.
use valiant_core.Base.{
  ℕ, zero, suc, ◌+◌, ◌-◌, ◌*◌, ◌%◌, ◌<◌, ◌≡◌, refl, ◌∙◌, arith, true, not, if_keep, if_cases,
  for_range_inv, ℤ,
}
use valiant_core.Framebuffer.{Fb, store, fb_but_pixel}
use valiant_core.Framebuffer.Bounds.{IsSafe, fb_but_pixel-IsSafe}
use valiant_core.Boot.{
  Boot, plot, draw_ray, draw_segment, draw_part, fill_near, draw_spinner, boot_screen_spin,
}

-- `n` calls of `boot_screen_spin`.
unfoldable pub spins : ℕ → Boot → Boot
spins zero b = b
spins (suc n) b = spins n (boot_screen_spin b)

-- What a pixel keeps, the spinner keeps.
module _ (P : Fb → Type 0)
    (keep : (color x y : ℕ) (s : Fb) → P s → P (fb_but_pixel color x y s)) where
  draw_ray-keep :
      (cx cy : ℤ) (r_out r_in color deg : ℕ) (s : Fb)
      → P s
      → P (draw_ray cx cy r_out r_in color deg s)
  unfolding draw_ray plot
  draw_ray-keep cx cy r_out r_in color deg s p =
      for_range_inv (λ k t. P t) _ (suc r_out - r_in) r_in (r_in + (suc r_out - r_in)) s refl
        (λ k t lt q. keep color _ _ t q) p

  draw_part-keep : (cx cy : ℤ) (offset i : ℕ) (s : Fb) → P s → P (draw_part cx cy offset i s)
  unfolding draw_part draw_segment
  draw_part-keep cx cy offset i s p =
      for_range_inv (λ k t. P t) _ _ _ _ s refl (λ k t lt q. draw_ray-keep cx cy 24 14 _ k t q) p

  fill_near-keep : (cx cy : ℤ) (r bound : ℕ) (s : Fb) → P s → P (fill_near cx cy r bound s)
  unfolding fill_near plot
  fill_near-keep cx cy r bound s p =
      for_range_inv (λ k t. P t) _ (2 * r + 1) 0 (0 + (2 * r + 1)) s refl
        (λ j t lt q.
          for_range_inv (λ k u. P u) _ (2 * r + 1) 0 (0 + (2 * r + 1)) t refl
            (λ i u lt2 q2. if_keep P _ (keep 0x0A0A14 _ _ u q2) q2) q)
        p

  draw_spinner-keep : (cx cy : ℤ) (offset : ℕ) (s : Fb) → P s → P (draw_spinner cx cy offset s)
  unfolding draw_spinner
  draw_spinner-keep cx cy offset s p = fill_near-keep cx cy 14 196 _ (
      for_range_inv (λ k t. P t) (draw_part cx cy offset) 12 0 12 s refl
        (λ k t lt q. draw_part-keep cx cy offset k t q) p)

-- A framebuffer in use, with every store on the screen.
abbrev pub IsUsed : Fb → Type 0
IsUsed s = IsSafe s × (s.fb_ready ≡ true)

fb_but_pixel-IsUsed : (color x y : ℕ) (s : Fb) → IsUsed s → IsUsed (fb_but_pixel color x y s)
unfolding fb_but_pixel store
fb_but_pixel-IsUsed color x y s (safe, on) =
    (fb_but_pixel-IsSafe color x y s safe, if_keep (λ (t : Fb). t.fb_ready ≡ true) _ on on)

abbrev pub Spins : ℕ → Boot → Boot → Type 0
Spins n b b' =
    IsUsed b'.fb
    × (b'.spinner_offset ≡ (b.spinner_offset + n * 30) % 360)
    × (b'.spinner_cx ≡ b.spinner_cx)
    × (b'.spinner_cy ≡ b.spinner_cy)

boot_screen_spin-Spins : (b : Boot) → IsUsed b.fb → Spins 1 b (boot_screen_spin b)
unfolding boot_screen_spin
boot_screen_spin-Spins b used =
    if_cases (λ b'. Spins 1 b b') (not b.fb.fb_ready)
      (λ e. let on : b.fb.fb_ready ≡ true = used.1 in absurd (ground arith))
      (λ e. (
        draw_spinner-keep IsUsed fb_but_pixel-IsUsed b.spinner_cx b.spinner_cy _ _
            (fill_near-keep IsUsed fb_but_pixel-IsUsed b.spinner_cx b.spinner_cy 26 677 b.fb used),
        refl,
        refl,
        refl,
      ))

-- Each turn of the spinner moves it by 30 degrees, leaves its middle, and stores on the screen only.
pub spins-Spins : (n : ℕ) (b : Boot) → b.spinner_offset < 360 → IsUsed b.fb → Spins n b (spins n b)
unfolding spins
spins-Spins zero b small used = (used, omega arith, refl, refl)
spins-Spins (suc n) b small used =
    let (used1, offset, cx, cy) = boot_screen_spin-Spins b used in
    let (used2, offset2, cx2, cy2) =
      spins-Spins n (boot_screen_spin b) (omega (arith, offset)) used1 in
    (used2, omega (arith, offset, offset2), cx2 ∙ cx, cy2 ∙ cy)
