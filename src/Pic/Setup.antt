-- ===== src/Pic/Setup.antt =====
-- The functions of arch/x86/i8259.c on the command ports, over Ports. `outb(0x80, 0)` is a pause. Of the
-- two reads in one expression of `pic_get_reg` the left one is made first.
use valiant_core.Base.{ℕ, ◌*◌, ◌≡◌, refl, List, [], ◌∷◌, ltb, ◌==◌, if◌then◌else◌, u8, bit_or}
use valiant_core.Ports.{History, Hardware, out8, in8, out16, in16, out32, in32, outb, inb}

abbrev pub pause : History → History
pause h = outb 0x80 0 h

unfoldable pub pic_init : Hardware → History → History
pic_init hw h =
    let (mask1, h1) = inb hw 0x21 h in
    let (mask2, h2) = inb hw 0xA1 h1 in
    let started = pause (outb 0xA0 0x11 (pause (outb 0x20 0x11 h2))) in
    let moved = outb 0xA1 0x28 (pause (outb 0x21 0x20 started)) in
    let joined = pause (outb 0xA1 0x02 (pause (outb 0x21 0x04 moved))) in
    let in_mode = pause (outb 0xA1 0x01 (pause (outb 0x21 0x01 joined))) in
    outb 0xA1 mask2 (outb 0x21 mask1 in_mode)

unfoldable pub pic_send_eoi : ℕ → History → History
pic_send_eoi irq h = outb 0x20 0x20 (if ltb irq 8 then h else outb 0xA0 0x20 h)

unfoldable pub pic_get_reg : Hardware → ℕ → History → ℕ × History
pic_get_reg hw ocw3 h =
    let (high, h1) = inb hw 0xA0 (outb 0xA0 ocw3 (outb 0x20 ocw3 h)) in
    let (low, h2) = inb hw 0x20 h1 in (bit_or (high * 256) low, h2)

unfoldable pub pic_get_irr : Hardware → History → ℕ × History
pic_get_irr hw h = pic_get_reg hw 0x0A h

unfoldable pub pic_get_isr : Hardware → History → ℕ × History
pic_get_isr hw h = pic_get_reg hw 0x0B h

unfoldable pub pic_disable : History → History
pic_disable h = outb 0x21 0xFF (outb 0xA1 0xFF h)

-- The bytes written to a port, the last one first.
unfoldable pub bytes_to : ℕ → History → List ℕ
bytes_to port [] = []
bytes_to port (out8 p v ∷ h) =
    let before = bytes_to port h in if p == port then v ∷ before else before
bytes_to port (in8 p ∷ h) = bytes_to port h
bytes_to port (out16 p v ∷ h) = bytes_to port h
bytes_to port (in16 p ∷ h) = bytes_to port h
bytes_to port (out32 p v ∷ h) = bytes_to port h
bytes_to port (in32 p ∷ h) = bytes_to port h

-- `pic_init` sends each controller one word on its command port and three on its data port, with the
-- first vectors 0x20 and 0x28, and then the mask that the data port had yielded before.
pic_init_words :
    (hw : Hardware)
    → (bytes_to 0x20 (pic_init hw []) ≡ 0x11 ∷ [])
      × (bytes_to 0xA0 (pic_init hw []) ≡ 0x11 ∷ [])
      × (bytes_to 0x21 (pic_init hw []) ≡ u8 (u8 (hw (in8 0x21 ∷ []))) ∷ 0x01 ∷ 0x04 ∷ 0x20 ∷ [])
      × (bytes_to 0xA1 (pic_init hw [])
          ≡ u8 (u8 (hw (in8 0xA1 ∷ in8 0x21 ∷ []))) ∷ 0x01 ∷ 0x02 ∷ 0x28 ∷ [])
unfolding pic_init bytes_to
pic_init_words hw = (refl, refl, refl, refl)
