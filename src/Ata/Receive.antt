-- ===== src/Ata/Receive.antt =====
-- What drivers/ata.c takes from the disk.
use valiant_core.Base.{
  ℕ, zero, suc, ◌+◌, ◌*◌, ◌≤◌, ◌<◌, ◌≡◌, refl, sym, ap, subst, ◌∙◌, ◌⊎◌, inl, inr, true, false,
  arith, Bool, List, [], ◌∷◌, ◌++◌, ++-[], ++_assoc, ◌==◌, if◌then◌else◌, u16, update, update_self,
  update_ne, for_range, for_range_inv,
}
use valiant_core.Ports.{History, Hardware, out8, in8, out16, in16, out32, in32}
use valiant_core.Ata.Status.{
  polls, Waited, TimedOut, ata_status_wait_cases, Sectors, no_sector, a_sector, Sectors-all,
}
use valiant_core.Ata.{
  ata_io_wait, ata_status_wait, send_command, read_word, read_sectors, ata_read_250gb,
}
use valiant_core.Ata.Transfer.{words, sent, sent_lba, sent_count, send_command-sent}

-- The words that the data port has yielded, in the order of time.
unfoldable pub received : Hardware → History → List ℕ
received hw [] = []
received hw (in16 port ∷ h) =
    let before = received hw h in
    if port == 0x1F0 then before ++ (u16 (hw (in16 port ∷ h)) ∷ []) else before
received hw (out8 port v ∷ h) = received hw h
received hw (in8 port ∷ h) = received hw h
received hw (out16 port v ∷ h) = received hw h
received hw (out32 port v ∷ h) = received hw h
received hw (in32 port ∷ h) = received hw h

words_ext : (f g : ℕ → ℕ) (n : ℕ) → ((j : ℕ) → j < n → f j ≡ g j) → words f n ≡ words g n
unfolding words
words_ext f g zero same = refl
words_ext f g (suc n) same =
    ap (λ l. l ++ (u16 (f n) ∷ [])) (words_ext f g n (λ j lt. same j (omega arith)))
    ∙ ap (λ t. words g n ++ (u16 t ∷ [])) (same n (omega arith))

-- A word more.
words-update :
    (f : ℕ → ℕ) (n a : ℕ) → a < 65536 → words (update f n a) (suc n) ≡ words f n ++ (a ∷ [])
unfolding words
words-update f n a lt =
    let last : u16 (update f n a n) ≡ a = omega (arith, update_self f n a) in
    ap (λ l. l ++ (u16 (update f n a n) ∷ []))
      (words_ext (update f n a) f n (λ j below. update_ne f n a j (λ e. omega (arith, e))))
    ∙ ap (λ t. words f n ++ (t ∷ [])) last

module _ (hw : Hardware) where
  module _ (old : List ℕ) (first : ℕ → ℕ) where
    -- `n` words have been received and stand in the buffer, which is as before from `n` on.
    abbrev Holds : ℕ → (ℕ → ℕ) × History → Type 0
    Holds n s = (received hw s.1 ≡ old ++ words s.0 n) × ((j : ℕ) → n ≤ j → s.0 j ≡ first j)

    read_word-Holds :
        (s i : ℕ) (b : (ℕ → ℕ) × History)
        → Holds (s * 256 + i) b
        → Holds (s * 256 + suc i) (read_word hw s i b)
    unfolding read_word received
    read_word-Holds s i (buffer, h) (got, rest) =
        let n = s * 256 + i in
        let v = u16 (hw (in16 0x1F0 ∷ h)) in
        let next : suc n ≡ s * 256 + suc i = omega arith in
        (
          ap (λ l. l ++ (v ∷ [])) got
              ∙ ++_assoc old (words buffer n) (v ∷ [])
              ∙ ap (λ l. old ++ l) (sym (words-update buffer n v (omega arith)))
              ∙ ap (λ t. old ++ words (update buffer n v) t) next,
          λ j le. update_ne buffer n v j (λ e. omega (arith, e)) ∙ rest j (omega arith),
        )

    sector-Holds :
        (s : ℕ) (b : (ℕ → ℕ) × History)
        → Holds (s * 256) b
        → Holds (suc s * 256) (for_range 256 0 (read_word hw s) b)
    sector-Holds s b holds =
        let start : s * 256 ≡ s * 256 + 0 = omega arith in
        let end : s * 256 + 256 ≡ suc s * 256 = omega arith in
        subst (λ (n : ℕ). Holds n (for_range 256 0 (read_word hw s) b)) end
          (for_range_inv (λ k c. Holds (s * 256 + k) c) (read_word hw s) 256 0 256 b refl
            (λ k c lt d. read_word-Holds s k c d) (subst (λ (n : ℕ). Holds n b) start holds))

send_command-received :
    (hw : Hardware) (command lba count : ℕ) (h : History)
    → received hw (send_command command lba count h) ≡ received hw h
unfolding send_command received ata_io_wait
send_command-received hw command lba count h = refl

-- The words of the sector `s`, after the wait that has led to `h`.
abbrev pub read_sector : Hardware → ℕ → (ℕ → ℕ) × History → History → (ℕ → ℕ) × History
read_sector hw s b h = for_range 256 0 (read_word hw s) (b.0, h)

-- Sectors stored in the buffer, from the number `s` on.
abbrev pub Stored : Hardware → ℕ → ℕ → (ℕ → ℕ) × History → (ℕ → ℕ) × History → Type 0
Stored hw = Sectors hw (λ b. b.1) (read_sector hw)

-- All `n` sectors from `s` on have been stored, or `k` of them and then the disk was not ready in time.
abbrev Ends : Hardware → ℕ → ℕ → (ℕ → ℕ) × History → Bool × (ℕ → ℕ) × History → Type 0
Ends hw n s b r =
    (k : ℕ) × (b' : (ℕ → ℕ) × History) × Stored hw s k b b'
    × (r.1 ≡ b'.0)
    × (((k ≡ n) × (r.0 ≡ true) × (r.2 ≡ b'.1))
        ⊎ ((k < n) × (r.0 ≡ false) × TimedOut hw 10000 b'.1 r.2))

read_sectors-Ends :
    (hw : Hardware) (n s : ℕ) (buffer : ℕ → ℕ) (h : History)
    → Ends hw n s (buffer, h) (read_sectors hw n s buffer h)
unfolding read_sectors
read_sectors-Ends hw zero s buffer h =
    (0, (buffer, h), no_sector s (buffer, h), refl, inl (refl, refl, refl))
read_sectors-Ends hw (suc n) s buffer h = elim (ata_status_wait_cases hw 10000 h) [
  | inr (timeout, out) ↦
      rw (timeout, read_sectors)
        (0, (buffer, h), no_sector s (buffer, h), refl, inr (omega arith, refl, out))
  | inl (ready, waited) ↦
      let h1 = (ata_status_wait hw 0x08 10000 h).1 in
      let b = read_sector hw s (buffer, h) h1 in
      let (k, b', run, same, end) = read_sectors-Ends hw n (suc s) b.0 b.1 in
      rw (ready, read_sectors)
        (
          suc k,
          b',
          a_sector s k (buffer, h) b' h1 waited run,
          same,
          elim end [
            | inl (all, ok, e) ↦ inl (omega arith, ok, e)
            | inr (few, failed, out) ↦ inr (omega arith, failed, out)
          ],
        )
]

polls-received : (hw : Hardware) (j : ℕ) (h : History) → received hw (polls j h) ≡ received hw h
unfolding polls received
polls-received hw zero h = refl
polls-received hw (suc j) h =
    polls-received hw j (in8 0x3F6 ∷ in8 0x3F6 ∷ in8 0x3F6 ∷ in8 0x3F6 ∷ in8 0x1F7 ∷ h)

Waited-received :
    (hw : Hardware) (timeout : ℕ) (h h' : History)
    → Waited hw timeout h h'
    → received hw h' ≡ received hw h
unfolding received
Waited-received hw timeout h h' (j, lt, before, now, e) = ap (received hw) e ∙ polls-received hw j h

Stored-Holds :
    (hw : Hardware) (old : List ℕ) (first : ℕ → ℕ) (k : ℕ) (b b' : (ℕ → ℕ) × History)
    → Stored hw 0 k b b'
    → Holds hw old first 0 b
    → Holds hw old first (k * 256) b'
Stored-Holds hw old first k b b' run =
    Sectors-all (λ s x. Holds hw old first (s * 256) x)
      (λ s x h w holds.
        sector-Holds hw old first s (x.0, h) (Waited-received hw 10000 x.1 h w ∙ holds.0, holds.1))
      k b b' run

-- A read first latches its address, its count and its command in the registers of the disk and takes
-- no word. Then it stores `k` whole sectors in the buffer, from its start and in order, the words that
-- the disk yields, each sector after the first of at most 10000 reads of the status that shows DRQ. It
-- returns 0 exactly with all `count` sectors stored, and -1 exactly with fewer, where 10000 reads of the
-- status have not shown DRQ. It changes nothing behind the sectors, and always returns.
pub ata_read_250gb-received :
    (hw : Hardware) (lba count : ℕ) (buffer : ℕ → ℕ) (h : History)
    → lba < 281474976710656
    → count < 65536
    → (start : History) × (k : ℕ) × (b : (ℕ → ℕ) × History) × (sent_lba start ≡ lba)
      × (sent_count start ≡ count)
      × (sent 0 0x1F7 start ≡ 0x24)
      × (received hw start ≡ received hw h)
      × Stored hw 0 k (buffer, start) b
      × (received hw (ata_read_250gb hw lba count buffer h).2
          ≡ received hw h ++ words (ata_read_250gb hw lba count buffer h).1 (k * 256))
      × ((j : ℕ) → k * 256 ≤ j → (ata_read_250gb hw lba count buffer h).1 j ≡ buffer j)
      × (((k ≡ count) × ((ata_read_250gb hw lba count buffer h).0 ≡ true))
          ⊎ ((k < count)
              × ((ata_read_250gb hw lba count buffer h).0 ≡ false)
              × TimedOut hw 10000 b.1 (ata_read_250gb hw lba count buffer h).2))
unfolding ata_read_250gb words
ata_read_250gb-received hw lba count buffer h l c =
    let start = send_command 0x24 lba count h in
    let none_yet = send_command-received hw 0x24 lba count h in
    let (at, number, command, same) = send_command-sent 0x24 lba count h l c (omega arith) in
    let (k, b, run, kept, end) = read_sectors-Ends hw count 0 buffer start in
    let r = read_sectors hw count 0 buffer start in
    let (got, rest) =
      Stored-Holds hw (received hw h) buffer k (buffer, start) b run
        (none_yet ∙ sym (++-[] (received hw h)), λ j le. refl) in
    let words_kept : words b.0 (k * 256) ≡ words r.1 (k * 256) =
      ap (λ f. words f (k * 256)) (sym kept) in
    let taken : received hw r.2 ≡ received hw b.1 = elim end [
      | inl (all, ok, e) ↦ ap (received hw) e
      | inr (few, failed, out) ↦ ap (received hw) out.1 ∙ polls-received hw 10000 b.1
    ] in
    (
      start,
      k,
      b,
      at,
      number,
      command,
      none_yet,
      run,
      taken ∙ got ∙ ap (λ l. received hw h ++ l) words_kept,
      (λ j le. ap (λ f. f j) kept ∙ rest j le),
      elim end [
        | inl (all, ok, e) ↦ inl (all, ok)
        | inr (few, failed, out) ↦ inr (few, failed, out)
      ],
    )
