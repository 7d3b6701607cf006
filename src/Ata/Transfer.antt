-- ===== src/Ata/Transfer.antt =====
-- What drivers/ata.c sends to the disk.
use valiant_core.Base.{
  ℕ, zero, suc, ◌+◌, ◌*◌, ◌<◌, ◌≡◌, refl, sym, ap, ◌∙◌, ◌⊎◌, inl, inr, arith, Bool, true, false,
  Bool-cases, List, [], ◌∷◌, ◌++◌, ++-[], ++_assoc, ◌==◌, if◌then◌else◌, u8, u16, for_range,
  for_range_inv,
}
use valiant_core.Ports.{History, Hardware, out8, in8, out16, in16, out32, in32, outw}
use valiant_core.Ata.Status.{
  polls, Waited, TimedOut, ata_status_wait_cases, Sectors, no_sector, a_sector, Sectors-all,
}
use valiant_core.Ata.{
  ata_io_wait, is_ready, ata_status_wait, send_command, write_sectors, ata_write_250gb,
}

-- The words written to the data port, in the order of time.
unfoldable pub written : History → List ℕ
written [] = []
written (out16 port v ∷ h) =
    let before = written h in if port == 0x1F0 then before ++ (v ∷ []) else before
written (out8 port v ∷ h) = written h
written (in8 port ∷ h) = written h
written (in16 port ∷ h) = written h
written (out32 port v ∷ h) = written h
written (in32 port ∷ h) = written h

-- The first `n` words of a buffer.
unfoldable pub words : (ℕ → ℕ) → ℕ → List ℕ
words buffer zero = []
words buffer (suc n) = words buffer n ++ (u16 (buffer n) ∷ [])

-- The `k`-th last byte written to a port.
unfoldable pub sent : ℕ → ℕ → History → ℕ
sent k port [] = 0
sent zero port (out8 p v ∷ h) = let before = sent zero port h in if p == port then v else before
sent (suc k) port (out8 p v ∷ h) =
    let before = sent k port h in
    let same = sent (suc k) port h in if p == port then before else same
sent k port (_ ∷ h) = sent k port h

-- The address and the count that a disk with two-byte registers takes from the history.
abbrev pub sent_lba : History → ℕ
sent_lba h =
    sent 0 0x1F3 h
    + sent 0 0x1F4 h * 256
    + sent 0 0x1F5 h * 65536
    + sent 1 0x1F3 h * 16777216
    + sent 1 0x1F4 h * 4294967296
    + sent 1 0x1F5 h * 1099511627776

abbrev pub sent_count : History → ℕ
sent_count h = sent 0 0x1F2 h + sent 1 0x1F2 h * 256

pub send_command-sent :
    (command lba count : ℕ) (h : History)
    → lba < 281474976710656
    → count < 65536
    → command < 256
    → (sent_lba (send_command command lba count h) ≡ lba)
      × (sent_count (send_command command lba count h) ≡ count)
      × (sent 0 0x1F7 (send_command command lba count h) ≡ command)
      × (written (send_command command lba count h) ≡ written h)
unfolding send_command sent written ata_io_wait
send_command-sent command lba count h l c small = (omega arith, omega arith, omega arith, refl)

wait-written :
    (hw : Hardware) (bit timeout : ℕ) (h : History)
    → written (ata_status_wait hw bit timeout h).1 ≡ written h
unfolding ata_status_wait ata_io_wait written
wait-written hw bit zero h = refl
wait-written hw bit (suc timeout) h = elim (Bool-cases (is_ready bit (u8 (hw (in8 0x1F7 ∷ h))))) [
  | inl ready ↦ rw (ready, ata_status_wait) refl
  | inr busy ↦
      rw (busy, ata_status_wait) (wait-written hw bit timeout (ata_io_wait (in8 0x1F7 ∷ h)))
]

written_flush : (h : History) → written (out8 0x1F7 0xE7 ∷ h) ≡ written h
unfolding written
written_flush h = refl

polls-written : (j : ℕ) (h : History) → written (polls j h) ≡ written h
unfolding polls written
polls-written zero h = refl
polls-written (suc j) h =
    polls-written j (in8 0x3F6 ∷ in8 0x3F6 ∷ in8 0x3F6 ∷ in8 0x3F6 ∷ in8 0x1F7 ∷ h)

Waited-written :
    (hw : Hardware) (timeout : ℕ) (h h' : History) → Waited hw timeout h h' → written h' ≡ written h
unfolding written
Waited-written hw timeout h h' (j, lt, before, now, e) = ap written e ∙ polls-written j h

-- One sector.
sector-written :
    (buffer : ℕ → ℕ) (old : List ℕ) (s : ℕ) (h : History)
    → written h ≡ old ++ words buffer (s * 256)
    → written (for_range 256 0 (λ i. outw 0x1F0 (buffer (s * 256 + i))) h)
      ≡ old ++ words buffer (suc s * 256)
unfolding written words
sector-written buffer old s h e =
    for_range_inv (λ k t. written t ≡ old ++ words buffer (s * 256 + k))
      (λ i. outw 0x1F0 (buffer (s * 256 + i))) 256 0 256 h refl
      (λ k t lt done.
        ap (λ l. l ++ (u16 (buffer (s * 256 + k)) ∷ [])) done
        ∙ ++_assoc old (words buffer (s * 256 + k)) (u16 (buffer (s * 256 + k)) ∷ [])
        ∙ ap (λ n. old ++ words buffer n) (next s k))
      (e ∙ ap (λ n. old ++ words buffer n) (start s))
    ∙ ap (λ n. old ++ words buffer n) (end s)
  where
    next : (s k : ℕ) → suc (s * 256 + k) ≡ s * 256 + suc k
    next s k = omega arith

    start : (s : ℕ) → s * 256 ≡ s * 256 + 0
    start s = omega arith

    end : (s : ℕ) → s * 256 + 256 ≡ suc s * 256
    end s = omega arith

-- The words of the sector `s`, after the wait that has led to `h`.
abbrev pub write_sector : (ℕ → ℕ) → ℕ → History → History → History
write_sector buffer s before h = for_range 256 0 (λ i. outw 0x1F0 (buffer (s * 256 + i))) h

-- Sectors of the buffer, from the number `s` on.
abbrev pub Written : Hardware → (ℕ → ℕ) → ℕ → ℕ → History → History → Type 0
Written hw buffer = Sectors hw (λ h. h) (write_sector buffer)

-- All `n` sectors from `s` on have been sent, or `k` of them and then the disk was not ready in time.
abbrev Ends : Hardware → (ℕ → ℕ) → ℕ → ℕ → History → Bool × History → Type 0
Ends hw buffer n s h r =
    (k : ℕ) × (h' : History) × Written hw buffer s k h h'
    × (((k ≡ n) × (r.0 ≡ true) × (r.1 ≡ h')) ⊎ ((k < n) × (r.0 ≡ false) × TimedOut hw 10000 h' r.1))

write_sectors-Ends :
    (hw : Hardware) (buffer : ℕ → ℕ) (n s : ℕ) (h : History)
    → Ends hw buffer n s h (write_sectors hw n s buffer h)
unfolding write_sectors
write_sectors-Ends hw buffer zero s h = (0, h, no_sector s h, inl (refl, refl, refl))
write_sectors-Ends hw buffer (suc n) s h = elim (ata_status_wait_cases hw 10000 h) [
  | inr (timeout, out) ↦
      rw (timeout, write_sectors) (0, h, no_sector s h, inr (omega arith, refl, out))
  | inl (ready, waited) ↦
      let h1 = (ata_status_wait hw 0x08 10000 h).1 in
      let (k, h', run, end) = write_sectors-Ends hw buffer n (suc s) (write_sector buffer s h h1) in
      rw (ready, write_sectors)
        (
          suc k,
          h',
          a_sector s k h h' h1 waited run,
          elim end [
            | inl (all, ok, e) ↦ inl (omega arith, ok, e)
            | inr (few, failed, out) ↦ inr (omega arith, failed, out)
          ],
        )
]

Written-written :
    (hw : Hardware) (buffer : ℕ → ℕ) (old : List ℕ) (k : ℕ) (h h' : History)
    → Written hw buffer 0 k h h'
    → written h ≡ old
    → written h' ≡ old ++ words buffer (k * 256)
unfolding words
Written-written hw buffer old k h h' run e =
    Sectors-all (λ s t. written t ≡ old ++ words buffer (s * 256))
      (λ s x t w done. sector-written buffer old s t (Waited-written hw 10000 x t w ∙ done)) k h h'
      run (e ∙ sym (++-[] old))

-- A write first latches its address, its count and its command in the registers of the disk and sends
-- no word. Then it sends `k` whole sectors of the buffer's words, in order, each after the first of at
-- most 10000 reads of the status that shows DRQ. It returns 0 exactly with all `count` sectors sent, and
-- -1 exactly with fewer, where 10000 reads of the status have not shown DRQ. It always returns.
pub ata_write_250gb-Sends :
    (hw : Hardware) (lba count : ℕ) (buffer : ℕ → ℕ) (h : History)
    → lba < 281474976710656
    → count < 65536
    → (start : History) × (k : ℕ) × (h' : History) × (sent_lba start ≡ lba)
      × (sent_count start ≡ count)
      × (sent 0 0x1F7 start ≡ 0x34)
      × (written start ≡ written h)
      × Written hw buffer 0 k start h'
      × (written (ata_write_250gb hw lba count buffer h).1 ≡ written h ++ words buffer (k * 256))
      × (((k ≡ count) × ((ata_write_250gb hw lba count buffer h).0 ≡ true))
          ⊎ ((k < count)
              × ((ata_write_250gb hw lba count buffer h).0 ≡ false)
              × TimedOut hw 10000 h' (ata_write_250gb hw lba count buffer h).1))
unfolding ata_write_250gb
ata_write_250gb-Sends hw lba count buffer h l c =
    let start = send_command 0x34 lba count h in
    let (at, number, command, same) = send_command-sent 0x34 lba count h l c (omega arith) in
    let (k, h', run, end) = write_sectors-Ends hw buffer count 0 start in
    let all_sent = Written-written hw buffer (written h) k start h' run same in
    elim end [
      | inl (all, ok, e) ↦ rw ok (
        start,
        k,
        h',
        at,
        number,
        command,
        same,
        run,
        wait-written hw 0 100000 (out8 0x1F7 0xE7 ∷ (write_sectors hw count 0 buffer start).1)
            ∙ written_flush (write_sectors hw count 0 buffer start).1
            ∙ ap written e
            ∙ all_sent,
        inl (all, refl),
      )
      | inr (few, failed, out) ↦ rw failed (
        start,
        k,
        h',
        at,
        number,
        command,
        same,
        run,
        ap written out.1 ∙ polls-written 10000 h' ∙ all_sent,
        inr (few, refl, out),
      )
    ]
