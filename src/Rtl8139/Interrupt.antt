-- ===== src/Rtl8139/Interrupt.antt =====
-- src/rtl8139.rs: the interrupt handler, which counts the transmit buffers that are free again.
use sprocket.Base.{
  ℕ, zero, suc, ◌+◌, ◌*◌, ◌/◌, ◌%◌, ◌^◌, ◌<◌, ◌≡◌, refl, ap, ◌∙◌, arith, done, Cmd, ◌>>◌, bind_done,
  then_done, true, false, ◌&&◌, ◌==◌, ltb, if◌then◌else◌, bit_and, bit_or, bit, bit_and_low,
  bit_and_high, bit_and-zero, u16, Bool-cases, inl, inr, max,
}
use sprocket.Port.{Io}
use sprocket.Rtl8139.{Rtl8139, tsd, get_isr, clear_isr, reclaim, interrupt}
use sprocket.Rtl8139.Registers.{contains, own, tok, isr_reg}
use sprocket.Rtl8139.Descriptors.{Card, contains-tok, tsd_lem}

-- The free buffers after an interrupt, where the current descriptor is `desc`.
abbrev pub reclaimed : (desc free : ℕ) → ℕ
reclaimed desc free = if (bit desc 13 == 1) && (bit desc 15 == 1) then max 4 free else free

module _ {S : Type 0} (io : Io S) where
  reclaim-stop :
      (n : ℕ) (r : Rtl8139) (desc : ℕ) (s s1 : S)
      → tsd io r r.tx_offset s ≡ done desc s1
      → (contains desc (bit_or tok own) && ltb r.free_tx_buffers 4) ≡ false
      → reclaim io (suc n) r s ≡ done r s1
  unfolding reclaim
  reclaim-stop n r desc s s1 run stop = bind_done (tsd io r r.tx_offset) _ run (rw stop refl)

  reclaim-next :
      (n : ℕ) (r : Rtl8139) (desc : ℕ) (s s1 : S)
      → tsd io r r.tx_offset s ≡ done desc s1
      → (contains desc (bit_or tok own) && ltb r.free_tx_buffers 4) ≡ true
      → reclaim io (suc n) r s
        ≡ reclaim io n (record r { free_tx_buffers = r.free_tx_buffers + 1 }) s1
  unfolding reclaim
  reclaim-next n r desc s s1 run go = bind_done (tsd io r r.tx_offset) _ run (rw go refl)

  reclaim_lem :
      (n : ℕ) (r : Rtl8139) (card : Card io r.iobase) (s : S)
      → r.tx_offset < 4
      → 0 < n
      → 4 < n + r.free_tx_buffers
      → (s' : S) × (reclaim io n r s
          ≡ done
              (record r {
                free_tx_buffers = reclaimed (card.descriptor s r.tx_offset) r.free_tx_buffers;
              })
              s')
        × ((j : ℕ) → card.descriptor s' j ≡ card.descriptor s j)
        × (card.status s' ≡ card.status s)
  reclaim_lem zero r card s h running enough = absurd (omega arith)
  reclaim_lem (suc n) r card s h running enough =
      let free = r.free_tx_buffers in
      let desc = card.descriptor s r.tx_offset in
      let (s1, run1, same1, st1) = tsd_lem io r card r.tx_offset s h in
      elim (Bool-cases (contains desc (bit_or tok own) && ltb free 4)) [
        | inl go ↦
            let (s2, run2, same2, st2) =
              reclaim_lem n (record r { free_tx_buffers = free + 1 }) card s1 h (ground arith)
                (omega arith) in
            let count : reclaimed (card.descriptor s1 r.tx_offset) (free + 1)
                ≡ reclaimed desc free =
              ground (arith, contains-tok desc, same1 r.tx_offset) in
            (
              s2,
              reclaim-next n r desc s s1 run1 go
                  ∙ run2
                  ∙ ap (λ k. done (record r { free_tx_buffers = k }) s2) count,
              λ j. same2 j ∙ same1 j,
              st2 ∙ st1,
            )
        | inr stop ↦
            let count : free ≡ reclaimed desc free = ground (arith, contains-tok desc) in
            (
              s1,
              reclaim-stop n r desc s s1 run1 stop
                  ∙ ap (λ k. done (record r { free_tx_buffers = k }) s1) count,
              same1,
              st1,
            )
      ]

  get_isr_lem :
      (r : Rtl8139) (card : Card io r.iobase) (s : S)
      → card.status s / 2 ^ 7 % 2 ^ 6 ≡ 0
      → (s' : S) × (get_isr io r s ≡ done (card.status s) s')
        × ((j : ℕ) → card.descriptor s' j ≡ card.descriptor s j)
  unfolding get_isr
  get_isr_lem r card s reserved =
      let st = card.status s in
      let e : bit_and st (63 * 2 ^ 7) ≡ 0 =
        omega (arith, bit_and_high 7 st 63, bit_and_low 6 (st / 2 ^ 7), reserved) in
      (
        (io.in_word (u16 (r.iobase + isr_reg)) s).1,
        rw (card.status_reads s, e) refl,
        λ j. card.status_read_keeps s j,
      )

  -- Where no reserved bit of the interrupt status is set, the handler ends, on every count of free
  -- buffers, with all interrupts acknowledged. If the current descriptor is finished, which is its
  -- flags `TOK` and `OWN`, all four transmit buffers become free, whatever the state of the other
  -- three descriptors; else the count stays. The descriptors do not change.
  pub interrupt_lem :
      (r : Rtl8139) (card : Card io r.iobase) (s : S)
      → r.tx_offset < 4
      → card.status s / 2 ^ 7 % 2 ^ 6 ≡ 0
      → let desc = card.descriptor s r.tx_offset in
        let finished = (bit desc 13 == 1) && (bit desc 15 == 1) in
        (s' : S) × (interrupt io r s
          ≡ done
              (record r {
                free_tx_buffers = if finished then max 4 r.free_tx_buffers else r.free_tx_buffers;
              })
              s')
        × (card.status s' ≡ 0)
        × ((j : ℕ) → card.descriptor s' j ≡ card.descriptor s j)
  unfolding interrupt clear_isr
  interrupt_lem r card s h reserved =
      let (s1, run1, same1) = get_isr_lem r card s reserved in
      let s2 = io.out_word (u16 (r.iobase + isr_reg)) 0xffff s1 in
      let same : (j : ℕ) → card.descriptor s2 j ≡ card.descriptor s j =
        λ j. card.status_clear_keeps s1 0xffff j ∙ same1 j in
      let (s3, run3, same3, st3) = reclaim_lem 5 r card s2 h (omega arith) (omega arith) in
      let rest : Cmd S Rtl8139 = clear_isr io r >> reclaim io 5 r in
      (
        s3,
        then_done (get_isr io r) rest run1 (
            run3
            ∙ ap (λ d. done (record r { free_tx_buffers = reclaimed d r.free_tx_buffers }) s3)
                (same r.tx_offset)),
        st3 ∙ card.status_clears s1 0xffff ∙ bit_and-zero (card.status s1),
        λ j. same3 j ∙ same j,
      )
