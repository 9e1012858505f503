-- ===== src/Rtl8139/Receive.antt =====
-- src/rtl8139.rs: receiving. The ring seen as a queue of frames.
use sprocket.Base.{
  ℕ, ◌+◌, ◌-◌, ◌*◌, ◌%◌, ◌≤◌, ◌≡◌, refl, ap, ◌∙◌, sym, arith, List, [], ◌∷◌, length, get_or, take,
  drop, Option, none, some, done, panic, Run, bind_done, Bool, true, false, ◌==◌, leb, le→leb,
  if◌then◌else◌, bit_and, bit_or, bit-bit_and, bit-bit_or, bit_and_low, u16, ◌<<<◌, Bool-cases, inl,
  inr, pure, ◌>>=◌,
}
use sprocket.Port.{Io}
use sprocket.Rtl8139.{Rtl8139, port, at, rx_empty, get_rx_hdr, get_rx_len, slice, read, update_capr}
use sprocket.Rtl8139.Registers.{
  cmd_reg, capr, contains, from_bits_truncate, command_reg_all, rx_buf_empty, rx_header_all, rx_ok,
}
use sprocket.Rtl8139.Device.{receive, drop_rx}
use sprocket.Rtl8139.Ring.{
  IsRing, frame_length, behind, at-get_or, get_rx_len_lem, update_capr_lem, moved-IsRing,
}

-- a flag at bit 0 under a mask that keeps bit 0
flag_0 :
    (bits mask : ℕ) → mask % 2 ≡ 1 → contains (from_bits_truncate mask bits) 1 ≡ (bits % 2 == 1)
flag_0 bits mask odd =
    let e : bit_and (bit_and bits mask) 1 ≡ bits % 2 =
      omega (arith, bit_and_low 1 (bit_and bits mask), bit-bit_and 0 bits mask) in
    rw e refl

module _ {S : Type 0} (io : Io S) where
  -- the value of the command register, and the state after it was read
  abbrev pub command : Rtl8139 → S → ℕ × S
  command r s = io.in_byte (port r cmd_reg) s

  -- Bit 0 of the header of the next frame: it came in without an error.
  abbrev pub header_ok : Rtl8139 → Bool
  header_ok r = get_or r.rx_buffer r.rx_offset 0 % 2 == 1

  get_rx_hdr_lem :
      (r : Rtl8139) (s : S)
      → IsRing r
      → (hdr : ℕ) × (get_rx_hdr io r s ≡ done hdr s) × (contains hdr rx_ok ≡ header_ok r)
  unfolding get_rx_hdr
  get_rx_hdr_lem r s ring =
      let b1 = get_or r.rx_buffer r.rx_offset 0 in
      let b2 = get_or r.rx_buffer (r.rx_offset + 1) 0 in
      let word = bit_or (u16 (b2 <<< 8)) b1 in
      let even : word % 2 ≡ b1 % 2 = omega (arith, bit-bit_or 0 (u16 (b2 <<< 8)) b1) in
      (
        from_bits_truncate rx_header_all word,
        bind_done (at r.rx_buffer r.rx_offset) _
            (at-get_or r.rx_buffer r.rx_offset 0 s (omega (arith, ring.size, ring.inside)))
            (bind_done (at r.rx_buffer (r.rx_offset + 1)) _
              (at-get_or r.rx_buffer (r.rx_offset + 1) 0 s (omega (arith, ring.size, ring.inside)))
              refl),
        flag_0 word rx_header_all refl ∙ ap (λ (t : ℕ). t == 1) even,
      )

  -- what `receive` gives where a frame has arrived
  abbrev pub delivered : Rtl8139 → S → Run S (Option (List ℕ))
  delivered r s =
      if leb (r.rx_offset + 4 + frame_length r) 9708
      then done (some (take (frame_length r) (drop (r.rx_offset + 4) r.rx_buffer))) s
      else panic

  slice_lem :
      (r : Rtl8139) (s : S)
      → IsRing r
      → (slice r.rx_buffer (r.rx_offset + 4) (frame_length r) >>= λ bytes. pure (some bytes)) s
        ≡ delivered r s
  slice_lem r s ring =
      rw ring.size (elim (Bool-cases (leb (r.rx_offset + 4 + frame_length r) 9708)) [
        | inl fits ↦ rw fits refl
        | inr over ↦ rw over refl
      ])

  -- On a ring of the driver's form, `receive` reads the command register. It reports that nothing is
  -- there if the card says so or the header is not marked as received well; else it gives the
  -- frame's bytes if they lie inside the buffer, and panics if they do not.
  pub receive_lem :
      (r : Rtl8139) (s : S)
      → IsRing r
      → receive io (some r) s ≡ (
          if (command r s).0 % 2 == 1
          then done none (command r s).1
          else if header_ok r
          then delivered r (command r s).1
          else done none (command r s).1)
  unfolding receive read rx_empty
  receive_lem r s ring =
      let bits = (command r s).0 in
      let s' = (command r s).1 in
      let (hdr, run, ok) = get_rx_hdr_lem r s' ring in
      let e : contains (from_bits_truncate command_reg_all bits) rx_buf_empty ≡ (bits % 2 == 1) =
        flag_0 bits command_reg_all refl in
      elim (Bool-cases (bits % 2 == 1)) [
        | inl empty ↦ rw (e, empty) refl
        | inr full ↦
            rw (e, full)
              (elim (Bool-cases (header_ok r)) [
                | inl good ↦ rw good (
                    bind_done (get_rx_hdr io r) _ run (
                      rw (ok ∙ good) (
                        bind_done (get_rx_len io r) _ (get_rx_len_lem io r s' ring)
                          (slice_lem r s' ring))))
                | inr bad ↦ rw bad (bind_done (get_rx_hdr io r) _ run (rw (ok ∙ bad) refl))
              ])
      ]

-- A frame as the card stores it: a header that marks it as received well, its length, and its bytes
-- one after the other. The bounds are those between which the driver can handle it at any offset.
pub record IsFrame (buffer : List ℕ) (off : ℕ) (bytes : List ℕ) : Type 0 where
  pub good : get_or buffer off 0 % 2 ≡ 1
  pub counted : get_or buffer (off + 3) 0 * 256 + get_or buffer (off + 2) 0 ≡ length bytes
  pub stored : take (length bytes) (drop (off + 4) buffer) ≡ bytes
  pub short : 9 ≤ length bytes
  pub long : length bytes ≤ 1516

-- The frames that are stored from `off` on, the next one first.
abbrev pub Frames : (buffer : List ℕ) → (off : ℕ) → List (List ℕ) → Type 0
Frames buffer off [] = Unit {0}
Frames buffer off (f ∷ fs) = IsFrame buffer off f × Frames buffer (behind off (length f) % 8192) fs

module _ {S : Type 0} (io : Io S) where
  -- While the card reports frames, and the ring holds a queue of them, `receive` gives the bytes of
  -- the first frame; dropping that buffer leaves the ring in the driver's form, holding the other
  -- frames of the queue, and tells the card an offset 16 bytes below the next header.
  pub receive-drop_rx :
      (r : Rtl8139) (f : List ℕ) (fs : List (List ℕ)) (s t : S)
      → IsRing r
      → Frames r.rx_buffer r.rx_offset (f ∷ fs)
      → (command io r s).0 % 2 ≡ 0
      → let next = behind r.rx_offset (length f) in
        (r' : Rtl8139) × (receive io (some r) s ≡ done (some f) (command io r s).1)
        × (drop_rx io (some r) t ≡ done (some r') (io.out_word (port r capr) (next - 16) t))
        × IsRing r'
        × (r'.rx_offset ≡ next % 8192)
        × Frames r'.rx_buffer r'.rx_offset fs
  unfolding drop_rx
  receive-drop_rx r f fs s t ring (frame, frames) full =
      let len : frame_length r ≡ length f = frame.counted in
      let there : ((command io r s).0 % 2 == 1) ≡ false = ground arith in
      let ok : header_ok io r ≡ true = ground (arith, frame.good) in
      let fits : leb (r.rx_offset + 4 + length f) 9708 ≡ true =
        le→leb (r.rx_offset + 4 + length f) 9708
          (omega (arith, ring.inside, ring.aligned, frame.long)) in
      (
        record r { rx_offset = behind r.rx_offset (length f) % 8192 },
        receive_lem io r s ring
            ∙ rw (there, ok, len, fits) (ap (λ b. done (some b) (command io r s).1) frame.stored),
        bind_done (update_capr io r) (λ r'. pure (some r'))
            (update_capr_lem io r t ring (omega (arith, frame.short, len))
              (omega (arith, frame.long, len)))
            (rw len refl),
        rw (sym len) (moved-IsRing r ring),
        refl,
        frames,
      )
