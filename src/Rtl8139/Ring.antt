-- ===== src/Rtl8139/Ring.antt =====
-- src/rtl8139.rs: the receive ring. The offset of the next frame stays aligned and inside the ring,
-- and moves behind the frame that was read.
use sprocket.Base.{
  ℕ, zero, suc, ◌+◌, ◌-◌, ◌*◌, ◌/◌, ◌%◌, ◌^◌, ◌≤◌, ◌<◌, ◌≡◌, refl, ap, arith, List, [], ◌∷◌, length,
  get_elem?, get_or, some, done, bind_done, bit_and, bit_and_high, bit_and_low, bit_or, bit_or_join,
  u16, u32, ltb, leb, lt→ltb, true, if◌then◌else◌, wrapping_sub, ◌<<<◌,
}
use sprocket.Port.{Io}
use sprocket.Rtl8139.{Rtl8139, port, at, get_rx_len, set_capr, update_capr}
use sprocket.Rtl8139.Registers.{buf_size, base_buf_size, capr}

-- What the driver keeps true of its side of the ring, and the size of a byte.
pub record IsRing (r : Rtl8139) : Type 0 where
  pub size : length r.rx_buffer ≡ 9708
  pub bytes : (i : ℕ) → get_or r.rx_buffer i 0 < 256
  pub aligned : r.rx_offset % 4 ≡ 0
  pub inside : r.rx_offset < 8192

-- The length that the header of the next frame holds.
abbrev pub frame_length : Rtl8139 → ℕ
frame_length r =
    get_or r.rx_buffer (r.rx_offset + 3) 0 * 256 + get_or r.rx_buffer (r.rx_offset + 2) 0

-- The first dword behind a frame of `len` bytes whose header begins at `off`.
abbrev pub behind : (off len : ℕ) → ℕ
behind off len = off + 4 + (len + 3) / 4 * 4

module _ {A : Type 0} where
  get_elem?-some :
      (xs : List A) (i : ℕ) (d : A) → i < length xs → get_elem? xs i ≡ some (get_or xs i d)
  get_elem?-some [] i d lt = absurd (omega arith)
  get_elem?-some (x ∷ xs) zero d lt = refl
  get_elem?-some (x ∷ xs) (suc i) d lt = get_elem?-some xs i d (omega arith)

  pub at-get_or :
      {S : Type 0} (xs : List A) (i : ℕ) (d : A) (s : S)
      → i < length xs
      → at xs i s ≡ done (get_or xs i d) s
  at-get_or xs i d s lt = rw (get_elem?-some xs i d lt, at) refl

align_down : (n : ℕ) → n < 2 ^ 32 → bit_and n (2 ^ 32 - 1 - 3) ≡ n / 4 * 4
align_down n h = omega (arith, bit_and_high 2 n (2 ^ 30 - 1), bit_and_low 30 (n / 4))

-- The ring keeps its form when the next frame is the one behind.
pub moved-IsRing :
    (r : Rtl8139)
    → IsRing r
    → IsRing (record r { rx_offset = behind r.rx_offset (frame_length r) % 8192 })
moved-IsRing r ring = record {
  size = ring.size;
  bytes = ring.bytes;
  aligned = omega (arith, ring.aligned);
  inside = omega arith;
}

module _ {S : Type 0} (io : Io S) where
  pub get_rx_len_lem :
      (r : Rtl8139) (s : S) → IsRing r → get_rx_len io r s ≡ done (frame_length r) s
  unfolding get_rx_len
  get_rx_len_lem r s ring =
      let b1 = get_or r.rx_buffer (r.rx_offset + 2) 0 in
      let b2 = get_or r.rx_buffer (r.rx_offset + 3) 0 in
      let small1 : b1 < 256 = ring.bytes (r.rx_offset + 2) in
      let small2 : b2 < 256 = ring.bytes (r.rx_offset + 3) in
      let whole : u16 (b2 <<< 8) ≡ b2 * 2 ^ 8 = omega arith in
      let join : bit_or (u16 (b2 <<< 8)) b1 ≡ frame_length r =
        rw whole (bit_or_join 8 b2 b1 small1) in
      bind_done (at r.rx_buffer (r.rx_offset + 2)) _
        (at-get_or r.rx_buffer (r.rx_offset + 2) 0 s (omega (arith, ring.size, ring.inside)))
        (bind_done (at r.rx_buffer (r.rx_offset + 3)) _
          (at-get_or r.rx_buffer (r.rx_offset + 3) 0 s (omega (arith, ring.size, ring.inside)))
          (ap (λ len. done len s) join))

  -- `update_capr` writes the register 16 bytes below the new offset.
  pub update_capr_lem :
      (r : Rtl8139) (s : S)
      → IsRing r
      → 9 ≤ frame_length r
      → frame_length r ≤ 1528
      → let next = behind r.rx_offset (frame_length r) in
        update_capr io r s
        ≡ done (record r { rx_offset = next % 8192 }) (io.out_word (port r capr) (next - 16) s)
  unfolding update_capr set_capr
  update_capr_lem r s ring short long =
      let len = frame_length r in
      let next = behind r.rx_offset len in
      let moved : bit_and (u32 (r.rx_offset + len + 4 + 3)) (2 ^ 32 - 1 - 3) ≡ next =
        omega (arith, align_down (u32 (r.rx_offset + len + 4 + 3)), ring.aligned, ring.inside) in
      let below : wrapping_sub next 0x10 ≡ next - 16 = omega (arith, ring.inside) in
      let low : ltb (next - 16) buf_size ≡ true =
        lt→ltb (next - 16) buf_size (omega (arith, ring.inside, ring.aligned)) in
      let word : u16 (next - 16) ≡ next - 16 = omega (arith, ring.inside) in
      let wrapped : (if leb base_buf_size next then next % base_buf_size else next) ≡ next % 8192 =
        ground arith in
      bind_done (get_rx_len io r) _ (get_rx_len_lem r s ring)
        (rw (moved, below, low, word, wrapped) refl)
