-- ===== src/Rtl8139/Descriptors.antt =====
-- src/rtl8139.rs: the transmit descriptors, on a card that behaves as its documentation says.
use sprocket.Base.{
  ℕ, zero, suc, ◌+◌, ◌-◌, ◌*◌, ◌/◌, ◌%◌, ◌^◌, ◌<◌, ◌≡◌, refl, arith, [], ◌∷◌, done, bind_done, ◌&&◌,
  ◌==◌, if◌then◌else◌, bit_and, bit_or, bit, bit_and_fields, bit_and_low, bit_and_high,
  bit_and-zero, bit_or_join, u16,
}
use sprocket.Port.{Io}
use sprocket.Rtl8139.{Rtl8139, at, tsd}
use sprocket.Rtl8139.Registers.{contains, remove, set_length, own, tok}

-- What the card's documentation says of its descriptors and its interrupt status: reading a
-- register gives it and changes none of them, a descriptor is stored where it is written, and
-- writing a bit of the interrupt status clears it.
pub record Card {S : Type 0} (io : Io S) (iobase : ℕ) : Type 0 where
  pub descriptor : S → ℕ → ℕ
  pub status : S → ℕ
  pub in_range : (s : S) (i : ℕ) → descriptor s i < 2 ^ 32
  pub reads :
      (s : S) (i : ℕ) → i < 4 → (io.in_long (u16 (iobase + (0x10 + 4 * i))) s).0 ≡ descriptor s i
  pub read_keeps :
      (s : S) (i j : ℕ)
      → i < 4
      → descriptor (io.in_long (u16 (iobase + (0x10 + 4 * i))) s).1 j ≡ descriptor s j
  pub read_keeps_status :
      (s : S) (i : ℕ) → i < 4 → status (io.in_long (u16 (iobase + (0x10 + 4 * i))) s).1 ≡ status s
  pub writes :
      (s : S) (i j v : ℕ)
      → i < 4
      → v < 2 ^ 32
      → descriptor (io.out_long (u16 (iobase + (0x10 + 4 * i))) v s) j
        ≡ (if j == i then v else descriptor s j)
  pub status_reads : (s : S) → (io.in_word (u16 (iobase + 0x3E)) s).0 ≡ status s
  pub status_read_keeps :
      (s : S) (j : ℕ) → descriptor (io.in_word (u16 (iobase + 0x3E)) s).1 j ≡ descriptor s j
  pub status_clears :
      (s : S) (v : ℕ)
      → status (io.out_word (u16 (iobase + 0x3E)) v s) ≡ bit_and (status s) (0xffff - v)
  pub status_clear_keeps :
      (s : S) (v j : ℕ) → descriptor (io.out_word (u16 (iobase + 0x3E)) v s) j ≡ descriptor s j

pub tsd_register :
    {S : Type 0} (off : ℕ) (s : S)
    → off < 4
    → at (0x10 ∷ 0x14 ∷ 0x18 ∷ 0x1c ∷ []) off s ≡ done (0x10 + 4 * off) s
tsd_register zero s h = refl
tsd_register (suc zero) s h = refl
tsd_register (suc (suc zero)) s h = refl
tsd_register (suc (suc (suc zero))) s h = refl
tsd_register (suc (suc (suc (suc n)))) s h = absurd (omega arith)

-- The descriptor that `hw_transmit` writes: the low 12 bits of the length and the flag `OWN` are
-- new, and the others stay.
abbrev pub armed : (desc len : ℕ) → ℕ
armed desc len = desc / 2 ^ 14 * 2 ^ 14 + bit desc 12 * 2 ^ 12 + len % 2 ^ 12

pub armed_lem : (desc len : ℕ) → desc < 2 ^ 32 → remove (set_length desc len) own ≡ armed desc len
unfolding set_length
armed_lem desc len h =
    let q = desc / 2 ^ 12 in
    let l = len % 2 ^ 12 in
    let high : bit_and desc (2 ^ 32 - 1 - 0xFFF) ≡ q * 2 ^ 12 =
      omega (arith, bit_and_high 12 desc (2 ^ 20 - 1), bit_and_low 20 q) in
    let joined : set_length desc len ≡ q * 2 ^ 12 + l =
      rw (high, bit_and_low 12 len) (bit_or_join 12 q l (omega arith)) in
    let kept : bit_and q 0xFFFFD ≡ q / 4 * 4 + q % 2 = ground (
      arith,
      bit_and_fields 2 (q / 4) (q % 4) 0x3FFFF 1 (omega arith) (omega arith),
      bit_and_low 18 (q / 4),
      bit_and_low 1 (q % 4),
    ) in
    rw joined (
      ground (
        arith,
        bit_and_fields 12 q l 0xFFFFD 0xFFF (omega arith) (omega arith),
        bit_and_low 12 l,
        kept,
      ))

pub contains-own : (desc : ℕ) → contains desc own ≡ (bit desc 13 == 1)
contains-own desc =
    let e : bit_and desc own ≡ bit desc 13 * 2 ^ 13 =
      omega (arith, bit_and_high 13 desc 1, bit_and_low 1 (desc / 2 ^ 13)) in
    ground (arith, e)

pub contains-tok :
    (desc : ℕ) → contains desc (bit_or tok own) ≡ ((bit desc 13 == 1) && (bit desc 15 == 1))
contains-tok desc =
    let q = desc / 2 ^ 13 in
    let e : bit_and desc 40960 ≡ (bit desc 15 * 4 + bit desc 13) * 2 ^ 13 = ground (
      arith,
      bit_and_high 13 desc 5,
      bit_and_fields 2 (q / 4) (q % 4) 1 1 (omega arith) (omega arith),
      bit_and_low 1 (q / 4),
      bit_and_low 1 (q % 4),
    ) in
    ground (arith, e)

module _ {S : Type 0} (io : Io S) where
  pub tsd_lem :
      (r : Rtl8139) (card : Card io r.iobase) (off : ℕ) (s : S)
      → off < 4
      → (s' : S) × (tsd io r off s ≡ done (card.descriptor s off) s')
        × ((j : ℕ) → card.descriptor s' j ≡ card.descriptor s j)
        × (card.status s' ≡ card.status s)
  unfolding tsd
  tsd_lem r card off s h =
      let reg = u16 (r.iobase + (0x10 + 4 * off)) in
      (
        (io.in_long reg s).1,
        bind_done (at (0x10 ∷ 0x14 ∷ 0x18 ∷ 0x1c ∷ []) off) _ (tsd_register off s h)
            (rw (bit_and-zero (io.in_long reg s).0, card.reads s off h) refl),
        λ j. card.read_keeps s off j h,
        card.read_keeps_status s off h,
      )
