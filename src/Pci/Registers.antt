-- ===== src/Pci/Registers.antt =====
-- Reads and writes of configuration registers, on a bus that behaves as the PCI documents say.
use sprocket.Base.{
  ℕ, ◌+◌, ◌*◌, ◌/◌, ◌%◌, ◌^◌, ◌<◌, ◌≡◌, ◌≢◌, ==_iff, false, refl, ◌∙◌, ap, arith, done, bit_and,
  bit_or, bit_or_join, bit_and_low, bit_and_high, u8, u16, u32, ◌<<<◌, ◌>>>◌, ◌==◌, if◌then◌else◌,
  bind_done, Bool-cases, inl, inr, true,
}
use sprocket.Port.{Io}
use sprocket.Pci.Address.{register_offset, address_same}
use sprocket.Pci.{
  config_address, config_data, address, config_read32, config_read16, config_write32,
  config_write16, is_low,
}

-- The registers as a function of the address. Selecting one changes none; a read returns the one
-- selected, below `2 ^ 32`, and changes none; a write of the data port changes the one selected, to
-- what the device stores there: `stored`, of the address, the old value and the one that is written.
pub record ConfigSpace {S : Type 0} (io : Io S) : Type 0 where
  pub register : S → ℕ → ℕ
  pub stored : (a old v : ℕ) → ℕ
  pub in_range : (s : S) (a : ℕ) → register s a < 2 ^ 32
  pub reads : (s : S) (a : ℕ) → (io.in_long 0xcfc (io.out_long 0xcf8 a s)).0 ≡ register s a
  pub read_keeps :
      (s : S) (a b : ℕ) → register (io.in_long 0xcfc (io.out_long 0xcf8 a s)).1 b ≡ register s b
  pub writes :
      (s : S) (a v b : ℕ)
      → v < 2 ^ 32
      → register (io.out_long 0xcfc v (io.out_long 0xcf8 a s)) b
        ≡ (if b == a then stored a (register s a) v else register s b)

-- The 16-bit half of a register that an offset names.
abbrev pub half : (word offset : ℕ) → ℕ
half word offset = if offset / 2 % 2 == 0 then word % 2 ^ 16 else word / 2 ^ 16

offset_bit : (offset : ℕ) → bit_and offset 2 ≡ offset / 2 % 2 * 2
offset_bit offset = omega (arith, bit_and_high 1 offset 1, bit_and_low 1 (offset / 2))

half_lem :
    (word offset : ℕ)
    → word < 2 ^ 32
    → u16 (bit_and (word >>> (bit_and offset 2 * 8)) 0xffff) ≡ half word offset
half_lem word offset h = elim (Bool-cases (offset / 2 % 2 == 0)) [
  | inl low ↦
      let e : bit_and offset 2 * 8 ≡ 0 = ground (arith, offset_bit offset) in
      rw (e, low) (omega (arith, bit_and_low 16 (word / 1)))
  | inr high ↦
      let e : bit_and offset 2 * 8 ≡ 16 = ground (arith, offset_bit offset) in
      rw (e, high) (omega (arith, bit_and_low 16 (word / 2 ^ 16)))
]

put_high : (w c : ℕ) → w < 2 ^ 16 → c < 2 ^ 16 → bit_or (u32 (w <<< 16)) c ≡ w * 2 ^ 16 + c
put_high w c hw hc =
    let e : u32 (w <<< 16) ≡ w * 2 ^ 16 = omega arith in rw e (bit_or_join 16 w c hc)

upper_half : (offset word : ℕ) → offset % 4 ≡ 0 → half word (offset + 2) ≡ word / 2 ^ 16
upper_half offset word h = ground arith

lower_half : (offset word : ℕ) → offset % 4 ≡ 2 → half word (offset + 2) ≡ word % 2 ^ 16
lower_half offset word h = ground arith

half-lt : (word offset : ℕ) → word < 2 ^ 32 → half word offset < 2 ^ 16
half-lt word offset h = ground arith

-- The test that chooses the half in `config_write16` holds at every offset.
pub is_low_always : (offset : ℕ) → offset < 256 → is_low offset ≡ true
unfolding is_low
is_low_always offset h =
    let e : bit_and offset 0xfc % 4 ≡ 0 = omega (arith, register_offset offset h) in rw e

pub ==-refl : (a : ℕ) → (a == a) ≡ true
==-refl a = (==_iff a a).1 refl

pub ==-other : (b a : ℕ) → b ≢ a → (b == a) ≡ false
==-other b a h = elim (Bool-cases (b == a)) [
  | inl same ↦ absurd (h ((==_iff b a).0 same))
  | inr e ↦ e
]

module _ {S : Type 0} (io : Io S) (space : ConfigSpace io) where
  -- A 16-bit read gives the half that the offset names, and changes no register.
  pub config_read16_lem :
      (bus slot func offset : ℕ) (s : S)
      → (s' : S) × (config_read16 io bus slot func offset s
          ≡ done (half (space.register s (address bus slot func offset)) offset) s')
        × ((b : ℕ) → space.register s' b ≡ space.register s b)
  unfolding config_read16 config_read32
  config_read16_lem bus slot func offset s =
      let a = address bus slot func offset in
      (
        (io.in_long config_data (io.out_long config_address a s)).1,
        ap (λ v. done v (io.in_long config_data (io.out_long config_address a s)).1)
            (rw (space.reads s a) (half_lem (space.register s a) offset (space.in_range s a))),
        λ b. space.read_keeps s a b,
      )

  config_write32_lem :
      (bus slot func offset v : ℕ) (s : S)
      → v < 2 ^ 32
      → (s' : S) × (config_write32 io bus slot func offset v s ≡ done tt s')
        × ((b : ℕ)
            → space.register s' b ≡ (
                let a = address bus slot func offset in
                if b == a then space.stored a (space.register s a) v else space.register s b))
  unfolding config_write32
  config_write32_lem bus slot func offset v s h = (
    io.out_long config_data v (io.out_long config_address (address bus slot func offset) s),
    refl,
    λ b. space.writes s (address bus slot func offset) v b h,
  )

  -- A 16-bit write writes `config` to the low half of the register of `offset`, whichever half the
  -- offset names, and to the high half the 16 bits that stand two bytes behind the offset. No other
  -- register changes.
  pub config_write16_lem :
      (bus slot func offset config : ℕ) (s : S)
      → offset < 254
      → config < 2 ^ 16
      → (s' : S) × (config_write16 io bus slot func offset config s ≡ done tt s')
        × ((b : ℕ)
            → space.register s' b ≡ (
                let a = address bus slot func offset in
                if b == a
                then space.stored a (space.register s a) (
                    half (space.register s (address bus slot func (offset + 2))) (offset + 2)
                      * 2 ^ 16
                    + config)
                else space.register s b))
  unfolding config_write16
  config_write16_lem bus slot func offset config s ho hc =
      let w = half (space.register s (address bus slot func (offset + 2))) (offset + 2) in
      let small : w < 2 ^ 16 =
        half-lt (space.register s (address bus slot func (offset + 2))) (offset + 2)
          (space.in_range s (address bus slot func (offset + 2))) in
      let join = put_high w config small hc in
      let off : u8 (offset + 2) ≡ offset + 2 = omega arith in
      let (t, read, same) = config_read16_lem bus slot func (offset + 2) s in
      let (u, written, regs) =
        config_write32_lem bus slot func offset (w * 2 ^ 16 + config) t (omega arith) in
      (
        u,
        rw (is_low_always offset (omega arith), off)
            (bind_done (config_read16 io bus slot func (offset + 2))
              (λ word. config_write32 io bus slot func offset (bit_or (u32 (word <<< 16)) config))
              read (ap (λ v. config_write32 io bus slot func offset v t) join ∙ written)),
        λ b. regs b ∙ rw (same b, same (address bus slot func offset)) refl,
      )

  -- A write of the low half of a register writes its high half as it was, and no other register.
  pub config_write16_low :
      (bus slot func offset config : ℕ) (s : S)
      → offset < 254
      → offset % 4 ≡ 0
      → config < 2 ^ 16
      → (s' : S) × (config_write16 io bus slot func offset config s ≡ done tt s')
        × ((b : ℕ)
            → space.register s' b ≡ (
                let a = address bus slot func offset in
                if b == a
                then space.stored a
                    (space.register s a)
                    (space.register s a / 2 ^ 16 * 2 ^ 16 + config)
                else space.register s b))
  config_write16_low bus slot func offset config s ho aligned hc =
      let (s', run, regs) = config_write16_lem bus slot func offset config s ho hc in
      let same : address bus slot func (offset + 2) ≡ address bus slot func offset =
        address_same bus slot func (offset + 2) offset (omega arith) (omega arith) (omega arith) in
      let a = address bus slot func offset in
      let upper : half (space.register s (address bus slot func (offset + 2))) (offset + 2)
          ≡ space.register s a / 2 ^ 16 =
        ap (λ x. half (space.register s x) (offset + 2)) same
        ∙ upper_half offset (space.register s a) aligned in
      (
        s',
        run,
        λ b.
            regs b
            ∙ ap
                (λ h.
                  if b == a
                  then space.stored a (space.register s a) (h * 2 ^ 16 + config)
                  else space.register s b)
                upper,
      )

  -- A write of a high half (an offset that is 2 modulo 4) goes to the low half instead, and the high
  -- half is written with the low half of the next register: the register becomes what the device
  -- stores for these two halves.
  pub config_write16_high :
      (bus slot func offset config : ℕ) (s : S)
      → offset < 254
      → offset % 4 ≡ 2
      → config < 2 ^ 16
      → (s' : S) × (config_write16 io bus slot func offset config s ≡ done tt s')
        × (space.register s' (address bus slot func offset)
            ≡ space.stored
                (address bus slot func offset)
                (space.register s (address bus slot func offset))
                (space.register s (address bus slot func (offset + 2)) % 2 ^ 16 * 2 ^ 16 + config))
  config_write16_high bus slot func offset config s ho odd hc =
      let (s', run, regs) = config_write16_lem bus slot func offset config s ho hc in
      let a = address bus slot func offset in
      let next = space.register s (address bus slot func (offset + 2)) in
      (
        s',
        run,
        regs a
            ∙ rw (==-refl a) (
                ap (λ h. space.stored a (space.register s a) (h * 2 ^ 16 + config))
                  (lower_half offset next odd)),
      )
