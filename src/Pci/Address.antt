-- ===== src/Pci/Address.antt =====
-- Register addresses as arithmetic: different registers have different addresses.
use sprocket.Base.{
  ℕ, ◌+◌, ◌*◌, ◌/◌, ◌^◌, ◌<◌, ◌≡◌, arith, bit_and, bit_or, bit_or_join, bit_or_above, bit_and_high,
  bit_and_low, u32, ◌<<<◌,
}
use sprocket.Pci.{address}

-- `offset & 0xfc` is the offset of the 32-bit register.
pub register_offset : (offset : ℕ) → offset < 256 → bit_and offset 0xfc ≡ offset / 4 * 4
register_offset offset h = omega (arith, bit_and_high 2 offset 63, bit_and_low 6 (offset / 4))

word : (x k : ℕ) → x <<< k < 2 ^ 32 → u32 (x <<< k) ≡ x <<< k
word x k h = omega arith

pub address_lem :
    (bus slot func offset : ℕ)
    → bus < 256
    → slot < 32
    → func < 8
    → offset < 256
    → address bus slot func offset
      ≡ 2 ^ 31 + bus * 2 ^ 16 + slot * 2 ^ 11 + func * 2 ^ 8 + offset / 4 * 4
unfolding address
address_lem bus slot func offset hb hs hf ho =
    let e1 : bit_or (u32 (bus <<< 16)) (u32 (slot <<< 11)) ≡ (bus * 2 ^ 5 + slot) * 2 ^ 11 =
      rw (word bus 16 (omega arith), word slot 11 (omega arith))
        (omega (arith, bit_or_join 16 bus (slot * 2 ^ 11) (omega arith))) in
    let e2 : bit_or ((bus * 2 ^ 5 + slot) * 2 ^ 11) (u32 (func <<< 8))
        ≡ (bus * 2 ^ 8 + slot * 2 ^ 3 + func) * 2 ^ 8 =
      rw (word func 8 (omega arith))
        (omega (arith, bit_or_join 11 (bus * 2 ^ 5 + slot) (func * 2 ^ 8) (omega arith))) in
    let e3 = bit_or_join 8 (bus * 2 ^ 8 + slot * 2 ^ 3 + func) (offset / 4 * 4) (omega arith) in
    rw (e1, e2, register_offset offset ho, e3)
      (omega (
        arith,
        bit_or_above 31 ((bus * 2 ^ 8 + slot * 2 ^ 3 + func) * 2 ^ 8 + offset / 4 * 4)
            (omega arith),
      ))

-- Two registers of 32 bits have the same address only if they are the same.
pub address-injective :
    (bus slot func offset bus' slot' func' offset' : ℕ)
    → bus < 256
    → slot < 32
    → func < 8
    → offset < 256
    → bus' < 256
    → slot' < 32
    → func' < 8
    → offset' < 256
    → address bus slot func offset ≡ address bus' slot' func' offset'
    → (bus ≡ bus') × (slot ≡ slot') × (func ≡ func') × (offset / 4 ≡ offset' / 4)
address-injective bus slot func offset bus' slot' func' offset' hb hs hf ho hb' hs' hf' ho' e =
    omega (
      arith,
      address_lem bus slot func offset hb hs hf ho,
      address_lem bus' slot' func' offset' hb' hs' hf' ho',
    )

-- Offsets in one register of 32 bits lead to the same address.
pub address_same :
    (bus slot func o p : ℕ)
    → o < 256
    → p < 256
    → o / 4 ≡ p / 4
    → address bus slot func o ≡ address bus slot func p
unfolding address
address_same bus slot func o p ho hp e = rw (register_offset o ho, register_offset p hp, e)
