-- ===== src/Picirq/Lines.antt =====
-- Enabling a line clears its bit of the mask and no other, and writes the mask to both controllers.
use sprocket.Base.{
  ℕ, ◌-◌, ◌^◌, ◌≤◌, ◌<◌, ◌≡◌, refl, Bool, true, arith, bit_and, bit, bit-bit_and, all_below,
  passes_below, ◌==◌, ==_iff, if◌then◌else◌, done, panic, u8, ◌>>>◌,
}
use sprocket.Port.{Io}
use sprocket.Picirq.{Mask, max_irq, enable_irq}

abbrev complement_at : (irq j : ℕ) → Bool
complement_at irq j = bit (0xFFFF - 2 ^ irq) j == (if j == irq then 0 else 1)

complement_table : all_below 16 (λ irq. all_below 16 (complement_at irq)) ≡ true
unfolding all_below
complement_table = refl

complement_bit :
    (irq j : ℕ) → irq < 16 → j < 16 → bit (0xFFFF - 2 ^ irq) j ≡ (if j == irq then 0 else 1)
complement_bit irq j hi hj = (==_iff _ _).0 (
    passes_below (complement_at irq) j 16 hj
      (passes_below (λ irq. all_below 16 (complement_at irq)) irq 16 hi complement_table))

bit-le : (a j : ℕ) → bit a j ≤ 1
bit-le a j = omega arith

-- A valid line: its bit is cleared, every other bit of the mask stays, and the new mask's two bytes
-- go to the data ports of the two controllers.
pub enable_irq_lem :
    {S : Type 0} (io : Io S) (m : Mask) (irq : ℕ) (s : S)
    → irq ≤ max_irq
    → (m' : Mask) × (enable_irq io m irq s
        ≡ done m' (io.out_byte 0xA1 (u8 (m'.mask >>> 8)) (io.out_byte 0x21 (u8 m'.mask) s)))
      × ((j : ℕ) → j < 16 → bit m'.mask j ≡ (if j == irq then 0 else bit m.mask j))
unfolding enable_irq
enable_irq_lem io m irq s h = (
  record { mask = bit_and m.mask (0xFFFF - 2 ^ irq) },
  ground arith,
  λ j hj. ground (
    arith,
    bit-bit_and j m.mask (0xFFFF - 2 ^ irq),
    complement_bit irq j (omega arith) hj,
    bit-le m.mask j,
  ),
)

-- Any other line fails the assertion, and nothing is written.
pub enable_irq_panics :
    {S : Type 0} (io : Io S) (m : Mask) (irq : ℕ) (s : S)
    → max_irq < irq
    → enable_irq io m irq s ≡ panic
unfolding enable_irq
enable_irq_panics io m irq s h = ground arith
