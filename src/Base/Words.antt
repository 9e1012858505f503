-- ===== src/Base/Words.antt =====
-- Machine words as native numbers: wrap by `%`, shift by `/` and `*`.
use Prim.Native.Nat.{ℕ, ◌+◌, ◌-◌, ◌*◌, ◌/◌, ◌%◌, ◌^◌}

-- The casts `as u8`, `as u16` and `as u32`; `usize` has 32 bits on the i686 target.
abbrev pub u8 : ℕ → ℕ
u8 n = n % 2 ^ 8

abbrev pub u16 : ℕ → ℕ
u16 n = n % 2 ^ 16

abbrev pub u32 : ℕ → ℕ
u32 n = n % 2 ^ 32

abbrev pub wrapping_sub : ℕ → ℕ → ℕ
wrapping_sub a b = u32 (a + 2 ^ 32 - b)

infixl 72 ◌<<<◌ ◌>>>◌
-- a shift to the left before the cut to the width of the word
abbrev pub ◌<<<◌ : ℕ → ℕ → ℕ
x <<< k = x * 2 ^ k

abbrev pub ◌>>>◌ : ℕ → ℕ → ℕ
x >>> k = x / 2 ^ k
