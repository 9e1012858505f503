-- ===== src/Base/Bits.antt =====
-- The machine's bit operations as arithmetic, at every width: a mask of low bits is a remainder, a
-- mask of high bits clears the low ones, and fields that do not overlap are joined by a sum.
use Prim.Native.Nat.{
  ℕ, zero, suc, ◌+◌, ◌-◌, ◌*◌, ◌/◌, ◌%◌, ◌^◌, ◌≤◌, ◌<◌, min, max, bit_and, bit_or, digits,
  bit_and-bitwise, bit_or-bitwise,
}
use mathlib.Core.Path.{◌≡◌, refl, sym, ap, ◌∙◌}
use mathlib.Core.Bool.{Bool, true, ◌&&◌}
use native.Mathlib.Omega.{arith}
use native.Mathlib.Nat.{pow-suc, one-le-pow, div-div-eq-div-mul, mul_comm}

-- Both operations go through the digits of the first number: `low` is the result where none is left,
-- and `op` joins two digits.
module _ (low : ℕ → ℕ) (op : ℕ → ℕ → ℕ) where
  -- Rounds that are not needed do not matter.
  digits_enough :
      (rounds more b a : ℕ)
      → a ≤ more
      → a ≤ rounds
      → digits low op rounds a b ≡ digits low op more a b
  digits_enough zero more b (suc a) le le' = absurd (omega arith)
  digits_enough rounds zero b (suc a) le le' = absurd (omega arith)
  digits_enough zero zero b zero le le' = refl
  digits_enough zero (suc more) b zero le le' = refl
  digits_enough (suc rounds) zero b zero le le' = refl
  digits_enough (suc rounds) (suc more) b zero le le' = refl
  digits_enough (suc rounds) (suc more) b (suc a) le le' =
      ap (λ (t : ℕ). t * 2 + op (suc a % 2) (b % 2))
        (digits_enough rounds more (b / 2) (suc a / 2) (omega arith) (omega arith))

  -- The lowest digit apart.
  lowest_digit :
      (f : ℕ → ℕ → ℕ)
      → ((a b : ℕ) → f a b ≡ digits low op a a b)
      → ((b : ℕ) → low b ≡ low (b / 2) * 2 + op 0 (b % 2))
      → (b a : ℕ) → f a b ≡ f (a / 2) (b / 2) * 2 + op (a % 2) (b % 2)
  lowest_digit f whole base b zero = rw (whole 0 b, whole (zero / 2) (b / 2)) (base b)
  lowest_digit f whole base b (suc a) =
      whole (suc a) b
      ∙ ap (λ (t : ℕ). t * 2 + op (suc a % 2) (b % 2))
          (digits_enough a (suc a / 2) (b / 2) (suc a / 2) (omega arith) (omega arith)
            ∙ sym (whole (suc a / 2) (b / 2)))

zero-bit_and : (b : ℕ) → bit_and 0 b ≡ 0
zero-bit_and b = bit_and-bitwise 0 b

pub zero-bit_or : (b : ℕ) → bit_or 0 b ≡ b
zero-bit_or b = bit_or-bitwise 0 b

bit_and_step : (a b : ℕ) → bit_and a b ≡ bit_and (a / 2) (b / 2) * 2 + min (a % 2) (b % 2)
bit_and_step a b = lowest_digit (λ _. zero) min bit_and bit_and-bitwise (λ b. omega arith) b a

bit_or_step : (a b : ℕ) → bit_or a b ≡ bit_or (a / 2) (b / 2) * 2 + max (a % 2) (b % 2)
bit_or_step a b = lowest_digit (λ b. b) max bit_or bit_or-bitwise (λ b. omega arith) b a

bit_and-zero_below : (n a : ℕ) → a ≤ n → bit_and a 0 ≡ 0
bit_and-zero_below n zero h = zero-bit_and 0
bit_and-zero_below zero (suc a) h = absurd (omega arith)
bit_and-zero_below (suc n) (suc a) h =
    omega (arith, bit_and_step (suc a) 0, bit_and-zero_below n (suc a / 2) (omega arith))

pub bit_and-zero : (a : ℕ) → bit_and a 0 ≡ 0
bit_and-zero a = bit_and-zero_below a a (omega arith)

bit_or-zero_below : (n a : ℕ) → a ≤ n → bit_or a 0 ≡ a
bit_or-zero_below n zero h = zero-bit_or 0
bit_or-zero_below zero (suc a) h = absurd (omega arith)
bit_or-zero_below (suc n) (suc a) h =
    omega (arith, bit_or_step (suc a) 0, bit_or-zero_below n (suc a / 2) (omega arith))

pub bit_or-zero : (a : ℕ) → bit_or a 0 ≡ a
bit_or-zero a = bit_or-zero_below a a (omega arith)

double_pow : (q k : ℕ) → q * 2 ^ suc k ≡ 2 * (q * 2 ^ k)
double_pow q k = omega (arith, ap (λ (t : ℕ). q * t) (pow-suc 2 k))

-- Both operations work on the fields above and below bit `k` by themselves.
pub bit_and_fields :
    (k q r p s : ℕ)
    → r < 2 ^ k
    → s < 2 ^ k
    → bit_and (q * 2 ^ k + r) (p * 2 ^ k + s) ≡ bit_and q p * 2 ^ k + bit_and r s
bit_and_fields zero q r p s hr hs =
    let er : r ≡ 0 = omega arith in
    let es : s ≡ 0 = omega arith in rw (er, es) (ground (arith, zero-bit_and 0))
bit_and_fields (suc k) q r p s hr hs = ground (
  arith,
  bit_and_step (q * 2 ^ suc k + r) (p * 2 ^ suc k + s),
  bit_and_step r s,
  double_pow q k,
  double_pow p k,
  double_pow (bit_and q p) k,
  pow-suc 2 k,
  bit_and_fields k q (r / 2) p (s / 2),
)

pub bit_or_fields :
    (k q r p s : ℕ)
    → r < 2 ^ k
    → s < 2 ^ k
    → bit_or (q * 2 ^ k + r) (p * 2 ^ k + s) ≡ bit_or q p * 2 ^ k + bit_or r s
bit_or_fields zero q r p s hr hs =
    let er : r ≡ 0 = omega arith in
    let es : s ≡ 0 = omega arith in rw (er, es) (ground (arith, zero-bit_or 0))
bit_or_fields (suc k) q r p s hr hs = ground (
  arith,
  bit_or_step (q * 2 ^ suc k + r) (p * 2 ^ suc k + s),
  bit_or_step r s,
  double_pow q k,
  double_pow p k,
  double_pow (bit_or q p) k,
  pow-suc 2 k,
  bit_or_fields k q (r / 2) p (s / 2),
)

bit_and_full : (k r : ℕ) → r < 2 ^ k → bit_and r (2 ^ k - 1) ≡ r
bit_and_full zero r h = ground (arith, bit_and-zero r)
bit_and_full (suc k) r h =
    ground
      (arith, bit_and_step r (2 ^ suc k - 1), pow-suc 2 k, one-le-pow k 2, bit_and_full k (r / 2))

-- `a & ((1 << k) - 1)`
pub bit_and_low : (k a : ℕ) → bit_and a (2 ^ k - 1) ≡ a % 2 ^ k
bit_and_low k a = ground (
  arith,
  one-le-pow k 2,
  bit_and_fields k (a / 2 ^ k) (a % 2 ^ k) 0 (2 ^ k - 1),
  bit_and_full k (a % 2 ^ k),
  bit_and-zero (a / 2 ^ k),
)

-- `(q << k) | r`, where `r` fits the `k` low bits
pub bit_or_join : (k q r : ℕ) → r < 2 ^ k → bit_or (q * 2 ^ k) r ≡ q * 2 ^ k + r
bit_or_join k q r h =
    ground (arith, one-le-pow k 2, bit_or_fields k q 0 0 r, bit_or-zero q, zero-bit_or r)

-- `x | (1 << k)`, where `x` fits the `k` low bits
pub bit_or_above : (k x : ℕ) → x < 2 ^ k → bit_or x (2 ^ k) ≡ 2 ^ k + x
bit_or_above k x h =
    ground (arith, one-le-pow k 2, bit_or_fields k 0 x 1 0, zero-bit_or 1, bit_or-zero x)

-- `a & (m << k)`
pub bit_and_high : (k a m : ℕ) → bit_and a (m * 2 ^ k) ≡ bit_and (a / 2 ^ k) m * 2 ^ k
bit_and_high k a m =
    ground (
      arith,
      one-le-pow k 2,
      bit_and_fields k (a / 2 ^ k) (a % 2 ^ k) m 0,
      bit_and-zero (a % 2 ^ k),
    )

-- bit `j` of a number
abbrev pub bit : ℕ → ℕ → ℕ
bit a j = a / 2 ^ j % 2

half_pow : (a j : ℕ) → a / 2 ^ suc j ≡ a / 2 / 2 ^ j
half_pow a j = rw (div-div-eq-div-mul a 2 (2 ^ j), pow-suc, mul_comm (2 ^ j) 2)

half_bit_and : (a b : ℕ) → bit_and a b / 2 ≡ bit_and (a / 2) (b / 2)
half_bit_and a b = omega (arith, bit_and_step a b)

half_bit_or : (a b : ℕ) → bit_or a b / 2 ≡ bit_or (a / 2) (b / 2)
half_bit_or a b = omega (arith, bit_or_step a b)

pub bit-bit_and : (j a b : ℕ) → bit (bit_and a b) j ≡ min (bit a j) (bit b j)
bit-bit_and zero a b = omega (arith, bit_and_step a b)
bit-bit_and (suc j) a b =
    rw (half_pow (bit_and a b) j, half_pow a j, half_pow b j, half_bit_and a b)
      (bit-bit_and j (a / 2) (b / 2))

pub bit-bit_or : (j a b : ℕ) → bit (bit_or a b) j ≡ max (bit a j) (bit b j)
bit-bit_or zero a b = omega (arith, bit_or_step a b)
bit-bit_or (suc j) a b =
    rw (half_pow (bit_or a b) j, half_pow a j, half_pow b j, half_bit_or a b)
      (bit-bit_or j (a / 2) (b / 2))

-- Does every number below the bound pass the test?
unfoldable pub all_below : (bound : ℕ) → (ℕ → Bool) → Bool
all_below zero test = true
all_below (suc last) test = all_below last test && test last

pub passes_below :
    (test : ℕ → Bool) (x bound : ℕ) → x < bound → all_below bound test ≡ true → test x ≡ true
unfolding all_below
passes_below test x zero lt all = absurd (omega arith)
passes_below test x (suc last) lt all = ground (arith, passes_below test x last)

pub bit_and-lt : (k a b : ℕ) → a < 2 ^ k → bit_and a b < 2 ^ k
bit_and-lt zero a b h = let e : a ≡ 0 = omega arith in rw (e, zero-bit_and b) (omega arith)
bit_and-lt (suc k) a b h = omega (
  arith,
  bit_and_step a b,
  pow-suc 2 k,
  bit_and-lt k (a / 2) (b / 2) (omega (arith, pow-suc 2 k)),
)

pub bit_or-lt : (k a b : ℕ) → a < 2 ^ k → b < 2 ^ k → bit_or a b < 2 ^ k
bit_or-lt zero a b ha hb = let ea : a ≡ 0 = omega arith in rw (ea, zero-bit_or) hb
bit_or-lt (suc k) a b ha hb = omega (
  arith,
  bit_or_step a b,
  pow-suc 2 k,
  bit_or-lt k (a / 2) (b / 2) (omega (arith, pow-suc 2 k)) (omega (arith, pow-suc 2 k)),
)
