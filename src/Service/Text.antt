-- ===== src/Service/Text.antt =====
-- Functions of Rust's library on texts, as src/service/mod.rs uses them. A text is the list of its
-- bytes.
use sprocket.Base.{
  ℕ, zero, suc, ◌+◌, ◌-◌, ◌/◌, ◌%◌, Bool, true, false, ◌&&◌, Option, none, some, List, [], ◌∷◌,
  ◌++◌, length, leb, ltb, ◌==◌, if◌then◌else◌,
}

-- For the first byte of a character: how many bytes follow, and the bounds of the next one.
abbrev lead : (b : ℕ) → Option (ℕ × ℕ × ℕ)
lead b =
    if ltb b 0x80
    then some (0, 0x80, 0xBF)
    else if ltb b 0xC2
    then none
    else if ltb b 0xE0
    then some (1, 0x80, 0xBF)
    else if b == 0xE0
    then some (2, 0xA0, 0xBF)
    else if b == 0xED
    then some (2, 0x80, 0x9F)
    else if ltb b 0xF0
    then some (2, 0x80, 0xBF)
    else if b == 0xF0
    then some (3, 0x90, 0xBF)
    else if ltb b 0xF4
    then some (3, 0x80, 0xBF)
    else if b == 0xF4
    then some (3, 0x80, 0x8F)
    else none

utf8_from : (needed low high : ℕ) → List ℕ → Bool
utf8_from zero low high [] = true
utf8_from (suc n) low high [] = false
utf8_from zero low high (b ∷ bs) = elim (lead b) [
  | none ↦ false
  | some (n, low', high') ↦ utf8_from n low' high' bs
]
utf8_from (suc n) low high (b ∷ bs) = leb low b && leb b high && utf8_from n 0x80 0xBF bs

-- `from_utf8` succeeds.
unfoldable pub valid_utf8 : List ℕ → Bool
unfolding utf8_from
valid_utf8 bytes = utf8_from 0 0x80 0xBF bytes

unfoldable pub starts_with : (pattern text : List ℕ) → Bool
starts_with [] text = true
starts_with (p ∷ ps) [] = false
starts_with (p ∷ ps) (c ∷ cs) = (p == c) && starts_with ps cs

-- `replace`, behind `skip` bytes of a match
unfoldable pub replace_from : (pattern to : List ℕ) → (skip : ℕ) → List ℕ → List ℕ
unfolding starts_with
replace_from pattern to skip [] = []
replace_from pattern to (suc skip) (c ∷ cs) = replace_from pattern to skip cs
replace_from pattern to zero (c ∷ cs) =
    let found = starts_with pattern (c ∷ cs) in
    let rest = replace_from pattern to (if found then length pattern - 1 else 0) cs in
    if found then to ++ rest else c ∷ rest

-- For a pattern that is not empty.
unfoldable pub replace : (pattern to text : List ℕ) → List ℕ
unfolding replace_from
replace pattern to text = replace_from pattern to 0 text

-- The decimal digits in front of `rest`, of a number that has at most so many.
digits : (most n : ℕ) → (rest : List ℕ) → List ℕ
digits zero n rest = rest
digits (suc most) n rest =
    let here = (48 + n % 10) ∷ rest in if ltb n 10 then here else digits most (n / 10) here

-- `{}` of a `u32`, which has ten digits at most
unfoldable pub decimal : ℕ → List ℕ
unfolding digits
decimal n = digits 10 n []

-- `{:02}`
unfoldable pub two_digits : ℕ → List ℕ
unfolding decimal
two_digits n = if ltb n 10 then 48 ∷ decimal n else decimal n
