-- ===== src/Logger.antt =====
-- src/logger.rs: the log lines on the console. A text is the list of its bytes, and a module path is
-- ASCII; `rfind` and the padding of the formatting are Rust's library. The filter of the crate log is
-- set to let every level through.
pub mod Lines
pub mod Ends
mod Examples
use Prim.Native.Char.{code}
use Prim.Native.String.{String}
use sprocket.Base.{
  ℕ, zero, suc, ◌+◌, ◌-◌, ◌≡◌, ◌≢◌, refl, sym, ap, ap₂, ◌∙◌, Bool, true, false, ◌&&◌, Option, none,
  some, List, [], ◌∷◌, ◌++◌, length, drop, replicate, inl, inr, Bool-cases, arith, leb, ◌==◌,
  if◌then◌else◌, done, then_done, Cmd, pure, ◌>>=◌, ◌>>◌,
}
use mathlib.Core.List.{append_assoc}
use sprocket.Port.{Io}
use sprocket.Console.{Console, write_str, shown_all, write_str-shown}
use sprocket.Uart.{Serial}

-- The bytes of a literal.
abbrev pub codes : String → List ℕ
codes String.[] = []
codes (String.◌∷◌ c s) = code c ∷ codes s

-- `LogLevel`, with its order
pub data LogLevel : Type 0 where
  error warn info debug trace : LogLevel

abbrev pub rank : LogLevel → ℕ
rank LogLevel.error = 1
rank LogLevel.warn = 2
rank LogLevel.info = 3
rank LogLevel.debug = 4
rank LogLevel.trace = 5

unfoldable pub enabled : LogLevel → Bool
enabled level = leb (rank level) (rank LogLevel.debug)

-- the letter of a level and its colour
abbrev pub letter_color : LogLevel → ℕ × List ℕ
letter_color LogLevel.error = (b'E', codes "41m")
letter_color LogLevel.warn = (b'W', codes "43m")
letter_color LogLevel.info = (b'I', codes "42m")
letter_color LogLevel.debug = (b'D', codes "44m")
letter_color LogLevel.trace = (b'T', codes "47m")

abbrev pub esc : List ℕ
esc = 0x1b ∷ codes "["

abbrev pub reset : List ℕ
reset = 0x1b ∷ codes "[0m"

abbrev pub text : List ℕ
text = 0x1b ∷ codes "[30m"

-- Does the text begin with `::`?
abbrev pub at_separator : List ℕ → Bool
at_separator (a ∷ b ∷ _) = (a == b':') && (b == b':')
at_separator _ = false

-- `rfind("::")`
unfoldable pub rfind_separator : List ℕ → Option ℕ
rfind_separator [] = none
rfind_separator (a ∷ loc) = elim (rfind_separator loc) [
  | some i ↦ some (i + 1)
  | none ↦ if at_separator (a ∷ loc) then some 0 else none
]

-- `&loc[idx..]`
unfoldable pub last_component : (loc : List ℕ) → List ℕ
unfolding rfind_separator
last_component loc = elim (rfind_separator loc) [ some i ↦ drop (i + 2) loc | none ↦ drop 0 loc ]

-- `{:<10}`
abbrev pub padded : List ℕ → List ℕ
padded name = name ++ replicate (10 - length name) b' '

module _ {S : Type 0} (io : Io S) where
  -- `log`; `loc` is the module path of the record and `args` its text
  unfoldable pub log : Console → LogLevel → (loc args : List ℕ) → Cmd S (Unit {0})
  unfolding enabled last_component
  log out level loc args =
      if enabled level
      then (do
        let (letter, color_code) = letter_color level
        write_str io out (esc ++ color_code ++ text ++ codes " " ++ letter ∷ codes " " ++ reset)
        write_str io out (codes " " ++ padded (last_component loc) ++ codes " ")
        write_str io out (args ++ codes "\n"))
      else pure tt
