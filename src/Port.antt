-- ===== src/Port.antt =====
-- Port I/O as the drivers use it: the functions `inb`, `inw`, `inl`, `outb`, `outw`, `outl`, `insl`
-- and `outsl` of the x86 crate, which is not part of the repository. A machine is a type of states
-- with these operations; a driver takes it as a parameter.
use sprocket.Base.{ℕ, List, Cmd, done}

pub record Io (S : Type 0) : Type 0 where
  pub in_byte : ℕ → S → ℕ × S
  pub in_word : ℕ → S → ℕ × S
  pub in_long : ℕ → S → ℕ × S
  pub out_byte : ℕ → ℕ → S → S
  pub out_word : ℕ → ℕ → S → S
  pub out_long : ℕ → ℕ → S → S
  -- the number of 32-bit words to read
  pub in_longs : ℕ → ℕ → S → List ℕ × S
  pub out_longs : ℕ → List ℕ → S → S

module _ {S : Type 0} (io : Io S) where
  abbrev pub inb : ℕ → Cmd S ℕ
  inb port s = let (v, s') = io.in_byte port s in done v s'

  abbrev pub inw : ℕ → Cmd S ℕ
  inw port s = let (v, s') = io.in_word port s in done v s'

  abbrev pub inl : ℕ → Cmd S ℕ
  inl port s = let (v, s') = io.in_long port s in done v s'

  abbrev pub outb : ℕ → ℕ → Cmd S (Unit {0})
  outb port v s = done tt (io.out_byte port v s)

  abbrev pub outw : ℕ → ℕ → Cmd S (Unit {0})
  outw port v s = done tt (io.out_word port v s)

  abbrev pub outl : ℕ → ℕ → Cmd S (Unit {0})
  outl port v s = done tt (io.out_long port v s)

  abbrev pub insl : ℕ → ℕ → Cmd S (List ℕ)
  insl port count s = let (v, s') = io.in_longs port count s in done v s'

  abbrev pub outsl : ℕ → List ℕ → Cmd S (Unit {0})
  outsl port words s = done tt (io.out_longs port words s)
