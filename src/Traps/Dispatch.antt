-- ===== src/Traps/Dispatch.antt =====
-- src/traps.rs, lines 96 to 124: the handler of all traps, over the statics that it locks. Output of
-- the logging macros is left out. The sum that counts the ticks is checked for overflow, as in the build
-- without optimization, the only one that the Makefile makes.
use sprocket.Base.{
  ℕ, ◌+◌, ◌/◌, ◌%◌, ◌^◌, Option, none, some, List, [], ◌∷◌, ltb, if◌then◌else◌, Cmd, pure, panic,
  ◌>>=◌, ◌>>◌,
}
use sprocket.Port.{Io}
use sprocket.Irq.{Interrupt}
use sprocket.Console
use sprocket.Console.{Console}
use sprocket.Rtl8139.{Rtl8139, interrupt}

-- `CONSOLE`, `NIC` and `TICKS`
pub record Statics : Type 0 where
  pub console : Console
  pub nic : Option Rtl8139
  pub ticks : ℕ

-- `c as char`, as the formatting of Rust encodes it
abbrev pub utf8 : ℕ → List ℕ
utf8 c = if ltb c 0x80 then c ∷ [] else (0xC0 + c / 64) ∷ (0x80 + c % 64) ∷ []

module _ {S : Type 0} (io : Io S) where
  unfoldable pub trap : Statics → (trapno : Interrupt) → Cmd S Statics
  unfolding Console.read_byte Console.write_str interrupt
  trap k Interrupt.com1_int = do
    ch ← Console.read_byte io k.console
    elim ch [ none ↦ pure k | some c ↦ do Console.write_str io k.console (utf8 c); pure k ]
  trap k Interrupt.network_int = elim k.nic [
    | none ↦ pure k
    | some n ↦ do n' ← interrupt io n; pure (record k { nic = some n' })
  ]
  trap k Interrupt.timer_int =
      if ltb (k.ticks + 1) (2 ^ 32) then pure (record k { ticks = k.ticks + 1 }) else (λ _. panic)
  trap k Interrupt.page_fault = λ _. panic
  trap k _ = pure k
