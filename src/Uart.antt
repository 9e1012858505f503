-- ===== src/Uart.antt =====
-- src/uart.rs: the serial port COM1. The struct `Uart` has no fields; the static
-- `UART_INITIALIZED` and the mask of the interrupt controllers are passed in and returned.
use sprocket.Base.{
  ℕ, zero, suc, ◌+◌, ◌/◌, ◌≡◌, refl, ap, ◌∙◌, List, [], ◌∷◌, ◌++◌, inl, inr, done, Bool-cases,
  then_done, bit_and, Bool, true, false, not, Option, none, some, ◌==◌, if◌then◌else◌, u8, Cmd,
  pure, ◌>>=◌, ◌>>◌,
}
use sprocket.Port.{Io, inb, outb}
use sprocket.Irq.{com1_irq}
use sprocket.Picirq.{Mask, enable_irq}

abbrev pub com1 : ℕ
com1 = 0x3f8

module _ {S : Type 0} (io : Io S) where
  -- `init` from the read of the status on; `true` is `Ok(Uart)`.
  unfoldable pub probe : Mask → Cmd S (Bool × Mask)
  probe m = do
    status ← inb io (com1 + 5)
    if status == 0xFF
        then pure (false, m)
        else do inb io (com1 + 2); inb io com1; m' ← enable_irq io m com1_irq; pure (true, m')

  unfoldable pub init : Mask → Cmd S (Bool × Mask)
  unfolding probe
  init m = do
    outb io com1 0
    outb io (com1 + 3) 0x80
    outb io com1 (u8 (115200 / 9600))
    outb io (com1 + 1) 0
    outb io (com1 + 3) 0x03
    outb io (com1 + 4) 0
    outb io (com1 + 1) 0x01
    probe m

  -- The result, the new value of `UART_INITIALIZED` and the mask.
  unfoldable pub new : (initialized : Bool) → Mask → Cmd S (Bool × Bool × Mask)
  unfolding init
  new initialized m =
      if not initialized
      then (do (present, m') ← init m; pure (present, true, m'))
      else pure (false, initialized, m)

  -- The `for` loop of `write_byte`, with the rounds that are left.
  unfoldable pub await_ready : ℕ → Cmd S (Unit {0})
  await_ready zero = pure tt
  await_ready (suc rounds) = do
    status ← inb io (com1 + 5)
    if not (bit_and status 0x20 == 0) then pure tt else await_ready rounds

  unfoldable pub write_byte : ℕ → Cmd S (Unit {0})
  unfolding await_ready
  write_byte c = do await_ready 128; outb io com1 c

  unfoldable pub read_byte : Cmd S (Option ℕ)
  read_byte = do
    status ← inb io (com1 + 5)
    if bit_and status 0x01 == 0 then pure none else do b ← inb io com1; pure (some b)

-- What the serial port's documentation says of `sent`, the bytes put on the line so far: a write to
-- the data port adds one, and reading the status changes nothing.
pub record Serial {S : Type 0} (io : Io S) : Type 0 where
  pub sent : S → List ℕ
  pub status_reads : (s : S) → sent (io.in_byte (com1 + 5) s).1 ≡ sent s
  pub data_writes : (c : ℕ) (s : S) → sent (io.out_byte com1 c s) ≡ sent s ++ c ∷ []

module _ {S : Type 0} (io : Io S) (line : Serial io) where
  await_ready-sent :
      (rounds : ℕ) (s : S)
      → (s' : S) × (await_ready io rounds s ≡ done tt s') × (line.sent s' ≡ line.sent s)
  unfolding await_ready
  await_ready-sent zero s = (s, refl, refl)
  await_ready-sent (suc rounds) s =
      let after = (io.in_byte (com1 + 5) s).1 in
      elim (Bool-cases (not (bit_and (io.in_byte (com1 + 5) s).0 0x20 == 0))) [
        | inl ready ↦ (after, rw ready, line.status_reads s)
        | inr busy ↦
            let (s', run, same) = await_ready-sent rounds after in
            (s', rw busy run, same ∙ line.status_reads s)
      ]

  -- The byte is sent once, whether or not the port became ready within the 128 rounds.
  pub write_byte-sent :
      (c : ℕ) (s : S)
      → (s' : S) × (write_byte io c s ≡ done tt s') × (line.sent s' ≡ line.sent s ++ c ∷ [])
  unfolding write_byte
  write_byte-sent c s =
      let (t, run, same) = await_ready-sent 128 s in
      (
        io.out_byte com1 c t,
        then_done (await_ready io 128) (outb io com1 c) run refl,
        line.data_writes c t ∙ ap (λ l. l ++ c ∷ []) same,
      )
