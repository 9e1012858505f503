-- ===== src/Console/Ends.antt =====
-- src/console.rs and src/uart.rs: the console's output ends, whatever the serial port answers, and its
-- start enables the line of the port if there is one.
use sprocket.Base.{
  ℕ, zero, suc, ◌<◌, ◌≡◌, refl, Bool, true, false, not, ◌&&◌, List, [], ◌∷◌, arith, ◌==◌,
  if◌then◌else◌, none, some, bit_and, bit, all_below, passes_below, ==_iff, Ensures, Ends,
  pure-Ensures, bind-Ensures, if-Ensures, then-Ensures,
}
use sprocket.Port.{Io, inb, outb}
use sprocket.Picirq.{Mask, new_mask, enable_irq}
use sprocket.Picirq.Lines.{enable_irq_lem}
use sprocket.Irq.{com1_irq}
use sprocket.Uart
use sprocket.Console.{Console, new, read_byte, write_str, write_byte}

-- The lines that are masked after the start of the console.
abbrev pub ConsoleLines : (present : Bool) → Mask → Type 0
ConsoleLines present m =
    (j : ℕ) → j < 16 → bit m.mask j ≡ (if j == 2 then 0 else if present && (j == 4) then 0 else 1)

module _ {S : Type 0} (io : Io S) where
  pub outb-Ends : (port v : ℕ) → Ends (outb io port v)
  outb-Ends port v s = (tt, io.out_byte port v s, refl, tt)

  pub inb-Ends : (port : ℕ) → Ends (inb io port)
  inb-Ends port s = ((io.in_byte port s).0, (io.in_byte port s).1, refl, tt)

  await_ready-Ends : (rounds : ℕ) → Ends (Uart.await_ready io rounds)
  unfolding Uart.await_ready
  await_ready-Ends zero = pure-Ensures tt tt
  await_ready-Ends (suc n) = bind-Ensures (inb io 0x3fd) _ (inb-Ends 0x3fd) (λ status _.
      if-Ensures (not (bit_and status 0x20 == 0)) (pure-Ensures tt tt) (await_ready-Ends n))

  uart_write_byte-Ends : (b : ℕ) → Ends (Uart.write_byte io b)
  unfolding Uart.write_byte
  uart_write_byte-Ends b =
      then-Ensures (Uart.await_ready io 128) (outb io 0x3f8 b) (await_ready-Ends 128)
        (outb-Ends 0x3f8 b)

  write_byte-Ends : (c : Console) (b : ℕ) → Ends (write_byte io c b)
  unfolding write_byte
  write_byte-Ends c b =
      if-Ensures c.uart
        (if-Ensures (b == 0x7f)
          (then-Ensures (Uart.write_byte io 8) _ (uart_write_byte-Ends 8) (
            then-Ensures (Uart.write_byte io 32) _ (uart_write_byte-Ends 32)
              (uart_write_byte-Ends 8)))
          (if-Ensures (b == 13) (uart_write_byte-Ends 10) (uart_write_byte-Ends b)))
        (pure-Ensures tt tt)

  pub read_byte-Ends : (c : Console) → Ends (read_byte io c)
  unfolding read_byte Uart.read_byte
  read_byte-Ends c =
      if-Ensures c.uart
        (bind-Ensures (inb io 0x3fd) _ (inb-Ends 0x3fd) (λ status _.
          if-Ensures (bit_and status 0x01 == 0) (pure-Ensures none tt)
            (bind-Ensures (inb io 0x3f8) _ (inb-Ends 0x3f8) (λ b _. pure-Ensures (some b) tt))))
        (pure-Ensures none tt)

  pub write_str-Ends : (c : Console) (bs : List ℕ) → Ends (write_str io c bs)
  unfolding write_str
  write_str-Ends c [] = pure-Ensures tt tt
  write_str-Ends c (b ∷ bs) =
      then-Ensures (write_byte io c b) (write_str io c bs) (write_byte-Ends c b)
        (write_str-Ends c bs)

  first_mask : ConsoleLines false new_mask
  unfolding all_below
  first_mask j lt =
      (==_iff (bit 65531 j) (if j == 2 then 0 else 1)).0
        (passes_below (λ j. bit 65531 j == (if j == 2 then 0 else 1)) j 16 lt refl)

  enable_com1 : Ensures (λ m. ConsoleLines true m) (enable_irq io new_mask com1_irq)
  enable_com1 s =
      let (m, run, bits) = enable_irq_lem io new_mask com1_irq s (omega arith) in
      (m, _, run, λ j lt. ground (arith, bits j lt, first_mask j lt))

  probe-Ensures : Ensures (λ r. ConsoleLines r.0 r.1) (Uart.probe io new_mask)
  unfolding Uart.probe
  probe-Ensures = bind-Ensures (inb io 0x3fd) _ (inb-Ends 0x3fd) (λ status _.
      if-Ensures (status == 0xFF) (pure-Ensures (false, new_mask) first_mask) (
        then-Ensures (inb io 0x3fa) _ (inb-Ends 0x3fa) (
          then-Ensures (inb io 0x3f8) _ (inb-Ends 0x3f8) (
            bind-Ensures (enable_irq io new_mask com1_irq) _ enable_com1
              (λ m lines. pure-Ensures (true, m) lines)))))

  init-Ensures : Ensures (λ r. ConsoleLines r.0 r.1) (Uart.init io new_mask)
  unfolding Uart.init
  init-Ensures s = probe-Ensures _

  pub new-Ensures : Ensures (λ r. ConsoleLines r.0.uart r.2) (new io false new_mask)
  unfolding new Uart.new
  new-Ensures =
      bind-Ensures _ _
        (bind-Ensures (Uart.init io new_mask) _ init-Ensures
          (λ (present, m) lines. pure-Ensures (present, true, m) lines))
        (λ (present, initialized, m) lines.
          pure-Ensures (record { uart = present }, initialized, m) lines)
