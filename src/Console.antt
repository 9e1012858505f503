-- ===== src/Console.antt =====
-- src/console.rs: the console, a serial port or nothing. Formatting is Rust's library; the bytes
-- that it produces come in through `write_str`.
pub mod Ends
pub mod Examples
use sprocket.Base.{
  ℕ, ◌≡◌, refl, sym, ap, ◌∙◌, Bool, true, false, Option, none, List, [], ◌∷◌, ◌++◌, inl, inr, arith,
  ◌==◌, Bool-cases, then_done, if◌then◌else◌, done, Cmd, pure, ◌>>=◌, ◌>>◌,
}
use mathlib.Core.List.{append_assoc, append-nil}
use sprocket.Port.{Io}
use sprocket.Picirq.{Mask}
use sprocket.Uart
use sprocket.Uart.{Serial}

abbrev pub backspace : ℕ
backspace = 0x08

abbrev pub ascii_backspace : ℕ
ascii_backspace = 0x7f

-- Is there a serial port?
pub record Console : Type 0 where
  pub uart : Bool

module _ {S : Type 0} (io : Io S) where
  -- `Console::new`, with the new value of `UART_INITIALIZED` and the mask
  unfoldable pub new : (initialized : Bool) → Mask → Cmd S (Console × Bool × Mask)
  new initialized m = do
    (present, initialized', m') ← Uart.new io initialized m
    pure (record { uart = present }, initialized', m')

  write_byte : Console → ℕ → Cmd S (Unit {0})
  write_byte c b =
      if c.uart
      then (if b == ascii_backspace
          then (do
            Uart.write_byte io backspace
            Uart.write_byte io b' '
            Uart.write_byte io backspace)
          else if b == b'\r'
          then Uart.write_byte io b'\n'
          else Uart.write_byte io b)
      else pure tt

  unfoldable pub read_byte : Console → Cmd S (Option ℕ)
  read_byte c = if c.uart then Uart.read_byte io else pure none

  unfoldable pub write_str : Console → List ℕ → Cmd S (Unit {0})
  unfolding write_byte
  write_str c [] = pure tt
  write_str c (b ∷ bs) = do write_byte c b; write_str c bs

-- What the line shows for one byte: a deletion erases a character, a return becomes a newline.
unfoldable pub shown : ℕ → List ℕ
shown b =
    if b == ascii_backspace
    then backspace ∷ b' ' ∷ backspace ∷ []
    else if b == b'\r'
    then b'\n' ∷ []
    else b ∷ []

unfoldable pub shown_all : List ℕ → List ℕ
unfolding shown
shown_all [] = []
shown_all (b ∷ bs) = shown b ++ shown_all bs

module _ {S : Type 0} (io : Io S) (line : Serial io) (c : Console) (present : c.uart ≡ true) where
  write_byte-shown :
      (b : ℕ) (s : S)
      → (s' : S) × (write_byte io c b s ≡ done tt s') × (line.sent s' ≡ line.sent s ++ shown b)
  unfolding write_byte shown
  write_byte-shown b s = elim (Bool-cases (b == ascii_backspace)) [
    | inl erase ↦
        let (t, run, sent) = Uart.write_byte-sent io line backspace s in
        let (t', run', sent') = Uart.write_byte-sent io line b' ' t in
        let (t'', run'', sent'') = Uart.write_byte-sent io line backspace t' in
        (
          t'',
          rw (present, erase)
              (then_done (Uart.write_byte io backspace) _ run
                (then_done (Uart.write_byte io b' ') (Uart.write_byte io backspace) run' run'')),
          rw (erase, sent'', sent', sent) (simp append_assoc),
        )
    | inr plain ↦ elim (Bool-cases (b == b'\r')) [
      | inl return ↦
          let (t, run, sent) = Uart.write_byte-sent io line b'\n' s in
          (t, rw (present, plain, return) run, rw (plain, return) sent)
      | inr other ↦
          let (t, run, sent) = Uart.write_byte-sent io line b s in
          (t, rw (present, plain, other) run, rw (plain, other) sent)
    ]
  ]

  -- With a serial port, writing a text ends without a fault, and what goes over the line is what
  -- each of its bytes shows, in order.
  pub write_str-shown :
      (bs : List ℕ) (s : S)
      → (s' : S) × (write_str io c bs s ≡ done tt s') × (line.sent s' ≡ line.sent s ++ shown_all bs)
  unfolding write_str shown_all
  write_str-shown [] s = (s, refl, sym (append-nil (line.sent s)))
  write_str-shown (b ∷ bs) s =
      let (t, run, sent) = write_byte-shown b s in
      let (t', run', sent') = write_str-shown bs t in
      (
        t',
        then_done (write_byte io c b) (write_str io c bs) run run',
        rw (sent', sent) (append_assoc (line.sent s) (shown b) (shown_all bs)),
      )
