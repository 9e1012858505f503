-- ===== src/Logger/Lines.antt =====
-- src/logger.rs: what the serial line carries for one record.
use sprocket.Base.{
  ℕ, zero, suc, ◌+◌, ◌-◌, ◌≡◌, refl, sym, ap, ◌∙◌, Bool, true, false, ◌||◌, none, some, List, [],
  ◌∷◌, ◌++◌, length, drop, replicate, arith, ◌==◌, done, then_done,
}
use Prim.Native.String.{String}
use mathlib.Core.List.{append_assoc, append-nil}
use sprocket.Port.{Io}
use sprocket.Console.{Console, write_str, shown, shown_all, write_str-shown}
use sprocket.Uart.{Serial}
use sprocket.Logger.{
  LogLevel, letter_color, esc, reset, text, codes, rfind_separator, last_component, padded, enabled,
  log,
}

abbrev pub has_colon : List ℕ → Bool
has_colon [] = false
has_colon (c ∷ cs) = (c == b':') || has_colon cs

rfind_separator-none : (name : List ℕ) → has_colon name ≡ false → rfind_separator name ≡ none
unfolding rfind_separator
rfind_separator-none [] h = refl
rfind_separator-none (a ∷ []) h = refl
rfind_separator-none (a ∷ b ∷ name) h =
    ground (arith, rfind_separator-none (b ∷ name) (ground arith))

rfind_separator-here :
    (name : List ℕ) → has_colon name ≡ false → rfind_separator (b':' ∷ b':' ∷ name) ≡ some 0
unfolding rfind_separator
rfind_separator-here [] h = refl
rfind_separator-here (a ∷ name) h = rw (rfind_separator-none (a ∷ name) h) (ground arith)

rfind_separator_lem :
    (path name : List ℕ)
    → has_colon name ≡ false
    → rfind_separator (path ++ b':' ∷ b':' ∷ name) ≡ some (length path)
unfolding rfind_separator
rfind_separator_lem [] name h = rfind_separator-here name h
rfind_separator_lem (a ∷ path) name h = rw (rfind_separator_lem path name h) (ground arith)

drop-path :
    (path name : List ℕ) (n : ℕ) → n ≡ length path + 2 → drop n (path ++ b':' ∷ b':' ∷ name) ≡ name
drop-path [] name n e = rw e refl
drop-path (a ∷ path) name zero e = absurd (omega arith)
drop-path (a ∷ path) name (suc n) e = drop-path path name n (omega arith)

last_component_lem :
    (path name : List ℕ)
    → has_colon name ≡ false
    → last_component (path ++ b':' ∷ b':' ∷ name) ≡ name
unfolding last_component
last_component_lem path name h =
    rw (last_component, rfind_separator_lem path name h)
      (drop-path path name (length path + 2) refl)

shown_all-append : (a b : List ℕ) → shown_all (a ++ b) ≡ shown_all a ++ shown_all b
unfolding shown_all
shown_all-append [] b = refl
shown_all-append (x ∷ a) b =
    ap (λ l. shown x ++ l) (shown_all-append a b)
    ∙ sym (append_assoc (shown x) (shown_all a) (shown_all b))

-- a text and, if it is shorter, blanks up to so many columns
abbrev pub in_columns : (columns : ℕ) → List ℕ → List ℕ
in_columns zero name = name
in_columns (suc n) [] = b' ' ∷ in_columns n []
in_columns (suc n) (c ∷ name) = c ∷ in_columns n name

in_columns-blank : (n : ℕ) → replicate n b' ' ≡ in_columns n []
in_columns-blank zero = refl
in_columns-blank (suc n) = ap (λ l. b' ' ∷ l) (in_columns-blank n)

in_columns_lem :
    (n : ℕ) (name : List ℕ) → name ++ replicate (n - length name) b' ' ≡ in_columns n name
in_columns_lem zero name =
    let none_left : 0 - length name ≡ 0 = omega arith in rw none_left (append-nil name)
in_columns_lem (suc n) [] =
    let all : suc n - 0 ≡ suc n = omega arith in
    ap (λ k. replicate k b' ') all ∙ in_columns-blank (suc n)
in_columns_lem (suc n) (c ∷ name) =
    let same : suc n - suc (length name) ≡ n - length name = omega arith in
    rw same (ap (λ l. c ∷ l) (in_columns_lem n name))

-- The line for a record, but for the escapes of the terminal: nothing for a trace, else the level's
-- letter in black on the level's colour, the name of the module in ten columns, and the text.
abbrev painted : (background letter : String) (name args : List ℕ) → List ℕ
painted background letter name args =
    (0x1b ∷ codes background ++ 0x1b ∷ codes "[30m" ++ codes letter ++ 0x1b ∷ codes "[0m")
    ++ b' ' ∷ in_columns 10 name
    ++ b' ' ∷ args
    ++ 10 ∷ []

abbrev pub record_line : LogLevel → (name args : List ℕ) → List ℕ
record_line LogLevel.error name args = painted "[41m" " E " name args
record_line LogLevel.warn name args = painted "[43m" " W " name args
record_line LogLevel.info name args = painted "[42m" " I " name args
record_line LogLevel.debug name args = painted "[44m" " D " name args
record_line LogLevel.trace name args = []

-- The three texts that are written for a record.
abbrev pieces : LogLevel → (name args : List ℕ) → List ℕ
pieces level name args =
    (esc
      ++ (letter_color level).1
      ++ text
      ++ codes " "
      ++ (letter_color level).0 ∷ codes " "
      ++ reset)
    ++ ((codes " " ++ padded name ++ codes " ") ++ (args ++ codes "\n"))

pieces-record_line :
    (level : LogLevel) (name args : List ℕ)
    → enabled level ≡ true
    → pieces level name args ≡ record_line level name args
unfolding enabled
pieces-record_line LogLevel.error name args on = rw (in_columns_lem 10 name) (simp append_assoc)
pieces-record_line LogLevel.warn name args on = rw (in_columns_lem 10 name) (simp append_assoc)
pieces-record_line LogLevel.info name args on = rw (in_columns_lem 10 name) (simp append_assoc)
pieces-record_line LogLevel.debug name args on = rw (in_columns_lem 10 name) (simp append_assoc)
pieces-record_line LogLevel.trace name args on = absurd (ground (arith, on))

module _ {S : Type 0} (io : Io S) (line : Serial io) (c : Console) (present : c.uart ≡ true) where
  log-skips :
      (level : LogLevel) (loc args : List ℕ) (s : S)
      → enabled level ≡ false
      → log io c level loc args s ≡ done tt s
  unfolding log
  log-skips level loc args s off = rw off refl

  log-writes :
      (level : LogLevel) (loc name args : List ℕ) (s : S)
      → last_component loc ≡ name
      → enabled level ≡ true
      → (s' : S) × (log io c level loc args s ≡ done tt s')
        × (line.sent s' ≡ line.sent s ++ shown_all (pieces level name args))
  unfolding log
  log-writes level loc name args s e on =
      let head =
        esc
        ++ (letter_color level).1
        ++ text
        ++ codes " "
        ++ (letter_color level).0 ∷ codes " "
        ++ reset in
      let middle = codes " " ++ padded name ++ codes " " in
      let end = args ++ codes "\n" in
      let (t, run, sent) = write_str-shown io line c present head s in
      let (t', run', sent') = write_str-shown io line c present middle t in
      let (t'', run'', sent'') = write_str-shown io line c present end t' in
      (
        t'',
        rw (on, e)
            (then_done (write_str io c head) _ run
              (then_done (write_str io c middle) (write_str io c end) run' run'')),
        rw (sent'', sent', sent, shown_all-append head (middle ++ end), shown_all-append middle end)
            (simp append_assoc),
      )

  log-shows :
      (level : LogLevel) (path name args : List ℕ) (s : S)
      → has_colon name ≡ false
      → enabled level ≡ true
      → pieces level name args ≡ record_line level name args
      → (s' : S) × (log io c level (path ++ b':' ∷ b':' ∷ name) args s ≡ done tt s')
        × (line.sent s' ≡ line.sent s ++ shown_all (record_line level name args))
  log-shows level path name args s h on same =
      let (s', run, sent) =
        log-writes level (path ++ b':' ∷ b':' ∷ name) name args s (last_component_lem path name h)
          on in
      (s', run, sent ∙ ap (λ l. line.sent s ++ shown_all l) same)

  -- With a serial port, logging a record ends without a fault. A trace writes nothing. For each other
  -- level, the line carries the letter E, W, I or D in black on red, yellow, green or blue, the part
  -- of the module path behind the last `::`, with blanks up to ten columns, and the text.
  pub log_lem :
      (level : LogLevel) (path name args : List ℕ) (s : S)
      → has_colon name ≡ false
      → (s' : S) × (log io c level (path ++ b':' ∷ b':' ∷ name) args s ≡ done tt s')
        × (line.sent s' ≡ line.sent s ++ shown_all (record_line level name args))
  unfolding enabled shown_all
  log_lem LogLevel.error path name args s h =
      log-shows LogLevel.error path name args s h refl
        (pieces-record_line LogLevel.error name args refl)
  log_lem LogLevel.warn path name args s h =
      log-shows LogLevel.warn path name args s h refl
        (pieces-record_line LogLevel.warn name args refl)
  log_lem LogLevel.info path name args s h =
      log-shows LogLevel.info path name args s h refl
        (pieces-record_line LogLevel.info name args refl)
  log_lem LogLevel.debug path name args s h =
      log-shows LogLevel.debug path name args s h refl
        (pieces-record_line LogLevel.debug name args refl)
  log_lem LogLevel.trace path name args s h = (
    s,
    log-skips LogLevel.trace (path ++ b':' ∷ b':' ∷ name) args s refl,
    sym (append-nil (line.sent s)),
  )
