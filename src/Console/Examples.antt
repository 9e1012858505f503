-- ===== src/Console/Examples.antt =====
-- A serial line that is never ready, and the theorems of the serial port and the console at it.
use sprocket.Base.{ℕ, ◌≡◌, refl, true, List, [], ◌∷◌, ◌++◌, ◌==◌, if◌then◌else◌}
use sprocket.Port.{Io}
use sprocket.Uart.{Serial}
use sprocket.Console.{Console, shown_all}

-- the bytes sent so far
abbrev pub Line : Type 0
Line = List ℕ

abbrev pub line_io : Io Line
line_io = record {
  in_byte = λ _ s. (0, s);
  in_word = λ _ s. (0, s);
  in_long = λ _ s. (0, s);
  out_byte = λ port v s. if port == 0x3f8 then s ++ v ∷ [] else s;
  out_word = λ _ _ s. s;
  out_long = λ _ _ s. s;
  in_longs = λ _ _ s. ([], s);
  out_longs = λ _ _ s. s;
}

abbrev pub serial : Serial line_io
serial = record { sent = λ s. s; status_reads = λ s. refl; data_writes = λ c s. refl }

abbrev pub console : Console
console = record { uart = true }

shown_all_runs : shown_all (b'h' ∷ 0x7f ∷ 13 ∷ []) ≡ b'h' ∷ 8 ∷ 32 ∷ 8 ∷ 10 ∷ []
unfolding shown_all
shown_all_runs = refl
