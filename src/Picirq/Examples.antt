-- ===== src/Picirq/Examples.antt =====
-- The line of the network card, on a machine that records the last bytes written.
use sprocket.Base.{ℕ, ◌≡◌, done, refl, [], List, ◌∷◌}
use sprocket.Port.{Io}
use sprocket.Picirq.{new_mask, enable_irq}

-- all writes, the last one first
abbrev Log : Type 0
Log = List (ℕ × ℕ)

abbrev log_io : Io Log
log_io = record {
  in_byte = λ _ s. (0, s);
  in_word = λ _ s. (0, s);
  in_long = λ _ s. (0, s);
  out_byte = λ port v s. (port, v) ∷ s;
  out_word = λ _ _ s. s;
  out_long = λ _ _ s. s;
  in_longs = λ _ _ s. ([], s);
  out_longs = λ _ _ s. s;
}

enable_irq_runs :
    enable_irq log_io new_mask 11 []
    ≡ done (record { mask = 0xF7FB }) ((0xA1, 0xF7) ∷ (0x21, 0xFB) ∷ [])
unfolding enable_irq
enable_irq_runs = refl
