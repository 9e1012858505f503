-- ===== src/Ide/PollingExamples.antt =====
-- A disk that is busy for two polls and then reports a fault.
use sprocket.Base.{ℕ, zero, suc, ◌<◌, ◌≡◌, refl, ◌⊎◌, inl, bit, [], done, arith, if◌then◌else◌, leb}
use sprocket.Port.{Io}
use sprocket.SimpleFs.Types.{io_error}
use sprocket.Ide.{wait, bad}
use sprocket.Ide.Polling.{status, wait_lem}

-- how many polls were made
abbrev slow_io : Io ℕ
slow_io = record {
  in_byte = λ _ s. (if leb 2 s then 0x60 else 0x80, suc s);
  in_word = λ _ s. (0, s);
  in_long = λ _ s. (0, s);
  out_byte = λ _ _ s. s;
  out_word = λ _ _ s. s;
  out_long = λ _ _ s. s;
  in_longs = λ _ _ s. ([], s);
  out_longs = λ _ _ s. s;
}

slow_io-busy : (j : ℕ) → j < 2 → (bit (status slow_io j 0) 7 ≡ 1) ⊎ (bit (status slow_io j 0) 6 ≡ 0)
slow_io-busy zero h = inl refl
slow_io-busy (suc zero) h = inl refl
slow_io-busy (suc (suc j)) h = absurd (omega arith)

wait_lem_example : wait slow_io 100 0 ≡ done (bad io_error) 3
wait_lem_example = wait_lem slow_io 2 100 0 (omega arith) slow_io-busy refl refl
