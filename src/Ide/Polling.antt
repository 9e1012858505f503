-- ===== src/Ide/Polling.antt =====
-- `wait` of src/ide.rs on a disk that becomes ready after some time.
use sprocket.Base.{
  ℕ, zero, suc, ◌+◌, ◌*◌, ◌/◌, ◌%◌, ◌^◌, ◌<◌, ◌≡◌, ap, ◌∙◌, ◌⊎◌, inl, inr, true, false, ◌&&◌, ◌==◌,
  if◌then◌else◌, bit, bit_and, bit_and_high, bit_and_low, bit_and_fields, done, arith,
}
use sprocket.SimpleFs.Types.{io_error}
use sprocket.Port.{Io}
use sprocket.Ide.{good, bad, wait, ready, status_result}

-- The two bits that `wait` tests, as one field.
state_field : (r : ℕ) → bit_and r 0xc0 ≡ r / 64 % 4 * 64
state_field r = omega (arith, bit_and_high 6 r 3, bit_and_low 2 (r / 2 ^ 6))

ready-ready : (r : ℕ) → bit r 7 ≡ 0 → bit r 6 ≡ 1 → ready r ≡ true
ready-ready r free set = ground (arith, state_field r)

ready-busy : (r : ℕ) → (bit r 7 ≡ 1) ⊎ (bit r 6 ≡ 0) → ready r ≡ false
ready-busy r (inl busy) = ground (arith, state_field r)
ready-busy r (inr unset) = ground (arith, state_field r)

error_field : (r : ℕ) → bit_and r 0x21 ≡ bit r 5 * 32 + bit r 0
error_field r =
    let split : r ≡ r / 32 * 2 ^ 5 + r % 32 = omega arith in
    ap (λ x. bit_and x 0x21) split
    ∙ bit_and_fields 5 (r / 32) (r % 32) 1 1 (omega arith) (omega arith)
    ∙ omega (arith, bit_and_low 1 (r / 32), bit_and_low 1 (r % 32))

result :
    (r : ℕ) → status_result r ≡ (if (bit r 5 == 0) && (bit r 0 == 0) then good tt else bad io_error)
result r = ground (arith, error_field r)

module _ {S : Type 0} (io : Io S) where
  -- the machine after some reads of the status
  abbrev pub polled : ℕ → S → S
  polled zero s = s
  polled (suc n) s = polled n (io.in_byte 0x1f7 s).1

  -- the status that is read next after that
  abbrev pub status : ℕ → S → ℕ
  status n s = (io.in_byte 0x1f7 (polled n s)).0

  -- If the status has the busy bit (7) set or the ready bit (6) clear for k polls, and then the busy bit
  -- clear and the ready bit set, wait ends after just one poll more, however many rounds it could go
  -- on. The result is good if this last status has neither the fault bit (5) nor the error bit (0)
  -- set, and an I/O error otherwise.
  pub wait_lem :
      (k rounds : ℕ) (s : S)
      → k < rounds
      → ((j : ℕ) → j < k → (bit (status j s) 7 ≡ 1) ⊎ (bit (status j s) 6 ≡ 0))
      → bit (status k s) 7 ≡ 0
      → bit (status k s) 6 ≡ 1
      → wait io rounds s
        ≡ done
            (if (bit (status k s) 5 == 0) && (bit (status k s) 0 == 0)
              then good tt
              else bad io_error)
            (polled (suc k) s)
  unfolding wait
  wait_lem k zero s h busy free set = absurd (omega arith)
  wait_lem zero (suc n) s h busy free set =
      rw (ready-ready (status zero s) free set)
        (ap (λ r. done r (polled 1 s)) (result (status zero s)))
  wait_lem (suc k) (suc n) s h busy free set =
      rw (ready-busy (status zero s) (busy zero (omega arith))) (
        wait_lem k n (io.in_byte 0x1f7 s).1 (omega arith) (λ j below. busy (suc j) (omega arith))
          free set)
