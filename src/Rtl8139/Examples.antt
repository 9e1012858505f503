-- ===== src/Rtl8139/Examples.antt =====
-- src/rtl8139.rs: a small card at the port 0xC000, and runs of the driver on it.
use sprocket.Base.{
  ℕ, zero, suc, ◌+◌, ◌-◌, ◌*◌, ◌/◌, ◌^◌, ◌<◌, ◌≡◌, refl, arith, Bool, true, ◌&&◌, List, [], ◌∷◌,
  ◌++◌, replicate, length-replicate, get_or, some, done, Option, Cmd, panic, ◌>>=◌, bit_and, ltb,
  ltb→lt, ◌==◌, if◌then◌else◌, u16, u32,
}
use sprocket.Port.{Io}
use sprocket.Rtl8139.{Rtl8139, interrupt}
use sprocket.Rtl8139.Device.{receive, drop_rx, transmit, drop_tx}
use sprocket.Rtl8139.Ring.{IsRing}
use sprocket.Rtl8139.Receive.{receive_lem, receive-drop_rx}
use sprocket.Rtl8139.Descriptors.{Card}
use sprocket.Rtl8139.Interrupt.{interrupt_lem}

pub record Chip : Type 0 where
  pub desc : ℕ → ℕ
  pub status : ℕ

abbrev pub index : ℕ → ℕ
index p = (p - 0xC010) / 4

abbrev pub chip_io : Io Chip
chip_io = record {
  in_byte = λ p s. (0, s);
  in_word = λ p s. (s.status, s);
  in_long = λ p s. (u32 (s.desc (index p)), s);
  out_byte = λ p v s. s;
  out_word =
      λ p v s. if p == 0xC03E then record s { status = bit_and s.status (0xffff - v) } else s;
  out_long = λ p v s. record s { desc = λ j. if j == index p then v else s.desc j };
  in_longs = λ p n s. ([], s);
  out_longs = λ p words s. s;
}

pub index_port : (i : ℕ) → i < 4 → index (u16 (0xC000 + (0x10 + 4 * i))) ≡ i
index_port i h = omega arith

unfoldable pub chip_card : Card chip_io 0xC000
chip_card = record {
  descriptor = λ s j. u32 (s.desc j);
  status = λ s. s.status;
  in_range = λ s i. omega arith;
  reads = λ s i h. rw (index_port i h) refl;
  read_keeps = λ s i j h. refl;
  read_keeps_status = λ s i h. refl;
  writes = λ s i j v h word. rw (index_port i h) (ground arith);
  status_reads = λ s. refl;
  status_read_keeps = λ s j. refl;
  status_clears = λ s v. refl;
  status_clear_keeps = λ s v j. refl;
}

-- Descriptor 0 was sent, and the other three are in flight.
abbrev pub idle : Chip
idle = record { desc = λ j. if j == 0 then 2 ^ 13 + 2 ^ 15 else 0; status = 4 }

abbrev pub payload : List ℕ
payload = 1 ∷ 2 ∷ 3 ∷ 4 ∷ 5 ∷ 6 ∷ 7 ∷ 8 ∷ 9 ∷ 10 ∷ 11 ∷ 12 ∷ []

abbrev pub card : Rtl8139
card = record {
  pci = record { bus = 0; slot = 3; func = 0 };
  iobase = 0xC000;
  rx_buffer = (1 ∷ 0 ∷ 12 ∷ 0 ∷ payload) ++ replicate 9692 0;
  tx_buffer = replicate 4 (replicate 2048 0);
  tx_offset = 0;
  free_tx_buffers = 2;
  rx_offset = 0;
}

abbrev all_bytes : List ℕ → Bool
all_bytes [] = true
all_bytes (x ∷ xs) = ltb x 256 && all_bytes xs

byte_in : (xs : List ℕ) (n i : ℕ) → all_bytes xs ≡ true → get_or (xs ++ replicate n 0) i 0 < 256
byte_in [] zero i h = omega arith
byte_in [] (suc n) zero h = omega arith
byte_in [] (suc n) (suc i) h = byte_in [] n i h
byte_in (x ∷ xs) n zero h = ground (arith, ltb→lt x 256)
byte_in (x ∷ xs) n (suc i) h = byte_in xs n i (ground arith)

card-IsRing : IsRing card
card-IsRing = record {
  size = omega (arith, length-replicate {A = ℕ} 9692 0);
  bytes = λ i. byte_in (1 ∷ 0 ∷ 12 ∷ 0 ∷ payload) 9692 i refl;
  aligned = refl;
  inside = omega arith;
}

receive_lem_example : receive chip_io (some card) idle ≡ done (some payload) idle
receive_lem_example = receive_lem chip_io card idle card-IsRing

receive-drop_rx_example :
    (r' : Rtl8139) × (receive chip_io (some card) idle ≡ done (some payload) idle)
    × (drop_rx chip_io (some card) idle ≡ done (some r') idle)
    × IsRing r'
    × (r'.rx_offset ≡ 16)
    × Unit {0}
receive-drop_rx_example =
    receive-drop_rx chip_io card payload [] idle idle card-IsRing
      (
        record {
          good = refl;
          counted = refl;
          stored = refl;
          short = omega arith;
          long = omega arith;
        },
        tt,
      )
      refl

interrupt_lem_example :
    (s' : Chip) × (interrupt chip_io card idle ≡ done (record card { free_tx_buffers = 4 }) s')
    × (s'.status ≡ 0)
    × ((j : ℕ) → u32 (s'.desc j) ≡ u32 (idle.desc j))
unfolding chip_card
interrupt_lem_example = interrupt_lem chip_io card chip_card idle (omega arith) refl

-- One finished frame frees all four buffers, so that the next two are granted; the second of them
-- meets a descriptor that is still in flight, and the assertion fails.
abbrev granted : Option Rtl8139 → Option Rtl8139
granted nic = (transmit nic 2).1

two_frames : Cmd Chip (Option Rtl8139)
unfolding interrupt transmit drop_tx
two_frames = do
  r ← interrupt chip_io card
  nic ← drop_tx chip_io (granted (some r)) (7 ∷ 8 ∷ [])
  drop_tx chip_io (granted nic) (9 ∷ 10 ∷ [])

two_frames-panic : two_frames idle ≡ panic
unfolding two_frames
two_frames-panic = refl
