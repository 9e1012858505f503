-- ===== src/Rtl8139/Transmit.antt =====
-- src/rtl8139.rs: sending. The four transmit buffers are used in turn, each with its descriptor.
use sprocket.Base.{ℕ, ◌<◌, ◌≡◌, List, [], ◌++◌, length, get_or, set, drop}
use sprocket.Rtl8139.{Rtl8139, next_tx_offset}

-- What the driver keeps true of its transmit buffers.
pub record IsTransmitter (r : Rtl8139) : Type 0 where
  pub inside : r.tx_offset < 4
  pub four : length r.tx_buffer ≡ 4
  pub sizes : (i : ℕ) → i < 4 → length (get_or r.tx_buffer i []) ≡ 2048

-- The transmit buffers after bytes were copied to the current one, and it was passed to the card.
abbrev pub loaded : Rtl8139 → (buf : List ℕ) → Rtl8139
loaded r buf = record r {
  tx_buffer =
      set r.tx_buffer r.tx_offset (buf ++ drop (length buf) (get_or r.tx_buffer r.tx_offset []));
  tx_offset = next_tx_offset r.tx_offset;
}
