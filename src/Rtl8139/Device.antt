-- ===== src/Rtl8139/Device.antt =====
-- src/rtl8139.rs, lines 46 to 47 and 337 to 402: the card as a network device. The static `NIC` is
-- passed in and returned; `Err(Error::Exhausted)` is `none`.
use sprocket.Base.{
  ℕ, ◌-◌, Option, none, some, List, replicate, if◌then◌else◌, Cmd, pure, panic, ◌>>=◌,
}
use sprocket.Port.{Io}
use sprocket.Rtl8139.{Rtl8139, read, update_capr, hw_transmit, tx_available}

abbrev pub mtu : ℕ
mtu = 1536

unfoldable pub transmit : Option Rtl8139 → (length : ℕ) → Option (List ℕ) × Option Rtl8139
unfolding tx_available
transmit none length = (none, none)
transmit (some r) length =
    if tx_available r
    then (some (replicate length 0), some (record r { free_tx_buffers = r.free_tx_buffers - 1 }))
    else (none, some r)

module _ {S : Type 0} (io : Io S) where
  unfoldable pub receive : Option Rtl8139 → Cmd S (Option (List ℕ))
  unfolding read
  receive none = pure none
  receive (some r) = read io r

  -- `drop` of an `EthernetTxBuffer` with the given bytes
  unfoldable pub drop_tx : Option Rtl8139 → (bytes : List ℕ) → Cmd S (Option Rtl8139)
  unfolding hw_transmit
  drop_tx none bytes = λ _. panic
  drop_tx (some r) bytes = do r' ← hw_transmit io r bytes; pure (some r')

  -- `drop` of an `EthernetRxBuffer`
  unfoldable pub drop_rx : Option Rtl8139 → Cmd S (Option Rtl8139)
  unfolding update_capr
  drop_rx none = pure none
  drop_rx (some r) = do r' ← update_capr io r; pure (some r')
