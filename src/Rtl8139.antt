-- ===== src/Rtl8139.antt =====
-- src/rtl8139.rs: the driver of the network card RTL-8139. A method takes the driver's record and
-- returns the new one. The card writes received frames to `rx_buffer` by itself, so a client of
-- these definitions changes that field between two calls. Output of the logging macros is left out.
pub mod Registers
pub mod Device
pub mod Ring
pub mod Receive
pub mod Descriptors
pub mod Transmit
pub mod Interrupt
pub mod Examples
use sprocket.Base.{
  ℕ, zero, suc, ◌+◌, ◌-◌, ◌*◌, ◌%◌, ◌^◌, Bool, not, ◌&&◌, Option, none, some, List, [], ◌∷◌, ◌++◌,
  length, get_elem?, set, take, drop, replicate, ltb, leb, ◌==◌, if◌then◌else◌, bit_and, bit_or, u8,
  u16, u32, ◌<<<◌, wrapping_sub, Cmd, pure, panic, spin, assert, ◌>>=◌, ◌>>◌,
}
use sprocket.Port.{Io, inb, inw, inl, outb, outw, outl}
use sprocket.Mem.{to_phys}
use sprocket.Irq.{nic_irq}
use sprocket.Pci.{PciDevice, find, set_command_flags, bus_master, read_bar, bar0, read_irq}
use sprocket.Picirq.{Mask, enable_irq}
use sprocket.Rtl8139.Registers.{
  realtek, rtl_8139, config_reg1, cmd_reg, rb_start_reg, rx_config_reg, imr_reg, isr_reg,
  base_buf_size, buf_size, capr, num_tx_buffers, tx_buf_size, tsd_offsets, tsad_offsets, contains,
  from_bits, from_bits_truncate, rx_buf_empty, tx_enable, rx_enable, command_reg_all,
  accept_phys_match, accept_bcast, wrap, rx_buf_8k, int_status_all, rx_ok, rx_header_all, own, tok,
  tx_status_all, remove, set_length,
}

pub record Rtl8139 : Type 0 where
  pub pci : PciDevice
  pub iobase : ℕ
  pub rx_buffer : List ℕ
  pub tx_buffer : List (List ℕ)
  pub tx_offset : ℕ
  pub free_tx_buffers : ℕ
  pub rx_offset : ℕ

-- The port of a register, `self.iobase + offset`.
abbrev pub port : Rtl8139 → ℕ → ℕ
port r offset = u16 (r.iobase + offset)

-- The value that `init` builds for the device at the given base address register.
abbrev pub fresh : PciDevice → (bar : ℕ) → Rtl8139
fresh dev bar = record {
  pci = dev;
  iobase = u16 (bit_and bar (2 ^ 32 - 1 - 0x3));
  rx_buffer = replicate buf_size 0;
  tx_buffer = replicate num_tx_buffers (replicate tx_buf_size 0);
  tx_offset = 0;
  free_tx_buffers = num_tx_buffers;
  rx_offset = 0;
}

module _ {S : Type 0} where
  -- `xs[i]`, and `unwrap`
  abbrev pub at : {A : Type 0} → List A → ℕ → Cmd S A
  at xs i = elim (get_elem? xs i) [ some x ↦ pure x | none ↦ λ _. panic ]

  abbrev pub unwrap : {A : Type 0} → Option A → Cmd S A
  unwrap o = elim o [ some x ↦ pure x | none ↦ λ _. panic ]

  -- The slice `self.rx_buffer[start..start + len]`.
  abbrev pub slice : List ℕ → (start len : ℕ) → Cmd S (List ℕ)
  slice buffer start len = do
    assert (leb (start + len) (length buffer))
    pure (take len (drop start buffer))

unfoldable pub next_tx_offset : ℕ → ℕ
next_tx_offset tx_off = u8 (tx_off + 1) % num_tx_buffers

unfoldable pub tx_available : Rtl8139 → Bool
tx_available r = ltb 0 r.free_tx_buffers

module _ {S : Type 0} (io : Io S) where
  -- the loop that waits for the end of the reset, for at most so many rounds
  unfoldable pub await_reset : (rounds : ℕ) → Rtl8139 → Cmd S (Unit {0})
  await_reset zero r = λ _. spin
  await_reset (suc n) r = do
    command ← inb io (port r cmd_reg)
    if not (bit_and command 0x10 == 0) then await_reset n r else pure tt

  -- The loop over `TSAD`, from the offset `off` on; `tx` is the address of the transmit buffers.
  unfoldable pub set_tx_addresses : Rtl8139 → (tx off : ℕ) → (tsads : List ℕ) → Cmd S (Unit {0})
  set_tx_addresses r tx off [] = pure tt
  set_tx_addresses r tx off (tsad ∷ tsads) = do
    outl io (port r tsad) (u32 (to_phys (u32 (tx + tx_buf_size * off))))
    set_tx_addresses r tx (off + 1) tsads

  -- `init` from the power-on of the card to its last access of a port of the card
  unfoldable pub start : (rounds rx tx : ℕ) → Rtl8139 → Cmd S (Unit {0})
  unfolding await_reset set_tx_addresses
  start rounds rx tx r = do
    outb io (port r config_reg1) 0x0
    outb io (port r cmd_reg) 0x10
    await_reset rounds r
    outl io (port r rb_start_reg) (u32 (to_phys rx))
    set_tx_addresses r tx 0 tsad_offsets
    outw io (port r imr_reg) int_status_all
    outl io (port r rx_config_reg)
        (bit_or (bit_or (bit_or wrap accept_phys_match) accept_bcast) rx_buf_8k)
    outb io (port r cmd_reg) (bit_or rx_enable tx_enable)

  -- `rx` and `tx` are the addresses that the allocator gives the two boxes; `mask` is that of the
  -- interrupt controllers.
  unfoldable pub init : (rounds rx tx : ℕ) → Mask → Cmd S (Option Rtl8139 × Mask)
  unfolding find set_command_flags read_bar read_irq enable_irq start
  init rounds rx tx mask = do
    found ← find io realtek rtl_8139
    elim found [
      | none ↦ pure (none, mask)
      | some dev ↦ do
        set_command_flags io dev bus_master
        bar ← read_bar io dev bar0
        assert (u8 (bit_and bar 0x1) == 1)
        start rounds rx tx (fresh dev bar)
        (line, pin) ← read_irq io dev
        assert (nic_irq == line)
        mask' ← enable_irq io mask nic_irq
        pure (some (fresh dev bar), mask')
    ]

  -- The loop of `mac_address`, over the bytes that are left.
  unfoldable pub mac_bytes : Rtl8139 → (off left : ℕ) → Cmd S (List ℕ)
  mac_bytes r off zero = pure []
  mac_bytes r off (suc left) = do
    byte ← inb io (port r off)
    rest ← mac_bytes r (off + 1) left
    pure (byte ∷ rest)

  unfoldable pub mac_address : Rtl8139 → Cmd S (List ℕ)
  unfolding mac_bytes
  mac_address r = mac_bytes r 0 6

  unfoldable pub tsd : Rtl8139 → (off : ℕ) → Cmd S ℕ
  tsd r off = do
    reg ← at tsd_offsets off
    desc ← inl io (port r reg)
    unwrap (from_bits 32 tx_status_all desc)

  unfoldable pub set_tsd : Rtl8139 → (desc off : ℕ) → Cmd S (Unit {0})
  set_tsd r desc off = do reg ← at tsd_offsets off; outl io (port r reg) desc

  -- `hw_transmit` from the copy of the bytes on
  unfoldable pub copy_and_send : Rtl8139 → (desc : ℕ) → (buf : List ℕ) → Cmd S Rtl8139
  unfolding set_tsd next_tx_offset
  copy_and_send r desc buf = do
    slot ← at r.tx_buffer r.tx_offset
    assert (leb (length buf) (length slot))
    let r' = record r { tx_buffer = set r.tx_buffer r.tx_offset (buf ++ drop (length buf) slot) }
    set_tsd r' desc r'.tx_offset
    pure (record r' { tx_offset = next_tx_offset r'.tx_offset })

  unfoldable pub hw_transmit : Rtl8139 → (buf : List ℕ) → Cmd S Rtl8139
  unfolding tsd set_length copy_and_send
  hw_transmit r buf = do
    desc ← tsd r r.tx_offset
    assert (contains desc own)
    copy_and_send r (remove (set_length desc (length buf)) own) buf

  unfoldable pub get_capr : Rtl8139 → Cmd S ℕ
  get_capr r = inw io (port r capr)

  unfoldable pub get_isr : Rtl8139 → Cmd S ℕ
  get_isr r = do reg ← inw io (port r isr_reg); unwrap (from_bits 16 int_status_all reg)

  unfoldable pub clear_isr : Rtl8139 → Cmd S (Unit {0})
  clear_isr r = outw io (port r isr_reg) 0xffff

  -- The loop of `interrupt`, for at most so many rounds.
  unfoldable pub reclaim : (rounds : ℕ) → Rtl8139 → Cmd S Rtl8139
  unfolding tsd
  reclaim zero r = λ _. spin
  reclaim (suc n) r = do
    desc ← tsd r r.tx_offset
    if contains desc (bit_or tok own) && ltb r.free_tx_buffers num_tx_buffers
        then reclaim n (record r { free_tx_buffers = r.free_tx_buffers + 1 })
        else pure r

  -- Each round of the loop frees a buffer, so that it ends at the fifth test.
  unfoldable pub interrupt : Rtl8139 → Cmd S Rtl8139
  unfolding get_isr clear_isr reclaim
  interrupt r = do get_isr r; clear_isr r; reclaim (num_tx_buffers + 1) r

  unfoldable pub rx_empty : Rtl8139 → Cmd S Bool
  rx_empty r = do
    reg ← inb io (port r cmd_reg)
    pure (contains (from_bits_truncate command_reg_all reg) rx_buf_empty)

  unfoldable pub get_rx_hdr : Rtl8139 → Cmd S ℕ
  get_rx_hdr r = do
    b1 ← at r.rx_buffer r.rx_offset
    b2 ← at r.rx_buffer (r.rx_offset + 1)
    pure (from_bits_truncate rx_header_all (bit_or (u16 (b2 <<< 8)) b1))

  unfoldable pub get_rx_len : Rtl8139 → Cmd S ℕ
  get_rx_len r = do
    b1 ← at r.rx_buffer (r.rx_offset + 2)
    b2 ← at r.rx_buffer (r.rx_offset + 3)
    pure (bit_or (u16 (b2 <<< 8)) b1)

  unfoldable pub read : Rtl8139 → Cmd S (Option (List ℕ))
  unfolding rx_empty get_rx_hdr get_rx_len
  read r = do
    empty ← rx_empty r
    if empty then pure none else (do
      hdr ← get_rx_hdr r
      if contains hdr rx_ok
          then (do
            len ← get_rx_len r
            bytes ← slice r.rx_buffer (r.rx_offset + 4) len
            pure (some bytes))
          else pure none)

  unfoldable pub set_capr : Rtl8139 → (off : ℕ) → Cmd S (Unit {0})
  set_capr r off = do assert (ltb off buf_size); outw io (port r capr) (u16 off)

  unfoldable pub update_capr : Rtl8139 → Cmd S Rtl8139
  unfolding get_rx_len set_capr
  update_capr r = do
    len ← get_rx_len r
    let moved = bit_and (u32 (r.rx_offset + len + 4 + 3)) (2 ^ 32 - 1 - 3)
    set_capr r (wrapping_sub moved 0x10)
    pure (record r { rx_offset = if leb base_buf_size moved then moved % base_buf_size else moved })
