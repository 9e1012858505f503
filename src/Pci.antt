-- ===== src/Pci.antt =====
-- lib/pci/src/lib.rs: configuration space, through the address port 0xCF8 and the data port 0xCFC.
pub mod Address
pub mod Registers
pub mod Command
pub mod Search
mod Examples
use sprocket.Base.{
  ℕ, zero, suc, ◌+◌, ◌-◌, ◌*◌, ◌%◌, ◌^◌, bit_and, bit_or, Bool, ◌&&◌, Option, none, some, ◌==◌,
  if◌then◌else◌, u8, u16, u32, ◌<<<◌, ◌>>>◌, Cmd, pure, panic, ◌>>=◌, ◌>>◌,
}
use sprocket.Port.{Io, inl, outl}

abbrev pub invalid_vendor : ℕ
invalid_vendor = 0xffff

abbrev pub config_address : ℕ
config_address = 0xcf8

abbrev pub config_data : ℕ
config_data = 0xcfc

abbrev pub vend_id_offset : ℕ
vend_id_offset = 0

abbrev pub dev_id_offset : ℕ
dev_id_offset = 2

abbrev pub cmd_reg_offset : ℕ
cmd_reg_offset = 4

abbrev pub hdr_type_offset : ℕ
hdr_type_offset = 0xe

-- The address that selects a register, as both 32-bit accesses compute it.
unfoldable pub address : (bus slot func offset : ℕ) → ℕ
address bus slot func offset =
    bit_or
      (bit_or (bit_or (bit_or (u32 (bus <<< 16)) (u32 (slot <<< 11))) (u32 (func <<< 8)))
        (bit_and offset 0xfc))
      0x80000000

-- The test of both conditionals of `config_write16`, as the source has it.
unfoldable pub is_low : ℕ → Bool
is_low offset = bit_and offset 0xfc % 4 == 0

module _ {S : Type 0} (io : Io S) where
  unfoldable pub config_read32 : (bus slot func offset : ℕ) → Cmd S ℕ
  config_read32 bus slot func offset = do
    outl io config_address (address bus slot func offset)
    inl io config_data

  unfoldable pub config_read16 : (bus slot func offset : ℕ) → Cmd S ℕ
  config_read16 bus slot func offset = do
    word ← config_read32 bus slot func offset
    pure (u16 (bit_and (word >>> (bit_and offset 2 * 8)) 0xffff))

  unfoldable pub config_write32 : (bus slot func offset config : ℕ) → Cmd S (Unit {0})
  config_write32 bus slot func offset config = do
    outl io config_address (address bus slot func offset)
    outl io config_data config

  unfoldable pub config_write16 : (bus slot func offset config : ℕ) → Cmd S (Unit {0})
  config_write16 bus slot func offset config = do
    let other_off = if is_low offset then u8 (offset + 2) else u8 (offset + 256 - 2)
    word ← config_read16 bus slot func other_off
    config_write32 bus slot func offset (
        if is_low offset
        then bit_or (u32 (word <<< 16)) config
        else bit_or (u32 (config <<< 16)) word)

pub record PciDevice : Type 0 where
  pub bus : ℕ
  pub slot : ℕ
  pub func : ℕ

-- All sixteen flags of `Command` are declared.
abbrev pub command_all : ℕ
command_all = 0xFFFF

abbrev pub bus_master : ℕ
bus_master = 2 ^ 2

abbrev pub from_bits : ℕ → Option ℕ
from_bits bits = if bit_and bits (0xFFFF - command_all) == 0 then some bits else none

module _ {S : Type 0} (io : Io S) where
  -- The inner loop of `find`, over the slots that are left.
  find_slot : (vendor device bus slot left : ℕ) → Cmd S (Option PciDevice)
  find_slot vendor device bus slot zero = pure none
  find_slot vendor device bus slot (suc left) = do
    vend_id ← config_read16 io (u8 bus) slot 0 vend_id_offset
    dev_id ← config_read16 io (u8 bus) slot 0 dev_id_offset
    if (vendor == vend_id) && (dev_id == device)
        then pure (some (record { bus = u8 bus; slot = slot; func = 0 }))
        else find_slot vendor device bus (slot + 1) left

  -- The outer loop, over the buses that are left.
  find_bus : (vendor device bus left : ℕ) → Cmd S (Option PciDevice)
  unfolding find_slot
  find_bus vendor device bus zero = pure none
  find_bus vendor device bus (suc left) = do
    found ← find_slot vendor device bus 0 32
    elim found [ some d ↦ pure (some d) | none ↦ find_bus vendor device (bus + 1) left ]

  unfoldable pub find : (vendor device : ℕ) → Cmd S (Option PciDevice)
  unfolding find_bus
  find vendor device = find_bus vendor device 0 256

  -- The loops of `enumerate`, which only log what they find. The device's number is read for the
  -- vendor 0x10ec.
  unfoldable pub enumerate_slot : (bus slot left : ℕ) → Cmd S (Unit {0})
  enumerate_slot bus slot zero = pure tt
  enumerate_slot bus slot (suc left) = do
    vendor ← config_read16 io (u8 bus) slot 0 vend_id_offset
    if vendor == 0x10ec
        then (do config_read16 io (u8 bus) slot 0 dev_id_offset; pure tt)
        else pure tt
    enumerate_slot bus (slot + 1) left

  unfoldable pub enumerate_bus : (bus left : ℕ) → Cmd S (Unit {0})
  unfolding enumerate_slot
  enumerate_bus bus zero = pure tt
  enumerate_bus bus (suc left) = do enumerate_slot bus 0 32; enumerate_bus (bus + 1) left

  unfoldable pub enumerate : Cmd S (Unit {0})
  unfolding enumerate_bus
  enumerate = enumerate_bus 0 256

  unfoldable pub set_command_flags : PciDevice → (flag : ℕ) → Cmd S (Unit {0})
  set_command_flags d flag = do
    bits ← config_read16 io d.bus d.slot d.func cmd_reg_offset
    elim (from_bits bits) [
      | none ↦ λ _. panic
      | some config ↦ config_write16 io d.bus d.slot d.func cmd_reg_offset (bit_or config flag)
    ]

  unfoldable pub read16 : PciDevice → ℕ → Cmd S ℕ
  read16 d offset = config_read16 io d.bus d.slot d.func offset

  unfoldable pub read32 : PciDevice → ℕ → Cmd S ℕ
  read32 d offset = config_read32 io d.bus d.slot d.func offset

  unfoldable pub write32 : PciDevice → ℕ → ℕ → Cmd S (Unit {0})
  write32 d offset v = config_write32 io d.bus d.slot d.func offset v

  unfoldable pub header_type : PciDevice → Cmd S ℕ
  unfolding read16
  header_type d = read16 d hdr_type_offset

  -- The line and the pin.
  unfoldable pub read_irq : PciDevice → Cmd S (ℕ × ℕ)
  unfolding read16
  read_irq d = do word ← read16 d 0x3c; pure (u8 (bit_and word 0xff), u8 (word >>> 8))

pub data Bar : Type 0 where
  bar0 bar1 bar2 bar3 bar4 bar5 : Bar

abbrev pub bar_offset : Bar → ℕ
bar_offset bar0 = 0x10
bar_offset bar1 = 0x14
bar_offset bar2 = 0x18
bar_offset bar3 = 0x1C
bar_offset bar4 = 0x20
bar_offset bar5 = 0x24

unfoldable pub read_bar : {S : Type 0} → Io S → PciDevice → Bar → Cmd S ℕ
unfolding read32
read_bar io d bar = read32 io d (bar_offset bar)
