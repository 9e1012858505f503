-- ===== src/Pci/Examples.antt =====
-- A bus with one network card, and the theorems at it.
use sprocket.Base.{
  ℕ, ◌+◌, ◌*◌, ◌/◌, ◌%◌, ◌^◌, ◌-◌, ◌<◌, ◌≡◌, ◌≢◌, refl, Bool-cases, inl, inr, ==_iff, bit_and,
  bit_and-lt, Option, arith, done, ◌==◌, if◌then◌else◌, bit_or, [],
}
use sprocket.Port.{Io}
use sprocket.Pci.{PciDevice, address, config_write16, set_command_flags, find, bus_master}
use sprocket.Pci.Registers.{ConfigSpace, config_write16_high}
use sprocket.Pci.Command.{CommandStatus, set_command_flags_lem}
use sprocket.Pci.Search.{First, hit, find_lem}

-- What the device stores: a register of command and status of a device (bus 0, slot 3) keeps three
-- command bits and clears the status bits that are written as 1; other registers keep what is written.
abbrev stored : (a old v : ℕ) → ℕ
stored a old v =
    if a == 0x80001804
    then bit_and (old / 2 ^ 16) (0xffff - bit_and (v / 2 ^ 16) 0xf900) * 2 ^ 16
      + bit_and (v % 2 ^ 16) 7
    else v

-- the address port's value, and the registers
record Bus : Type 0 where
  selected : ℕ
  regs : ℕ → ℕ

abbrev bus_out : ℕ → ℕ → Bus → Bus
bus_out port v s =
    if port == 0xcf8
    then record s { selected = v }
    else if port == 0xcfc
    then record s {
      regs = λ b. if b == s.selected then stored b (s.regs b % 2 ^ 32) v else s.regs b;
    }
    else s

abbrev bus_io : Io Bus
bus_io = record {
  in_byte = λ _ s. (0, s);
  in_word = λ _ s. (0, s);
  in_long = λ port s. (if port == 0xcfc then s.regs s.selected % 2 ^ 32 else 0, s);
  out_byte = λ _ _ s. s;
  out_word = λ _ _ s. s;
  out_long = bus_out;
  in_longs = λ _ _ s. ([], s);
  out_longs = λ _ _ s. s;
}

mod_small : (n : ℕ) → n < 2 ^ 32 → n % 2 ^ 32 ≡ n
mod_small n h = omega arith

stored-lt : (a old v : ℕ) → old < 2 ^ 32 → v < 2 ^ 32 → stored a old v < 2 ^ 32
stored-lt a old v ho hv = elim (Bool-cases (a == 0x80001804)) [
  | inl here ↦ rw here (
      omega (
        arith,
        bit_and-lt 16 (old / 2 ^ 16) (0xffff - bit_and (v / 2 ^ 16) 0xf900) (omega arith),
        bit_and-lt 16 (v % 2 ^ 16) 7 (omega arith),
      ))
  | inr other ↦ rw other hv
]

bus_io-writes :
    (s : Bus) (a v b : ℕ)
    → v < 2 ^ 32
    → (if b == a then stored b (s.regs b % 2 ^ 32) v else s.regs b) % 2 ^ 32
      ≡ (if b == a then stored a (s.regs a % 2 ^ 32) v else s.regs b % 2 ^ 32)
bus_io-writes s a v b h = elim (Bool-cases (b == a)) [
  | inl same ↦
      let e : b ≡ a = (==_iff b a).0 same in
      rw (same, e)
        (mod_small (stored a (s.regs a % 2 ^ 32) v)
          (stored-lt a (s.regs a % 2 ^ 32) v (omega arith) h))
  | inr other ↦ rw other refl
]

abbrev space : ConfigSpace bus_io
space = record {
  register = λ s b. s.regs b % 2 ^ 32;
  stored = stored;
  in_range = λ s a. omega arith;
  reads = λ s a. refl;
  read_keeps = λ s a b. refl;
  writes = bus_io-writes;
}

-- An RTL8139 at bus 0, slot 3; every other register reads as all ones.
abbrev card : Bus
card = record {
  selected = 0;
  regs = λ b.
      if b == 0x80001800 then 0x813910ec else if b == 0x80001804 then 0x23800003 else 0xffffffff;
}

abbrev device : PciDevice
device = record { bus = 0; slot = 3; func = 0 }

address_runs : address 2 3 1 0x3d ≡ 0x8002193c
unfolding address
address_runs = refl

config_write16_high_example :
    (s' : Bus) × (config_write16 bus_io 0 3 0 6 7 card ≡ done tt s')
    × (s'.regs (address 0 3 0 6) % 2 ^ 32
        ≡ stored
            (address 0 3 0 6)
            (card.regs (address 0 3 0 6) % 2 ^ 32)
            (card.regs (address 0 3 0 8) % 2 ^ 32 % 2 ^ 16 * 2 ^ 16 + 7))
config_write16_high_example =
    config_write16_high bus_io space 0 3 0 6 7 card (omega arith) refl (omega arith)

device_documented : CommandStatus bus_io space (address 0 3 0 4) 7
unfolding address
device_documented = record {
  command = λ old v h. omega (arith, bit_and-lt 16 (v % 2 ^ 16) 7 (omega arith));
  status = λ old v h. omega (arith, bit_and-lt 16 (v % 2 ^ 16) 7 (omega arith));
}

-- The status of the card has the error bits 8 and 13 set at first, and has neither afterwards.
set_command_flags_lem_example :
    (s' : Bus) × (set_command_flags bus_io device bus_master card ≡ done tt s')
    × (s'.regs (address 0 3 0 4) % 2 ^ 32 % 2 ^ 16
        ≡ bit_and (bit_or (card.regs (address 0 3 0 4) % 2 ^ 32 % 2 ^ 16) bus_master) 7)
    × (s'.regs (address 0 3 0 4) % 2 ^ 32 / 2 ^ 16 ≡ (
        let status = card.regs (address 0 3 0 4) % 2 ^ 32 / 2 ^ 16 in
        bit_and status (0xffff - bit_and status 0xf900)))
    × ((b : ℕ) → b ≢ address 0 3 0 4 → s'.regs b % 2 ^ 32 ≡ card.regs b % 2 ^ 32)
set_command_flags_lem_example =
    set_command_flags_lem bus_io space device bus_master 7 card (omega arith) device_documented

find_lem_example :
    (r : Option PciDevice) × (s' : Bus) × (find bus_io 0x10ec 0x8139 card ≡ done r s')
    × ((b : ℕ) → s'.regs b % 2 ^ 32 ≡ card.regs b % 2 ^ 32)
    × First (hit bus_io space 0x10ec 0x8139 card) 0 8192 r
find_lem_example = find_lem bus_io space 0x10ec 0x8139 card
