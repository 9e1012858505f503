-- ===== src/Rtl8139/Registers.antt =====
-- src/rtl8139.rs, lines 5 to 29 and 234 to 335: the card's registers and their flags. A value of a
-- `bitflags!` type is the number that it wraps.
use sprocket.Base.{
  ℕ, ◌+◌, ◌-◌, ◌^◌, Bool, Option, none, some, List, [], ◌∷◌, bit_and, bit_or, ◌==◌, if◌then◌else◌,
}

abbrev pub realtek : ℕ
realtek = 0x10ec

abbrev pub rtl_8139 : ℕ
rtl_8139 = 0x8139

abbrev pub config_reg1 : ℕ
config_reg1 = 0x52

abbrev pub cmd_reg : ℕ
cmd_reg = 0x37

abbrev pub rb_start_reg : ℕ
rb_start_reg = 0x30

abbrev pub rx_config_reg : ℕ
rx_config_reg = 0x44

abbrev pub imr_reg : ℕ
imr_reg = 0x3C

abbrev pub isr_reg : ℕ
isr_reg = 0x3E

abbrev pub base_buf_size : ℕ
base_buf_size = 8192

abbrev pub buf_size : ℕ
buf_size = 8192 + 1500 + 16

abbrev pub capr : ℕ
capr = 0x38

abbrev pub num_tx_buffers : ℕ
num_tx_buffers = 4

abbrev pub tx_buf_size : ℕ
tx_buf_size = 2048

-- `TSD`, the transmit status registers
abbrev pub tsd_offsets : List ℕ
tsd_offsets = 0x10 ∷ 0x14 ∷ 0x18 ∷ 0x1c ∷ []

-- `TSAD`, the start addresses of the descriptors
abbrev pub tsad_offsets : List ℕ
tsad_offsets = 0x20 ∷ 0x24 ∷ 0x28 ∷ 0x2c ∷ []

-- What `bitflags!` gives each of its types: the test for flags that are all set, the conversion that
-- fails on a bit outside `all`, and the one that clears such bits.
abbrev pub contains : (bits flags : ℕ) → Bool
contains bits flags = bit_and bits flags == flags

abbrev pub from_bits : (width all bits : ℕ) → Option ℕ
from_bits width all bits = if bit_and bits (2 ^ width - 1 - all) == 0 then some bits else none

abbrev pub from_bits_truncate : (all bits : ℕ) → ℕ
from_bits_truncate all bits = bit_and bits all

-- `CommandReg`
abbrev pub rx_buf_empty : ℕ
rx_buf_empty = 1

abbrev pub tx_enable : ℕ
tx_enable = 2 ^ 2

abbrev pub rx_enable : ℕ
rx_enable = 2 ^ 3

abbrev pub reset : ℕ
reset = 2 ^ 4

abbrev pub command_reg_all : ℕ
command_reg_all = 1 + 2 ^ 2 + 2 ^ 3 + 2 ^ 4

-- `RxConfig`, as far as it is used
abbrev pub accept_phys_match : ℕ
accept_phys_match = 2 ^ 1

abbrev pub accept_bcast : ℕ
accept_bcast = 2 ^ 3

abbrev pub wrap : ℕ
wrap = 2 ^ 7

abbrev pub rx_buf_8k : ℕ
rx_buf_8k = 0

-- `IntStatus::all()`: bits 0 to 6 and 13 to 15
abbrev pub int_status_all : ℕ
int_status_all = (2 ^ 7 - 1) + (2 ^ 13 + 2 ^ 14 + 2 ^ 15)

-- `RxHeader`: bits 0 to 5 and 13 to 15
abbrev pub rx_ok : ℕ
rx_ok = 1

abbrev pub rx_header_all : ℕ
rx_header_all = (2 ^ 6 - 1) + (2 ^ 13 + 2 ^ 14 + 2 ^ 15)

-- `TxStatusDesc`, whose flags are all 32 bits
abbrev pub own : ℕ
own = 2 ^ 13

abbrev pub tok : ℕ
tok = 2 ^ 15

abbrev pub tx_status_all : ℕ
tx_status_all = 2 ^ 32 - 1

-- `remove` of a 32-bit `bitflags!` type
abbrev pub remove : (bits flags : ℕ) → ℕ
remove bits flags = bit_and bits (2 ^ 32 - 1 - flags)

unfoldable pub set_length : (tsd length : ℕ) → ℕ
set_length tsd length = bit_or (bit_and tsd (2 ^ 32 - 1 - 0xFFF)) (bit_and length 0xFFF)
