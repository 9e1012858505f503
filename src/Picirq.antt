-- ===== src/Picirq.antt =====
-- src/picirq.rs: the mask of the two 8259A interrupt controllers. A set bit masks its line.
pub mod Lines
mod Examples
use sprocket.Base.{ℕ, ◌+◌, ◌-◌, ◌^◌, bit_and, leb, u8, ◌>>>◌, Cmd, pure, ◌>>=◌, ◌>>◌, assert}
use sprocket.Port.{Io, outb}
use sprocket.Irq.{t_irq0}

abbrev pub io_pic1 : ℕ
io_pic1 = 0x20

abbrev pub io_pic2 : ℕ
io_pic2 = 0xA0

abbrev pub max_irq : ℕ
max_irq = 15

abbrev pub irq_slave : ℕ
irq_slave = 2

pub record Mask : Type 0 where
  pub mask : ℕ

-- `Mask::new`
abbrev pub new_mask : Mask
new_mask = record { mask = bit_and 0xFFFF (0xFFFF - 2 ^ irq_slave) }

module _ {S : Type 0} (io : Io S) where
  set_mask : ℕ → Cmd S Mask
  set_mask mask = do
    outb io (io_pic1 + 1) (u8 mask)
    outb io (io_pic2 + 1) (u8 (mask >>> 8))
    pure (record { mask = mask })

  unfoldable pub enable_irq : Mask → (irq : ℕ) → Cmd S Mask
  unfolding set_mask
  enable_irq m irq = do assert (leb irq max_irq); set_mask (bit_and m.mask (0xFFFF - 2 ^ irq))

  unfoldable pub picinit : Cmd S (Unit {0})
  picinit = do
    outb io (io_pic1 + 1) 0xFF
    outb io (io_pic2 + 1) 0xFF
    outb io io_pic1 0x11
    outb io (io_pic1 + 1) t_irq0
    outb io (io_pic1 + 1) (2 ^ irq_slave)
    outb io (io_pic1 + 1) 0x3
    outb io io_pic2 0x11
    outb io (io_pic2 + 1) (t_irq0 + 8)
    outb io (io_pic2 + 1) irq_slave
    outb io (io_pic2 + 1) 0x3
    outb io io_pic1 0x68
    outb io io_pic1 0x0a
    outb io io_pic2 0x68
    outb io io_pic2 0x0a
