-- ===== src/Timer.antt =====
-- src/timer.rs: the 8253 timer, set to 100 ticks a second, and the count of ticks.
use sprocket.Base.{ℕ, ◌+◌, ◌/◌, ◌%◌, bit_or, u8, Cmd, ◌>>◌}
use sprocket.Port.{Io, outb}
use sprocket.Irq.{timer_irq}
use sprocket.Picirq.{Mask, enable_irq}

abbrev pub io_timer1 : ℕ
io_timer1 = 0x040

abbrev pub timer_freq : ℕ
timer_freq = 1193182

abbrev pub timer_div : ℕ → ℕ
timer_div x = (timer_freq + x / 2) / x

abbrev pub timer_mode : ℕ
timer_mode = io_timer1 + 3

abbrev pub timer_sel0 : ℕ
timer_sel0 = 0x00

abbrev pub timer_rategen : ℕ
timer_rategen = 0x04

abbrev pub timer_16bit : ℕ
timer_16bit = 0x30

unfoldable pub timerinit : {S : Type 0} → Io S → Mask → Cmd S Mask
timerinit io m = do
  outb io timer_mode (bit_or (bit_or timer_sel0 timer_rategen) timer_16bit)
  outb io io_timer1 (u8 (timer_div 100 % 256))
  outb io io_timer1 (u8 (timer_div 100 / 256))
  enable_irq io m timer_irq
