-- ===== src/Irq.antt =====
-- src/traps.rs, lines 14 to 58: interrupt lines, and the vectors that `trap` tells apart.
use sprocket.Base.{ℕ, ◌+◌}

abbrev pub t_irq0 : ℕ
t_irq0 = 32

abbrev pub timer_irq : ℕ
timer_irq = 0

abbrev pub com1_irq : ℕ
com1_irq = 4

abbrev pub nic_irq : ℕ
nic_irq = 0xb

pub data Interrupt : Type 0 where
  div_error debug_exception non_maskable_int breakpoint overflow bounds_check illegal_op : Interrupt
  device_not_available double_fault coproc invalid_tss segment_not_present : Interrupt
  stack_exception gen_protect_fault page_fault reserved floating_point_err : Interrupt
  alignment_check machine_check simd_err syscall : Interrupt
  timer_int keyboard_int com1_int network_int ide_int error_int spurious_int : Interrupt

-- `t as u8`
abbrev pub vector : Interrupt → ℕ
vector Interrupt.div_error = 0
vector Interrupt.debug_exception = 1
vector Interrupt.non_maskable_int = 2
vector Interrupt.breakpoint = 3
vector Interrupt.overflow = 4
vector Interrupt.bounds_check = 5
vector Interrupt.illegal_op = 6
vector Interrupt.device_not_available = 7
vector Interrupt.double_fault = 8
vector Interrupt.coproc = 9
vector Interrupt.invalid_tss = 10
vector Interrupt.segment_not_present = 11
vector Interrupt.stack_exception = 12
vector Interrupt.gen_protect_fault = 13
vector Interrupt.page_fault = 14
vector Interrupt.reserved = 15
vector Interrupt.floating_point_err = 16
vector Interrupt.alignment_check = 17
vector Interrupt.machine_check = 18
vector Interrupt.simd_err = 19
vector Interrupt.syscall = 64
vector Interrupt.timer_int = t_irq0 + timer_irq
vector Interrupt.keyboard_int = t_irq0 + 1
vector Interrupt.com1_int = t_irq0 + com1_irq
vector Interrupt.network_int = t_irq0 + nic_irq
vector Interrupt.ide_int = t_irq0 + 14
vector Interrupt.error_int = t_irq0 + 19
vector Interrupt.spurious_int = t_irq0 + 31

abbrev pub default_interrupt : Interrupt
default_interrupt = Interrupt.spurious_int
