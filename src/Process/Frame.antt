-- ===== src/Process/Frame.antt =====
-- src/process.rs: the variant of `Interrupt` in a trap frame.
use sprocket.Base.{◌≡◌, refl, none, some}
use sprocket.Irq.{Interrupt, vector}
use sprocket.Process.{interrupt_of}

-- The number that the entry of a trap pushes leads back to the variant.
pub interrupt_of-vector : (t : Interrupt) → interrupt_of (vector t) ≡ some t
unfolding interrupt_of
interrupt_of-vector Interrupt.div_error = refl
interrupt_of-vector Interrupt.debug_exception = refl
interrupt_of-vector Interrupt.non_maskable_int = refl
interrupt_of-vector Interrupt.breakpoint = refl
interrupt_of-vector Interrupt.overflow = refl
interrupt_of-vector Interrupt.bounds_check = refl
interrupt_of-vector Interrupt.illegal_op = refl
interrupt_of-vector Interrupt.device_not_available = refl
interrupt_of-vector Interrupt.double_fault = refl
interrupt_of-vector Interrupt.coproc = refl
interrupt_of-vector Interrupt.invalid_tss = refl
interrupt_of-vector Interrupt.segment_not_present = refl
interrupt_of-vector Interrupt.stack_exception = refl
interrupt_of-vector Interrupt.gen_protect_fault = refl
interrupt_of-vector Interrupt.page_fault = refl
interrupt_of-vector Interrupt.reserved = refl
interrupt_of-vector Interrupt.floating_point_err = refl
interrupt_of-vector Interrupt.alignment_check = refl
interrupt_of-vector Interrupt.machine_check = refl
interrupt_of-vector Interrupt.simd_err = refl
interrupt_of-vector Interrupt.syscall = refl
interrupt_of-vector Interrupt.timer_int = refl
interrupt_of-vector Interrupt.keyboard_int = refl
interrupt_of-vector Interrupt.com1_int = refl
interrupt_of-vector Interrupt.network_int = refl
interrupt_of-vector Interrupt.ide_int = refl
interrupt_of-vector Interrupt.error_int = refl
interrupt_of-vector Interrupt.spurious_int = refl

-- The vector of a spurious interrupt of the first interrupt controller, IRQ 7, has no variant.
spurious_irq7 : interrupt_of 39 ≡ none
unfolding interrupt_of
spurious_irq7 = refl
