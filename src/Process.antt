-- ===== src/Process.antt =====
-- src/process.rs: the processor's state and the frame of a trap. The types of the task state and of
-- the descriptors belong to the crate x86.
pub mod Frame
use sprocket.Base.{
  ℕ, ◌/◌, ◌%◌, ◌^◌, List, [], ◌∷◌, Bool, true, Option, none, some, replicate, ◌==◌, if◌then◌else◌,
}
use sprocket.Irq.{Interrupt, vector, default_interrupt}

-- `mmu::NSEGS`
abbrev pub nsegs : ℕ
nsegs = 6

pub record Cpu (T D : Type 0) : Type 0 where
  pub ts : T
  pub gdt : List D
  pub int_enabled : Bool

-- `Cpu::new`
abbrev pub new_cpu : {T D : Type 0} → (new_task_state : T) → (null_descriptor : D) → Cpu T D
new_cpu new_task_state null_descriptor = record {
  ts = new_task_state;
  gdt = replicate nsegs null_descriptor;
  int_enabled = true;
}

pub record TrapFrame : Type 0 where
  pub edi : ℕ
  pub esi : ℕ
  pub ebp : ℕ
  pub oesp : ℕ
  pub ebx : ℕ
  pub edx : ℕ
  pub ecx : ℕ
  pub eax : ℕ
  pub gs : ℕ
  pub padding1 : ℕ
  pub fs : ℕ
  pub padding2 : ℕ
  pub es : ℕ
  pub padding3 : ℕ
  pub ds : ℕ
  pub padding4 : ℕ
  pub trapno : Interrupt
  pub err : ℕ
  pub eip : ℕ
  pub cs : ℕ
  pub padding5 : ℕ
  pub eflags : ℕ
  pub esp : ℕ
  pub ss : ℕ
  pub padding6 : ℕ

-- the variants of `Interrupt`
abbrev pub interrupts : List Interrupt
interrupts =
    Interrupt.div_error ∷ Interrupt.debug_exception ∷ Interrupt.non_maskable_int
    ∷ Interrupt.breakpoint ∷ Interrupt.overflow ∷ Interrupt.bounds_check ∷ Interrupt.illegal_op
    ∷ Interrupt.device_not_available ∷ Interrupt.double_fault ∷ Interrupt.coproc
    ∷ Interrupt.invalid_tss ∷ Interrupt.segment_not_present ∷ Interrupt.stack_exception
    ∷ Interrupt.gen_protect_fault ∷ Interrupt.page_fault ∷ Interrupt.reserved
    ∷ Interrupt.floating_point_err ∷ Interrupt.alignment_check ∷ Interrupt.machine_check
    ∷ Interrupt.simd_err ∷ Interrupt.syscall ∷ Interrupt.timer_int ∷ Interrupt.keyboard_int
    ∷ Interrupt.com1_int ∷ Interrupt.network_int ∷ Interrupt.ide_int ∷ Interrupt.error_int
    ∷ Interrupt.spurious_int ∷ []

abbrev find_vector : List Interrupt → ℕ → Option Interrupt
find_vector [] n = none
find_vector (t ∷ ts) n = if vector t == n then some t else find_vector ts n

-- The variant with the discriminant `n`. A byte with no variant is no value of the type.
unfoldable pub interrupt_of : (n : ℕ) → Option Interrupt
interrupt_of n = find_vector interrupts n

-- The two halves of a word: a field of 16 bits and the padding behind it.
abbrev pub low : ℕ → ℕ
low w = w % 2 ^ 16

abbrev pub high : ℕ → ℕ
high w = w / 2 ^ 16

-- The frame that lies over the 32-bit words of a stack, from the top on. The type of `trapno` has one
-- byte, so that the other three of its word are padding too.
unfoldable pub frame_at : (stack : List ℕ) → Option TrapFrame
unfolding interrupt_of
frame_at
      (edi ∷ esi ∷ ebp ∷ oesp ∷ ebx ∷ edx ∷ ecx ∷ eax ∷ gs ∷ fs ∷ es ∷ ds ∷ trapno ∷ err ∷ eip ∷ cs
        ∷ eflags ∷ esp ∷ ss ∷ rest) =
    elim (interrupt_of (trapno % 2 ^ 8)) [
      | none ↦ none
      | some t ↦ some (record {
        edi = edi;
        esi = esi;
        ebp = ebp;
        oesp = oesp;
        ebx = ebx;
        edx = edx;
        ecx = ecx;
        eax = eax;
        gs = low gs;
        padding1 = high gs;
        fs = low fs;
        padding2 = high fs;
        es = low es;
        padding3 = high es;
        ds = low ds;
        padding4 = high ds;
        trapno = t;
        err = err;
        eip = eip;
        cs = low cs;
        padding5 = high cs;
        eflags = eflags;
        esp = esp;
        ss = low ss;
        padding6 = high ss;
      })
    ]
frame_at _ = none
