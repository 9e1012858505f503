-- ===== src/Kernel/Start.antt =====
-- `main` of src/lib.rs up to the user program, and its `panic_fmt`. The registers that the tables are
-- loaded into belong to the processor; `cr3` keeps the value of the one for the page directory.
use sprocket.Base.{
  ℕ, Bool, false, Option, none, List, ◌∷◌, ◌++◌, Run, Cmd, done, pure, panic, spin, ◌>>=◌, ◌>>◌,
}
use sprocket.Mem.{VirtAddr}
use sprocket.Port.{Io}
use sprocket.Console
use sprocket.Console.{Console, write_str}
use sprocket.Picirq.{Mask, new_mask, picinit}
use sprocket.Timer.{timerinit}
use sprocket.Process.{Cpu, new_cpu}
use sprocket.Traps.{PrivilegeLevel, trap_vector_init}
use sprocket.Vm.{Paging, kvmalloc}
use sprocket.Vm.Segments.{SegmentType, seginit}
use sprocket.Kalloc.{Allocator}
use sprocket.Pci.{enumerate}
use sprocket.Rtl8139
use sprocket.Rtl8139.{Rtl8139, unwrap}
use sprocket.Logger.{LogLevel, codes, log}
use sprocket.Kernel.Memory.{init_heap, finish_heap}
use sprocket.Kernel.Heap.{page_box}

-- The statics that `main` fills: `CONSOLE`, `PIC`, `ALLOCATOR` with the page tables, `CPU`, `IDT` and
-- `NIC`.
pub record Kernel (T D E : Type 0) : Type 0 where
  pub console : Console
  pub mask : Mask
  pub paging : Paging Allocator
  pub cr3 : ℕ
  pub cpu : Cpu T D
  pub idt : List E
  pub nic : Option Rtl8139

-- the module path of src/lib.rs
abbrev pub crate : List ℕ
crate = codes "sprocket"

-- One of the symbols of the first line, `⚙` in the colour with the given number.
abbrev pub gear : (i : List ℕ) → List ℕ
gear i = 0x1b ∷ codes "[38;5;" ++ i ++ codes "m" ++ 0xE2 ∷ 0x9A ∷ 0x99 ∷ codes " "

abbrev pub banner : List ℕ
banner =
    codes "\n"
    ++ gear (codes "196")
    ++ gear (codes "202")
    ++ gear (codes "214")
    ++ gear (codes "34")
    ++ gear (codes "51")
    ++ gear (codes "57")
    ++ codes "\n"

-- a part of the start that does not use the machine
abbrev pub lift : {S H A : Type 0} → Run H A → Cmd S (A × H)
lift r s = elim r [ done a h ↦ done (a, h) s | panic ↦ panic | spin ↦ spin ]

-- What the linker and the crate x86 provide: the addresses of `end`, `ALLOCATOR` and `data`, the
-- trap handlers, and the constructors of the descriptors.
pub record Image (T D E : Type 0) : Type 0 where
  pub kernel_end : VirtAddr
  pub start : VirtAddr
  pub data_begin : VirtAddr
  pub vectors : List ℕ
  pub task_state : T
  pub null_descriptor : D
  pub new_descriptor : (base limit : ℕ) → SegmentType → Bool → PrivilegeLevel → D
  pub missing : List E
  pub new_entry : (handler selector : ℕ) → PrivilegeLevel → Bool → E

module _ {S T D E : Type 0} (io : Io S) (image : Image T D E) where
  abbrev pub info : Console → List ℕ → Cmd S (Unit {0})
  info c args = log io c LogLevel.info crate args

  -- `main` up to the end of the allocator's initialization. The console is made by its first use.
  unfoldable pub start_kernel : (tables : ℕ → ℕ → ℕ) → Cmd S (Kernel T D E)
  start_kernel tables = do
    (console, initialized, mask) ← Console.new io false new_mask
    write_str io console banner
    info console (codes "Initializing allocator")
    heap ← unwrap (init_heap image.kernel_end image.start)
    info console (codes "Initializing kernel paging")
    ((kpgdir, cr3), paging) ←
        lift (kvmalloc (page_box image.kernel_end) image.data_begin tables heap)
    info console (codes "Initializing kernel segments")
    let cpu = new_cpu image.task_state image.null_descriptor
    let gdt = seginit image.new_descriptor image.null_descriptor cpu.gdt
    info console (codes "Configuring PIC")
    picinit io
    info console (codes "Setting up interrupt descriptor table")
    let idt = trap_vector_init image.new_entry image.vectors image.missing
    mask' ← timerinit io mask
    info console (codes "Loading new interrupt descriptor table")
    info console (codes "Finishing allocator initialization")
    paging' ← unwrap (finish_heap image.kernel_end paging)
    pure (record {
      console = console;
      mask = mask';
      paging = paging';
      cr3 = cr3;
      cpu = record cpu { gdt = gdt };
      idt = idt;
      nic = none;
    })

  -- `main` from there on, up to the user program. The addresses are those of the card's boxes.
  unfoldable pub start_network : (rounds rx tx : ℕ) → Kernel T D E → Cmd S (Kernel T D E)
  start_network rounds rx tx k = do
    info k.console (codes "Enumerating PCI")
    enumerate io
    (nic, mask) ← Rtl8139.init io rounds rx tx k.mask
    info k.console (codes "COFFLOS initialization complete, jumping to user code")
    pure (record k { nic = nic; mask = mask })

  -- `user` is `UserService::start`, which is not meant to return.
  unfoldable pub main :
      (tables : ℕ → ℕ → ℕ)
      → (rounds rx tx : ℕ) → (enable : S → S) → (user : Kernel T D E → Cmd S (Unit {0}))
      → Cmd S (Unit {0})
  main tables rounds rx tx enable user = do
    k ← start_kernel tables
    k' ← start_network rounds rx tx k
    (λ s. done tt (enable s))
    user k'
    (λ _. panic)

  -- `panic_fmt` behind the reset of the locks, which ends in a loop
  unfoldable pub panic_fmt : Console → (file line args : List ℕ) → Cmd S (Unit {0})
  unfolding log
  panic_fmt c file line args = do
    log io c LogLevel.error crate
        (codes "Panic! An unrecoverable error occurred at " ++ file ++ codes ":" ++ line)
    log io c LogLevel.error crate args
    (λ _. spin)
