-- ===== src/Kernel/Ends.antt =====
-- `main` of src/lib.rs reaches the end of the allocator's initialization, whatever the ports answer.
use sprocket.Base.{
  ℕ, ◌+◌, ◌*◌, ◌≤◌, ◌<◌, ◌≡◌, refl, sym, ap, Bool, true, false, ◌&&◌, ◌||◌, List, Option, some,
  arith, ◌==◌, if◌then◌else◌, bit, length, get_or, Run, Cmd, done, Ensures, Ends, pure-Ensures,
  bind-Ensures, then-Ensures, ◌>>=◌, ◌>>◌,
}
use sprocket.Mem.{kernbase, to_phys}
use sprocket.Port.{Io}
use sprocket.Irq.{timer_irq}
use sprocket.Console
use sprocket.Console.{Console, write_str}
use sprocket.Console.Ends.{write_str-Ends, new-Ensures, ConsoleLines}
use sprocket.Picirq.{Mask, new_mask, picinit}
use sprocket.Picirq.Lines.{enable_irq_lem}
use sprocket.Timer.{timerinit}
use sprocket.Traps.Table.{level, trap_vector_init_lem}
use sprocket.Logger.{LogLevel, log}
use sprocket.Logger.Ends.{log-Ends}
use sprocket.Vm.{kvmalloc}
use sprocket.Kalloc.Boot.{heap_end}
use sprocket.Kernel.Heap.{page_box}
use sprocket.Kernel.Memory.{MemoryReady, init_heap, finish_heap, memory_lem}
use sprocket.Kernel.Start.{Kernel, Image, banner, crate, start_kernel, lift}
use sprocket.Rtl8139.{unwrap}

-- The lines that are masked at the end: not those of the timer, of the second controller, and of the
-- serial port if there is one.
abbrev pub StartLines : (present : Bool) → Mask → Type 0
StartLines present m =
    (j : ℕ)
    → j < 16
    → bit m.mask j ≡ (if (j == 0) || (j == 2) then 0 else if present && (j == 4) then 0 else 1)

module _ {S : Type 0} (io : Io S) where
  info-Ensures :
      {B : Type 0} {Q : B → Type 0} (c : Console) (args : List ℕ) (k : Cmd S B)
      → Ensures Q k
      → Ensures Q (log io c LogLevel.info crate args >> k)
  info-Ensures c args k rest =
      then-Ensures (log io c LogLevel.info crate args) k (log-Ends io c LogLevel.info crate args)
        rest

  picinit-Ends : Ends (picinit io)
  unfolding picinit
  picinit-Ends s = (tt, _, refl, tt)

  timerinit-Ensures :
      (present : Bool) (m : Mask)
      → ConsoleLines present m
      → Ensures (λ m'. StartLines present m') (timerinit io m)
  unfolding timerinit
  timerinit-Ensures present m h s =
      let (m', run, bits) = enable_irq_lem io m timer_irq _ (omega arith) in
      (m', _, run, λ j lt. ground (arith, bits j lt, h j lt))

-- What holds of the kernel when the allocator is complete.
pub record Started {T D E : Type 0} (image : Image T D E) (d : ℕ) (k : Kernel T D E) : Type 0 where
  -- Memory is mapped and free as it should be, by the directory that the processor uses.
  pub memory : MemoryReady image.kernel_end d k.paging
  pub directory : k.cr3 ≡ to_phys k.paging.root
  -- The lines of the timer and of the serial port, if there is one, are enabled.
  pub lines : StartLines k.console.uart k.mask
  -- Each trap leads to its own handler.
  pub handlers :
      (i : ℕ) (e : E)
      → i < 256
      → get_or k.idt i e ≡ image.new_entry (get_or image.vectors i 0) 8 (level i) true

module _ {S : Type 0} where
  lift-Ensures :
      {H A B : Type 0} {Q : B → Type 0} (r : Run H A) (k : A × H → Cmd S B) (a : A) (h : H)
      → r ≡ done a h
      → Ensures Q (k (a, h))
      → Ensures Q (lift r >>= k)
  lift-Ensures {Q = Q} r k a h e rest = rw (e, lift) rest

  unwrap-Ensures :
      {A B : Type 0} {Q : B → Type 0} (o : Option A) (k : A → Cmd S B) (a : A)
      → o ≡ some a
      → Ensures Q (k a)
      → Ensures Q (unwrap o >>= k)
  unwrap-Ensures o k a e rest = rw (e, unwrap) rest

module _ {S T D E : Type 0} (io : Io S) (image : Image T D E) (d : ℕ) (tables : ℕ → ℕ → ℕ)
    (floor : kernbase ≤ image.kernel_end) (below : image.start < image.kernel_end)
    (room : image.kernel_end + 69 * 4096 ≤ heap_end) (lo : 0x80100 < d)
    (data_below : d * 4096 ≤ image.kernel_end) (begins : image.data_begin ≡ d * 4096)
    (vectors : length image.vectors ≡ 256) (entries : length image.missing ≡ 256) where
  start_kernel-Ensures : Ensures (Started image d) (start_kernel io image tables)
  unfolding start_kernel
  start_kernel-Ensures =
      let (a, p, q, first, paged, second, ready, same) =
        memory_lem image.kernel_end image.start d tables floor below room lo data_below in
      bind-Ensures (Console.new io false new_mask) _ (new-Ensures io)
        (λ (console, initialized, mask) lines.
          then-Ensures (write_str io console banner) _ (write_str-Ends io console banner) (
            info-Ensures io console _ _ (
              unwrap-Ensures (init_heap image.kernel_end image.start) _ a first (
                info-Ensures io console _ _ (
                  lift-Ensures (kvmalloc (page_box image.kernel_end) image.data_begin tables a) _
                    (p.root, to_phys p.root) p (rw begins paged)
                    (info-Ensures io console _ _ (
                      info-Ensures io console _ _ (
                        then-Ensures (picinit io) _ (picinit-Ends io) (
                          info-Ensures io console _ _ (
                            bind-Ensures (timerinit io mask) _
                              (timerinit-Ensures io console.uart mask lines)
                              (λ mask' lines'. info-Ensures io console _ _ (
                                info-Ensures io console _ _ (
                                  unwrap-Ensures (finish_heap image.kernel_end p) _ q second (
                                    pure-Ensures _ (record {
                                      memory = ready;
                                      directory = ap to_phys (sym same);
                                      lines = lines';
                                      handlers = λ i e h.
                                          trap_vector_init_lem image.new_entry image.missing
                                            image.vectors i e entries vectors h;
                                    })))))))))))))))

  -- Where the linker puts the kernel's image 69 pages or more below 4 MiB, its data at a page boundary,
  -- and the processor has 256 vectors, `main` reaches the end of the allocator's initialization
  -- without a failed assertion, whatever the ports answer. The directory in use then maps the
  -- kernel's address space, with its tables in heap pages of their own and each free byte
  -- mapped writable at its own physical address; the lines of the timer, of the second controller
  -- and of a serial port that was found are the only ones enabled; each trap leads to its handler.
  pub start_kernel_lem :
      (s : S)
      → (k : Kernel T D E) × (s' : S) × (start_kernel io image tables s ≡ done k s')
        × Started image d k
  start_kernel_lem s = start_kernel-Ensures s
