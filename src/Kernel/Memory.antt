-- ===== src/Kernel/Memory.antt =====
-- `main` of src/lib.rs, as far as the memory is concerned: the first part of the heap, the page tables
-- that are made from it, and then the rest of the physical memory.
use sprocket.Base.{
  ℕ, ◌+◌, ◌-◌, ◌*◌, ◌/◌, ◌≤◌, ◌<◌, ◌≡◌, refl, sym, ◌∙◌, false, true, ◌||◌, Option, none, some, Bool,
  done, arith,
}
use sprocket.Mem.{VirtAddr, kernbase, phystop, pgsize, to_phys, to_virt}
use sprocket.Mem.Paging.{page_roundup_lem}
use sprocket.Kalloc.{Allocator}
use sprocket.Kalloc.Chain.{top, between, covered, total, Apart-of_fresh}
use sprocket.Kalloc.Free.{free_range_lem}
use sprocket.Kalloc.Global.{range_alloc_init, init}
use sprocket.Kalloc.Boot.{heap_start, heap_end, range_alloc_init-IsValid}
use sprocket.Vm.{Paging, setupkvm, kvmalloc}
use sprocket.Vm.Translate.{lookup, table, IsPaged}
use sprocket.Vm.Setup.{kernel_map, setupkvm-kernel_map}
use sprocket.Kernel.Heap.{page_box, kernel_boxes, IsHeap, Used}

-- the first call of `ALLOCATOR.init`
unfoldable pub init_heap : (kernel_end start : VirtAddr) → Option Allocator
init_heap kernel_end start =
    init kernel_end (range_alloc_init start) (heap_start kernel_end) heap_end

-- the second call
unfoldable pub finish_heap : (kernel_end : VirtAddr) → Paging Allocator → Option (Paging Allocator)
finish_heap kernel_end p = elim (init kernel_end p.heap heap_end (to_virt phystop)) [
  | none ↦ none
  | some a ↦ some (record p { heap = a })
]

kvmalloc-done :
    (kernel_end data_begin : ℕ) (tables : ℕ → ℕ → ℕ) (a : Allocator) (p : Paging Allocator)
    → setupkvm (page_box kernel_end) data_begin tables a ≡ done (some tt) p
    → kvmalloc (page_box kernel_end) data_begin tables a ≡ done (p.root, to_phys p.root) p
unfolding kvmalloc
kvmalloc-done kernel_end data_begin tables a p run = rw (kvmalloc, run) refl

finish_heap-steps :
    (kernel_end : ℕ) (p : Paging Allocator) (a : Allocator)
    → init kernel_end p.heap heap_end top ≡ some a
    → finish_heap kernel_end p ≡ some (record p { heap = a })
unfolding finish_heap
finish_heap-steps kernel_end p a e = rw (finish_heap, e) refl

heap_start_lem :
    (kernel_end : ℕ)
    → kernel_end + 69 * 4096 ≤ heap_end
    → heap_start kernel_end ≡ (kernel_end + 8191) / 4096 * 4096
unfolding heap_start
heap_start_lem kernel_end h = omega (arith, page_roundup_lem (kernel_end + pgsize) (omega arith))

module _ (kernel_end start : ℕ) (floor : kernbase ≤ kernel_end) (below : start < kernel_end)
    (room : kernel_end + 69 * 4096 ≤ heap_end) where
  -- The first part of the heap.
  record FirstHeap : Type 0 where
    heap : Allocator
    run : init_heap kernel_end start ≡ some heap
    is_heap : IsHeap kernel_end (heap_start kernel_end) heap_end heap
    pages : 67 ≤ total heap.ranges

  first_heap : FirstHeap
  unfolding init_heap
  first_heap =
      let first = heap_start_lem kernel_end room in
      let (a, e, v, _, pages, cover) =
        free_range_lem kernel_end (range_alloc_init start) (heap_start kernel_end) heap_end
          (range_alloc_init-IsValid kernel_end start floor below) (omega (arith, first))
          (omega (arith, first)) refl (omega (arith, first, room)) (omega arith) tt in
      record {
        heap = a;
        run = e;
        is_heap = record { valid = v; inside = λ x c. ground (arith, cover x) };
        pages = omega (arith, pages, first, room);
      }

-- What the heap covers once the rest of memory has been added.
covered_more :
    (lo x : ℕ) (old new : Bool)
    → lo ≤ heap_end
    → new ≡ (old || between heap_end top x)
    → (old ≡ true → between lo heap_end x ≡ true)
    → new ≡ true
    → between lo top x ≡ true
covered_more lo x old new le e inside c = ground (arith, inside)

used_still :
    (lo x : ℕ) (old new : Bool)
    → new ≡ (old || between heap_end top x)
    → (between lo heap_end x ≡ true) × (old ≡ false)
    → (between lo top x ≡ true) × (new ≡ false)
used_still lo x old new e u = ground (arith, u.0, u.1)

free_mapped :
    (kernel_end d x : ℕ)
    → d * 4096 ≤ kernel_end
    → kernbase ≤ kernel_end
    → between ((kernel_end + 8191) / 4096 * 4096) top x ≡ true
    → kernel_map d (x / 4096) ≡ some ((x / 4096 - 0x80000) * 4096 + 3)
free_mapped kernel_end d x le floor b = ground arith

-- What the memory is like at the end.
pub record MemoryReady (kernel_end d : ℕ) (q : Paging Allocator) : Type 0 where
  -- The directory and the tables lie in the heap, in pages of their own that are not free.
  pub paged : IsPaged (kernel_boxes kernel_end (heap_start kernel_end) top) q
  -- Each page translates as in the kernel's address space.
  pub lookups : (v : ℕ) → lookup q v ≡ kernel_map d v
  -- Memory behind the first 4 MiB is free,
  pub high_free : (x : ℕ) → between heap_end top x ≡ true → covered q.heap.ranges x ≡ true
  -- and each free byte is mapped writable, at its own physical address.
  pub free_writable :
      (x : ℕ)
      → covered q.heap.ranges x ≡ true
      → lookup q (x / 4096) ≡ some ((x / 4096 - 0x80000) * 4096 + 3)

module _ (kernel_end d : ℕ) (floor : kernbase ≤ kernel_end) (data_below : d * 4096 ≤ kernel_end)
    (room : kernel_end + 69 * 4096 ≤ heap_end) (p : Paging Allocator)
    (h : IsPaged (kernel_boxes kernel_end (heap_start kernel_end) heap_end) p)
    (maps : (v : ℕ) → lookup p v ≡ kernel_map d v) where
  finish_heap-Ready :
      (q : Paging Allocator) × (finish_heap kernel_end p ≡ some q)
      × MemoryReady kernel_end d q
      × (q.root ≡ p.root)
  unfolding kernel_boxes
  finish_heap-Ready =
      let first = heap_start_lem kernel_end room in
      let old = h.heap_valid in
      let (a, e, v, _, pages, cover) =
        free_range_lem kernel_end p.heap heap_end top old.valid (omega (arith, room)) refl refl
          (omega arith) (omega arith)
          (Apart-of_fresh heap_end top p.heap.ranges (omega arith)
            (λ x b. ground (arith, old.inside x))) in
      let inside : (x : ℕ)
          → covered a.ranges x ≡ true
          → between (heap_start kernel_end) top x ≡ true =
        λ x c.
          covered_more (heap_start kernel_end) x (covered p.heap.ranges x) (covered a.ranges x)
            (omega (arith, first, room)) (cover x) (old.inside x) c in
      let used : (x : ℕ)
          → Used (heap_start kernel_end) heap_end p.heap x
          → Used (heap_start kernel_end) top a x =
        λ x u.
          used_still (heap_start kernel_end) x (covered p.heap.ranges x) (covered a.ranges x)
            (cover x) u in
      (
        record p { heap = a },
        finish_heap-steps kernel_end p a e,
        record {
          paged = record {
            words = h.words;
            taken = λ i odd. used (table (p.dir i)) (h.taken i odd);
            apart = h.apart;
            root_taken = used p.root h.root_taken;
            root_apart = h.root_apart;
            heap_valid = record { valid = v; inside = inside };
          };
          lookups = maps;
          high_free = λ x b. ground (arith, cover x);
          free_writable = λ x c.
              maps (x / 4096)
              ∙ free_mapped kernel_end d x data_below floor (rw (sym first) (inside x c));
        },
        refl,
      )

-- Where the kernel's image ends 69 pages or more below 4 MiB and its data begins at a page of it, the
-- first part of the heap holds all page tables: the three steps end without a failed assertion.
-- The processor gets the physical address of the directory. The directory and the tables then lie
-- in pages of their own in the heap, the kernel's address space is mapped as it should be, all
-- memory behind 4 MiB is free, and each free byte is mapped writable at its own physical address.
pub memory_lem :
    (kernel_end start d : ℕ) (tables : ℕ → ℕ → ℕ)
    → kernbase ≤ kernel_end
    → start < kernel_end
    → kernel_end + 69 * 4096 ≤ heap_end
    → 0x80100 < d
    → d * 4096 ≤ kernel_end
    → (a : Allocator) × (p q : Paging Allocator) × (init_heap kernel_end start ≡ some a)
      × (kvmalloc (page_box kernel_end) (d * 4096) tables a ≡ done (p.root, to_phys p.root) p)
      × (finish_heap kernel_end p ≡ some q)
      × MemoryReady kernel_end d q
      × (q.root ≡ p.root)
unfolding kernel_boxes
memory_lem kernel_end start d tables floor below room lo data_below =
    let f = first_heap kernel_end start floor below room in
    let (p, run, paged, maps, _) =
      setupkvm-kernel_map (kernel_boxes kernel_end (heap_start kernel_end) heap_end) d tables f.heap
        lo (omega arith) f.is_heap f.pages in
    let (q, run', ready, same) =
      finish_heap-Ready kernel_end d floor data_below room p paged maps in
    (
      f.heap,
      p,
      q,
      f.run,
      kvmalloc-done kernel_end (d * 4096) tables f.heap p run,
      run',
      ready,
      same,
    )
