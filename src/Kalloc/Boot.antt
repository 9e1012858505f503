-- ===== src/Kalloc/Boot.antt =====
-- The two calls of `ALLOCATOR.init` in `main` of src/lib.rs.
use sprocket.Base.{
  ℕ, ◌+◌, ◌-◌, ◌*◌, ◌/◌, ◌≤◌, ◌<◌, ◌≡◌, refl, List, ap, ◌∙◌, false, ◌||◌, Option, none, some, [],
  ◌∷◌, arith,
}
use sprocket.Mem.{VirtAddr, kernbase, phystop, pgsize, page_roundup, to_virt}
use sprocket.Mem.Paging.{page_roundup_lem}
use sprocket.Kalloc.{Range, Allocator, end_addr}
use sprocket.Kalloc.Chain.{top, between, covered, IsValid, Apart-of_fresh}
use sprocket.Kalloc.Canonical.{Chain-unique}
use sprocket.Kalloc.Free.{free_range_lem}
use sprocket.Kalloc.Global.{range_alloc_init, init}

-- the page behind the one that follows the kernel's image
unfoldable pub heap_start : (kernel_end : VirtAddr) → VirtAddr
heap_start kernel_end = page_roundup (kernel_end + pgsize)

-- the end of the 4 MiB page that the boot page directory maps
abbrev pub heap_end : VirtAddr
heap_end = to_virt (4 * 1024 * 1024)

-- The first call, at the start, and the second, when all of memory is mapped.
pub boot_heap : (kernel_end start : VirtAddr) → Option Allocator
unfolding heap_start
boot_heap kernel_end start =
    elim (init kernel_end (range_alloc_init start) (heap_start kernel_end) heap_end) [
      | none ↦ none
      | some a ↦ init kernel_end a heap_end (to_virt phystop)
    ]

pub range_alloc_init-IsValid :
    (kernel_end start : ℕ)
    → kernbase ≤ kernel_end
    → start < kernel_end
    → IsValid kernel_end (range_alloc_init start)
range_alloc_init-IsValid kernel_end start floor below = record {
  floor = floor;
  start_empty = refl;
  start_below = below;
  chain = tt;
  counted = refl;
}

-- all pages from the heap's start to the top of physical memory
abbrev whole : (kernel_end : VirtAddr) → Range
whole kernel_end = record {
  base = heap_start kernel_end;
  size = (top - heap_start kernel_end) / 4096 - 1;
}

boot_heap_steps :
    (kernel_end start : ℕ) (a b : Allocator)
    → init kernel_end (range_alloc_init start) (heap_start kernel_end) heap_end ≡ some a
    → init kernel_end a heap_end top ≡ some b
    → boot_heap kernel_end start ≡ some b
unfolding boot_heap
boot_heap_steps kernel_end start a b e e' = rw (e, boot_heap) e'

between_join :
    (b m e x : ℕ)
    → b ≤ m
    → m ≤ e
    → ((false || between b m x) || between m e x) ≡ (between b e x || false)
between_join b m e x h k = ground arith

-- Two blocks that meet at `m` cover what the block from `b` to `e` does.
covered_join :
    (b m e : ℕ) (rs rs' : List Range)
    → b ≤ m
    → m ≤ e
    → ((x : ℕ) → covered rs x ≡ (false || between b m x))
    → ((x : ℕ) → covered rs' x ≡ (covered rs x || between m e x))
    → (x : ℕ) → covered rs' x ≡ (between b e x || false)
covered_join b m e rs rs' h k first second x =
    second x ∙ ap (λ t. t || between m e x) (first x) ∙ between_join b m e x h k

-- If the kernel's image ends two pages or more below 4 MiB, both calls pass every assertion; the
-- allocator is valid and holds one range, from the heap's start to the top of physical memory.
pub boot_heap_lem :
    (kernel_end start : ℕ)
    → kernbase ≤ kernel_end
    → start < kernel_end
    → kernel_end + 2 * 4096 ≤ heap_end
    → (a : Allocator) × (r : Range) × (boot_heap kernel_end start ≡ some a)
      × IsValid kernel_end a
      × (a.ranges ≡ r ∷ [])
      × (r.base ≡ heap_start kernel_end)
      × (end_addr r ≡ top)
unfolding heap_start
boot_heap_lem kernel_end start floor below room =
    let first : heap_start kernel_end ≡ (kernel_end + 8191) / 4096 * 4096 =
      omega (arith, page_roundup_lem (kernel_end + pgsize) (omega arith)) in
    let (a, e, v, sa, pages, cover) =
      free_range_lem kernel_end (range_alloc_init start) (heap_start kernel_end) heap_end
        (range_alloc_init-IsValid kernel_end start floor below) (omega (arith, first))
        (omega (arith, first)) refl (omega (arith, first)) (omega arith) tt in
    let (b, e', v', sb, pages', cover') =
      free_range_lem kernel_end a heap_end top v (omega arith) refl refl (omega arith) (omega arith)
        (Apart-of_fresh heap_end top a.ranges (omega arith) (λ x h. ground (arith, cover x))) in
    let r = whole kernel_end in
    let end : end_addr r ≡ top = omega (arith, first) in
    (
      b,
      r,
      boot_heap_steps kernel_end start a b e e',
      v',
      Chain-unique (kernel_end + 4095) b.ranges (r ∷ []) v'.chain
          (omega (arith, first), omega (arith, first), omega arith, tt)
          (rw end (
            covered_join (heap_start kernel_end) heap_end top a.ranges b.ranges
              (omega (arith, first)) (omega arith) cover cover')),
      refl,
      end,
    )
