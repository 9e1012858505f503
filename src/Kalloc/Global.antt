-- ===== src/Kalloc/Global.antt =====
-- lib/kalloc/src/lib.rs: the allocator behind Rust's `Alloc` trait. The mutex is left out: each
-- method takes the state and returns it. A failed assertion and a sum that
-- overflows are `none`.
use sprocket.Base.{ℕ, ◌+◌, ◌-◌, ◌*◌, ◌&&◌, Option, none, some, [], leb, ◌==◌, if◌then◌else◌}
use sprocket.Mem.{VirtAddr, pgsize, pageno}
use sprocket.Kalloc.{Allocator, allocate, free_range, size_to_pages}

pub record Layout : Type 0 where
  pub size : ℕ
  pub align : ℕ

pub data AllocResult : Type 0 where
  ok : ℕ → AllocResult
  exhausted : Layout → AllocResult

-- `RANGE_ALLOC_INIT`; `start` is the address of the static.
abbrev pub range_alloc_init : (start : ℕ) → Allocator
range_alloc_init start = record {
  start = record { base = start; size = 0 };
  ranges = [];
  length = 0;
}

abbrev pub init : (kernel_end : VirtAddr) → Allocator → (vstart vend : VirtAddr) → Option Allocator
init = free_range

unfoldable pub alloc :
    (kernel_end : VirtAddr) → Allocator → Layout → Option (AllocResult × Allocator)
alloc kernel_end a layout =
    if leb layout.align pgsize
    then elim (allocate kernel_end a layout.size) [
      | none ↦ none
      | some (none, a') ↦ some (exhausted layout, a')
      | some (some p, a') ↦ some (ok p, a')
    ]
    else none

unfoldable pub dealloc : (kernel_end : VirtAddr) → Allocator → (ptr : ℕ) → Layout → Option Allocator
dealloc kernel_end a ptr layout = elim (size_to_pages layout.size) [
  | none ↦ none
  | some num_pages ↦
      let end_addr = ptr + num_pages * pgsize in
      if (end_addr - ptr == num_pages * pgsize)
        && (pageno kernel_end end_addr - pageno kernel_end ptr == num_pages)
      then free_range kernel_end a ptr end_addr
      else none
]

pub usable_size : Layout → Option (ℕ × ℕ)
usable_size layout = elim (size_to_pages layout.size) [
  | none ↦ none
  | some pages ↦ some (layout.size, pages * pgsize)
]
