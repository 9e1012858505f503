-- ===== src/Kalloc/Examples.antt =====
-- The allocator on a heap of two ranges, and the theorems at it.
use sprocket.Base.{
  ℕ, ◌+◌, ◌*◌, ◌^◌, ◌<◌, ◌≤◌, ◌⊎◌, ◌≡◌, refl, true, none, some, [], ◌∷◌, ◌||◌, inl, inr, arith,
}
use sprocket.Mem.{pageno}
use sprocket.Kalloc.{Range, Allocator, allocate, free_range, verify}
use sprocket.Kalloc.Chain.{total, between, covered, IsValid}
use sprocket.Kalloc.Verify.{verify-IsValid}
use sprocket.Kalloc.Free.{free_range_lem}
use sprocket.Kalloc.Allocate.{AllocateSpec, allocate_lem}
use sprocket.Kalloc.RoundTrip.{dealloc-alloc}
use sprocket.Kalloc.Global.{Layout, ok, alloc, dealloc}

abbrev kernel_end : ℕ
kernel_end = 0x8011_0123

abbrev static : Range
static = record { base = 0x8010_F000; size = 0 }

abbrev low : Range
low = record { base = 0x8011_2000; size = 1 }

abbrev high : Range
high = record { base = 0x8011_6000; size = 9 }

-- two pages, a gap of two pages, and ten pages
abbrev heap : Allocator
heap = record { start = static; ranges = low ∷ high ∷ []; length = 12 }

heap-IsValid : IsValid kernel_end heap
heap-IsValid = record {
  floor = omega arith;
  start_empty = refl;
  start_below = omega arith;
  chain = omega arith;
  counted = refl;
}

-- The gap is filled, and all three blocks become one range.
free_range_merges :
    free_range kernel_end heap 0x8011_4000 0x8011_6000
    ≡ some (record heap { ranges = record low { size = 13 } ∷ []; length = 14 })
unfolding free_range pageno
free_range_merges = refl

-- A block that begins inside a page fails an assertion.
free_range_unaligned : free_range kernel_end heap 0x8011_4001 0x8011_6000 ≡ none
unfolding free_range
free_range_unaligned = refl

-- Three pages come from the end of the longer range; two pages use up the short one.
allocate_first_fit :
    (allocate kernel_end heap 12000
      ≡ some (
        some 0x8011_D000,
        record heap { ranges = low ∷ record high { size = 6 } ∷ []; length = 9 },
      ))
    × (allocate kernel_end heap 8192
        ≡ some (some 0x8011_2000, record heap { ranges = high ∷ []; length = 10 }))
    × (allocate kernel_end heap 45057 ≡ some (none, heap))
unfolding allocate
allocate_first_fit = (refl, refl, refl)

verify-IsValid_example : verify kernel_end heap ≡ true
verify-IsValid_example = verify-IsValid kernel_end heap heap-IsValid

free_range_lem_example :
    (a' : Allocator) × (free_range kernel_end heap 0x8011_4000 0x8011_5000 ≡ some a')
    × IsValid kernel_end a'
    × (a'.start ≡ static)
    × (total a'.ranges * 4096 + 0x8011_4000 ≡ 12 * 4096 + 0x8011_5000)
    × ((x : ℕ) → covered a'.ranges x ≡ (covered heap.ranges x || between 0x8011_4000 0x8011_5000 x))
free_range_lem_example =
    free_range_lem kernel_end heap 0x8011_4000 0x8011_5000 heap-IsValid (omega arith) refl refl
      (omega arith) (omega arith) (inr (omega arith), (inl (omega arith), tt))

allocate_lem_example :
    ((12000 + 4096 < 2 ^ 32)
      × (k : ℕ) × (12000 ≤ k * 4096)
      × (k * 4096 < 12000 + 4096)
      × AllocateSpec kernel_end k heap (allocate kernel_end heap 12000))
    ⊎ ((2 ^ 32 ≤ 12000 + 4096) × (allocate kernel_end heap 12000 ≡ none))
allocate_lem_example = allocate_lem kernel_end 12000 heap heap-IsValid

abbrev layout : Layout
layout = record { size = 12000; align = 4 }

abbrev smaller : Allocator
smaller = record heap { ranges = low ∷ record high { size = 6 } ∷ []; length = 9 }

alloc_runs : alloc kernel_end heap layout ≡ some (ok 0x8011_D000, smaller)
unfolding alloc allocate
alloc_runs = refl

dealloc-alloc_example : dealloc kernel_end smaller 0x8011_D000 layout ≡ some heap
dealloc-alloc_example =
    dealloc-alloc kernel_end heap smaller layout 0x8011_D000 heap-IsValid (omega arith)
      (omega arith) alloc_runs
