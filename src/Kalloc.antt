-- ===== src/Kalloc.antt =====
-- lib/kalloc/src/allocator.rs: the page allocator, a free list of page ranges in address order.
-- Each `Range` header lies at the start of the memory that it describes and is reached only from
-- the header before it, so the chain behind `start` is a list of ranges with their addresses.
-- A failed assertion is `none`. Pointer arithmetic stays inside the address space.
pub mod Canonical
pub mod Chain
pub mod Verify
pub mod Free
pub mod Allocate
pub mod Global
pub mod RoundTrip
pub mod Boot
mod Examples
use sprocket.Base.{
  ℕ, ◌+◌, ◌-◌, ◌*◌, ◌/◌, ◌^◌, Bool, true, false, ◌&&◌, Option, none, some, List, [], ◌∷◌, ltb, leb,
  ◌==◌, if◌then◌else◌, u32, wrapping_sub,
}
use sprocket.Mem.{VirtAddr, pgsize, phystop, to_phys, is_page_aligned, pageno}

-- `base` is the address of the header; `size` counts the pages behind the header's own page.
pub record Range : Type 0 where
  pub base : ℕ
  pub size : ℕ

pub record Allocator : Type 0 where
  pub start : Range
  pub ranges : List Range
  pub length : ℕ

-- `Range::offset`
abbrev pub page_addr : Range → ℕ → ℕ
page_addr r pages = r.base + pages * pgsize

abbrev pub end_addr : Range → ℕ
end_addr r = page_addr r (r.size + 1)

-- The last pages of a range. The assertion repeats the test of the only caller.
abbrev pub allocate_from_range : Range → ℕ → ℕ × Range
allocate_from_range r num_pages =
    (page_addr r (r.size + 1 - num_pages), record r { size = r.size - num_pages })

abbrev next_above : Range → List Range → Bool
next_above n [] = true
next_above n (s ∷ _) = ltb n.base s.base && ltb (end_addr n) s.base

-- The loop of `verify`: the number of pages, unless an assertion fails.
verify_from : (kernel_end : VirtAddr) → ℕ → List Range → Option ℕ
verify_from kernel_end size [] = some size
verify_from kernel_end size (n ∷ rest) =
    if ltb kernel_end n.base && ltb (to_phys n.base) phystop && next_above n rest
    then verify_from kernel_end (u32 (size + (n.size + 1))) rest
    else none

pub verify : (kernel_end : VirtAddr) → Allocator → Bool
unfolding verify_from
verify kernel_end a = elim (verify_from kernel_end 0 a.ranges) [
  | none ↦ false
  | some size ↦ size == a.length
]

-- Can the new range be merged with the next one?
merge_next : Range → List Range → Range × List Range
merge_next new [] = (new, [])
merge_next new (n ∷ rest) =
    if end_addr new == n.base
    then (record new { size = new.size + (n.size + 1) }, rest)
    else (new, n ∷ rest)

-- Can it be merged with the previous one?
merge_prev : Range → Range × List Range → Range × List Range
merge_prev prev (new, rest) =
    if end_addr prev == new.base
    then (record prev { size = prev.size + (new.size + 1) }, rest)
    else (prev, new ∷ rest)

-- The loop of `free_range`, at `prev` with the ranges behind it.
insert_range : (new prev : Range) → List Range → Range × List Range
unfolding merge_next merge_prev
insert_range new prev [] = merge_prev prev (merge_next new [])
insert_range new prev (n ∷ rest) =
    let further : Range × List Range =
      (let (n', rest') = insert_range new n rest in (prev, n' ∷ rest')) in
    if ltb new.base n.base && ltb prev.base new.base
    then merge_prev prev (merge_next new (n ∷ rest))
    else further

-- The range between two aligned addresses: `(vstart.pageno()..vend.pageno()).len() - 1` pages.
abbrev pub new_range : (kernel_end vstart vend : VirtAddr) → Range
new_range kernel_end vstart vend = record {
  base = vstart;
  size = wrapping_sub (pageno kernel_end vend - pageno kernel_end vstart) 1;
}

pub free_range : (kernel_end : VirtAddr) → Allocator → (vstart vend : VirtAddr) → Option Allocator
unfolding verify insert_range
free_range kernel_end a vstart vend =
    if verify kernel_end a && ltb vstart vend && is_page_aligned vstart && is_page_aligned vend
    then (let new = new_range kernel_end vstart vend in
        let (start', ranges') = insert_range new a.start a.ranges in
        some
          (record { start = start'; ranges = ranges'; length = u32 (a.length + (new.size + 1)) }))
    else none

-- `none` is the panic of a sum that overflows, in the build without optimization.
unfoldable pub size_to_pages : ℕ → Option ℕ
size_to_pages size =
    if ltb (pgsize + size) (2 ^ 32) then some ((pgsize + size - 1) / pgsize) else none

abbrev keep : Range → ℕ × List Range → Option (ℕ × List Range)
keep n (p, rest) = some (p, n ∷ rest)

-- The loop of `allocate`: first fit, from the end of a longer range or a whole range.
allocate_from : (requested_pages : ℕ) → List Range → Option (ℕ × List Range)
allocate_from k [] = none
allocate_from k (n ∷ rest) =
    let further : Option (ℕ × List Range) = elim (allocate_from k rest) [
      | none ↦ none
      | some r ↦ keep n r
    ] in
    if leb k n.size
    then (let (p, n') = allocate_from_range n k in some (p, n' ∷ rest))
    else if n.size + 1 == k
    then some (n.base, rest)
    else further

-- The inner `none` is the error "Could not find large enough contiguous area".
pub allocate : (kernel_end : VirtAddr) → Allocator → (size : ℕ) → Option (Option ℕ × Allocator)
unfolding verify size_to_pages allocate_from
allocate kernel_end a size =
    if verify kernel_end a
    then elim (size_to_pages size) [
      | none ↦ none
      | some requested_pages ↦ some (elim (allocate_from requested_pages a.ranges) [
        | none ↦ (none, a)
        | some (p, ranges') ↦
            (some p, record a { ranges = ranges'; length = wrapping_sub a.length requested_pages })
      ])
    ]
    else none
