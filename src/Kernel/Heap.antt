-- ===== src/Kernel/Heap.antt =====
-- The global allocator as `box` sees it, and `main` of src/lib.rs up to `kvmalloc`: the first part of
-- the heap, and the page tables that are made from it.
use sprocket.Base.{
  ℕ, suc, ◌+◌, ◌%◌, ◌^◌, ◌<◌, ◌≡◌, refl, false, true, Option, none, some, List, [], ◌∷◌, arith,
}
use sprocket.Mem.{VirtAddr}
use sprocket.Kalloc.{Range, Allocator, allocate, size_to_pages}
use sprocket.Kalloc.Chain.{between, covered, total, IsValid}
use sprocket.Kalloc.Allocate.{fits, Taken, AllocateSpec, allocate_pages}
use sprocket.Kalloc.Global.{Layout, ok, exhausted, alloc}
use sprocket.Vm.{Boxes}
use sprocket.Vm.Translate.{PageBoxes}

-- A directory or a table, 1024 words.
abbrev pub page_layout : Layout
page_layout = record { size = 4096; align = 4 }

-- `box` with such a value: a call of the global allocator, which ends the kernel when it fails.
unfoldable pub page_box : (kernel_end : VirtAddr) → Boxes Allocator
unfolding alloc
page_box kernel_end a = elim (alloc kernel_end a page_layout) [
  | none ↦ none
  | some (ok p, a') ↦ some (p, a')
  | some (exhausted layout, a') ↦ none
]

one_page : size_to_pages 4096 ≡ some 1
unfolding size_to_pages
one_page = refl

fits_one : (rs : List Range) → 0 < total rs → fits 1 rs ≡ true
fits_one [] h = absurd (omega arith)
fits_one (r ∷ rs) h = ground arith

-- What a new page is: one that was free and is not any more.
abbrev NewPage : (kernel_end : ℕ) → (a : Allocator) → Option (Option ℕ × Allocator) → Type 0
NewPage kernel_end a o =
    (p : ℕ) × (a' : Allocator) × (o ≡ some (some p, a'))
    × IsValid kernel_end a'
    × Taken 1 (kernel_end + 4095) a.ranges p a'.ranges

new_page :
    (kernel_end : ℕ) (a : Allocator) (o : Option (Option ℕ × Allocator))
    → 0 < total a.ranges
    → AllocateSpec kernel_end 1 a o
    → NewPage kernel_end a o
new_page kernel_end a none h t = absurd t
new_page kernel_end a (some (none, a')) h t = absurd (ground (arith, fits_one a.ranges h, t))
new_page kernel_end a (some (some p, a')) h t = (p, a', refl, t.0, t.2)

allocate-page :
    (kernel_end : ℕ) (a : Allocator)
    → IsValid kernel_end a
    → 0 < total a.ranges
    → NewPage kernel_end a (allocate kernel_end a 4096)
allocate-page kernel_end a v h =
    new_page kernel_end a (allocate kernel_end a 4096) h
      (allocate_pages kernel_end 4096 1 a v one_page)

page_box_lem :
    (kernel_end p : ℕ) (a a' : Allocator)
    → allocate kernel_end a 4096 ≡ some (some p, a')
    → page_box kernel_end a ≡ some (p, a')
unfolding page_box alloc
page_box_lem kernel_end p a a' e = rw (page_box, alloc, e) refl

-- A valid allocator that has no memory outside of the heap from `lo` to `hi`.
pub record IsHeap (kernel_end lo hi : ℕ) (a : Allocator) : Type 0 where
  pub valid : IsValid kernel_end a
  pub inside : (x : ℕ) → covered a.ranges x ≡ true → between lo hi x ≡ true

-- An address of the heap that no free range covers.
abbrev pub Used : (lo hi : ℕ) → Allocator → ℕ → Type 0
Used lo hi a x = (between lo hi x ≡ true) × (covered a.ranges x ≡ false)

module _ (kernel_end lo hi : ℕ) (a : Allocator) (h : IsHeap kernel_end lo hi a)
    (space : 0 < total a.ranges) where
  pub page_box-gives :
      (p : ℕ) × (a' : Allocator) × (page_box kernel_end a ≡ some (p, a'))
      × (p % 4096 ≡ 0)
      × (p < 2 ^ 32)
      × (¬ Used lo hi a p)
      × Used lo hi a' p
      × ((b : ℕ) → Used lo hi a b → Used lo hi a' b)
      × (total a.ranges ≡ suc (total a'.ranges))
      × IsHeap kernel_end lo hi a'
  page_box-gives =
      let (p, a', run, v', t) = allocate-page kernel_end a h.valid space in
      let free : covered a.ranges p ≡ true = ground (arith, t.cover p) in
      (
        p,
        a',
        page_box_lem kernel_end p a a' run,
        t.aligned,
        omega (arith, t.high),
        λ u. ground (arith, free, u.1),
        (h.inside p free, t.fresh p (ground arith)),
        λ b u. (u.0, ground (arith, t.cover b, u.1)),
        omega (arith, t.pages),
        record { valid = v'; inside = λ x c. h.inside x (ground (arith, t.cover x)) },
      )

-- The page allocator is one of those that `setupkvm` relies on.
unfoldable pub kernel_boxes : (kernel_end lo hi : ℕ) → PageBoxes (page_box kernel_end)
kernel_boxes kernel_end lo hi = record {
  taken = Used lo hi;
  room = λ a. total a.ranges;
  valid = IsHeap kernel_end lo hi;
  gives = page_box-gives kernel_end lo hi;
}
