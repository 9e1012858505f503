-- ===== src/Kalloc/Chain.antt =====
-- What the free list stands for: page-aligned ranges in address order with gaps between them, the
-- addresses that they cover and the pages that they hold.
use sprocket.Base.{
  ℕ, ◌+◌, ◌*◌, ◌%◌, ◌≤◌, ◌<◌, ◌≡◌, refl, Bool, true, false, ◌&&◌, ◌||◌, ◌⊎◌, List, [], ◌∷◌, arith,
  ltb, leb,
}
use sprocket.Mem.{kernbase, phystop}
use sprocket.Kalloc.{Range, Allocator, end_addr}

-- the first address behind the physical memory that the kernel maps
abbrev pub top : ℕ
top = kernbase + phystop

-- The ranges begin above `lo`, and each begins above the end of the one before it.
abbrev pub Chain : ℕ → List Range → Type 0
Chain lo [] = Unit
Chain lo (r ∷ rs) = (lo < r.base) × (r.base % 4096 ≡ 0) × (end_addr r ≤ top) × Chain (end_addr r) rs

abbrev pub total : List Range → ℕ
total [] = 0
total (r ∷ rs) = r.size + 1 + total rs

-- Is the byte at `x` in the block from `b` up to `e`?
abbrev pub between : (b e x : ℕ) → Bool
between b e x = leb b x && ltb x e

abbrev pub covered : List Range → ℕ → Bool
covered [] x = false
covered (r ∷ rs) x = between r.base (end_addr r) x || covered rs x

-- No range meets the block from `b` up to `e`.
abbrev pub Apart : (b e : ℕ) → List Range → Type 0
Apart b e [] = Unit
Apart b e (r ∷ rs) = ((e ≤ r.base) ⊎ (end_addr r ≤ b)) × Apart b e rs

-- The state that every operation keeps. The static header has no pages of its own, and lies in the
-- kernel's image, which ends a page or more below the first range.
pub record IsValid (kernel_end : ℕ) (a : Allocator) : Type 0 where
  pub floor : kernbase ≤ kernel_end
  pub start_empty : a.start.size ≡ 0
  pub start_below : a.start.base < kernel_end
  pub chain : Chain (kernel_end + 4095) a.ranges
  pub counted : a.length ≡ total a.ranges

pub Chain-mono : (lo hi : ℕ) (rs : List Range) → lo ≤ hi → Chain hi rs → Chain lo rs
Chain-mono lo hi [] h c = c
Chain-mono lo hi (r ∷ rs) h c = (omega arith, c.1, c.2, c.3)

-- A chain above `lo` has no more pages than fit between `lo` and the top of memory.
pub total-le : (lo : ℕ) (rs : List Range) → lo ≤ top → Chain lo rs → total rs * 4096 + lo ≤ top
total-le lo [] h c = omega arith
total-le lo (r ∷ rs) h c = omega (arith, total-le (end_addr r) rs c.2 c.3)

pub total-le_top : (lo : ℕ) (rs : List Range) → Chain lo rs → total rs * 4096 + lo ≤ top + lo
total-le_top lo [] c = omega arith
total-le_top lo (r ∷ rs) c = omega (arith, total-le (end_addr r) rs c.2 c.3)

pub covered-above : (lo x : ℕ) (rs : List Range) → Chain lo rs → x ≤ lo → covered rs x ≡ false
covered-above lo x [] c h = refl
covered-above lo x (r ∷ rs) c h = ground (arith, covered-above (end_addr r) x rs c.3)

pub Apart-of_fresh :
    (b e : ℕ) (rs : List Range)
    → b < e
    → ((x : ℕ) → between b e x ≡ true → covered rs x ≡ false)
    → Apart b e rs
Apart-of_fresh b e [] lt fresh = tt
Apart-of_fresh b e (r ∷ rs) lt fresh = (
  ground (arith, fresh b, fresh r.base),
  Apart-of_fresh b e rs lt (λ x h. ground (arith, fresh x h)),
)
