-- ===== src/Kalloc/Allocate.antt =====
-- `Allocator::allocate`: first fit takes whole pages out of the free list.
use sprocket.Base.{
  ℕ, ◌+◌, ◌-◌, ◌*◌, ◌/◌, ◌%◌, ◌^◌, ◌≤◌, ◌<◌, ◌≡◌, ◌⊎◌, ltb, refl, Bool, true, false, ◌||◌, List, [],
  ◌∷◌, none, some, inl, inr, leb, ◌==◌, Bool-cases, Option, arith, wrapping_sub,
}
use sprocket.Kalloc.{
  Range, Allocator, end_addr, allocate_from, allocate, keep, size_to_pages, allocate_from_range,
}
use sprocket.Kalloc.Chain.{
  top, Chain, total, between, covered, IsValid, covered-above, total-le_top, Chain-mono,
}
use sprocket.Kalloc.Verify.{verify-IsValid}

-- The pages asked for hold the bytes asked for, and no page is wasted.
pub size_to_pages_lem :
    (size : ℕ)
    → size + 4096 < 2 ^ 32
    → (k : ℕ) × (size_to_pages size ≡ some k) × (size ≤ k * 4096) × (k * 4096 < size + 4096)
unfolding size_to_pages
size_to_pages_lem size h =
    let sum_fits : ltb (4096 + size) (2 ^ 32) ≡ true = ground arith in
    ((4096 + size - 1) / 4096, rw sum_fits refl, omega arith, omega arith)

size_to_pages_overflow : (size : ℕ) → 2 ^ 32 ≤ size + 4096 → size_to_pages size ≡ none
unfolding size_to_pages
size_to_pages_overflow size h =
    let too_large : ltb (4096 + size) (2 ^ 32) ≡ false = ground arith in rw too_large refl

-- Is there a range of `k` pages or more, its header's page counted?
abbrev pub fits : ℕ → List Range → Bool
fits k [] = false
fits k (r ∷ rs) = leb k (r.size + 1) || fits k rs

-- A block of `k` pages at `p` was free, and `rs'` is what is left of `rs`.
pub record Taken (k lo : ℕ) (rs : List Range) (p : ℕ) (rs' : List Range) : Type 0 where
  pub room : fits k rs ≡ true
  pub above : lo < p
  pub aligned : p % 4096 ≡ 0
  pub high : p + k * 4096 ≤ top
  pub chain : Chain lo rs'
  pub pages : total rs' + k ≡ total rs
  pub cover : (x : ℕ) → covered rs x ≡ (covered rs' x || between p (p + k * 4096) x)
  pub fresh : (x : ℕ) → between p (p + k * 4096) x ≡ true → covered rs' x ≡ false

abbrev Outcome : ℕ → ℕ → List Range → Option (ℕ × List Range) → Type 0
Outcome k lo rs none = fits k rs ≡ false
Outcome k lo rs (some (p, rs')) = Taken k lo rs p rs'

module _ (k lo : ℕ) (n : Range) (rest : List Range) (c : Chain lo (n ∷ rest)) where
  allocate_from_range-Taken :
      leb k n.size ≡ true
      → (let (p, n') = allocate_from_range n k in Taken k lo (n ∷ rest) p (n' ∷ rest))
  allocate_from_range-Taken h = record {
    room = ground arith;
    above = ground arith;
    aligned = ground arith;
    high = ground arith;
    chain = ground (arith, Chain-mono (end_addr n - k * 4096) (end_addr n) rest);
    pages = ground arith;
    cover = λ x. ground arith;
    fresh = λ x b. ground (arith, covered-above (end_addr n) x rest);
  }

  whole_range-Taken : (n.size + 1 == k) ≡ true → Taken k lo (n ∷ rest) n.base rest
  whole_range-Taken h = record {
    room = ground arith;
    above = ground arith;
    aligned = ground arith;
    high = ground arith;
    chain = Chain-mono lo (end_addr n) rest (ground arith) c.3;
    pages = ground arith;
    cover = λ x. ground arith;
    fresh = λ x b. ground (arith, covered-above (end_addr n) x rest);
  }

  keep-Outcome :
      leb k n.size ≡ false
      → (n.size + 1 == k) ≡ false
      → (o : Option (ℕ × List Range)) → Outcome k (end_addr n) rest o
      → Outcome k lo (n ∷ rest) (elim o [ none ↦ none | some r ↦ keep n r ])
  keep-Outcome small other none t = ground arith
  keep-Outcome small other (some (p, rest')) t = record {
    room = ground (arith, t.room);
    above = ground (arith, t.above);
    aligned = t.aligned;
    high = t.high;
    chain = (c.0, c.1, c.2, t.chain);
    pages = ground (arith, t.pages);
    cover = λ x. ground (arith, t.cover x);
    fresh = λ x b. ground (arith, t.fresh x b, t.above);
  }

allocate_from-Outcome :
    (k lo : ℕ) (rs : List Range) → Chain lo rs → Outcome k lo rs (allocate_from k rs)
unfolding allocate_from
allocate_from-Outcome k lo [] c = refl
allocate_from-Outcome k lo (n ∷ rest) c = elim (Bool-cases (leb k n.size)) [
  | inl enough ↦ rw enough (allocate_from_range-Taken k lo n rest c enough)
  | inr small ↦ elim (Bool-cases (n.size + 1 == k)) [
    | inl exact ↦ rw (small, exact) (whole_range-Taken k lo n rest c exact)
    | inr other ↦
        rw (small, other)
          (keep-Outcome k lo n rest c small other (allocate_from k rest)
            (allocate_from-Outcome k (end_addr n) rest c.3))
  ]
]

-- What a call for `k` pages may do: it fails and changes nothing only if no range is long enough.
abbrev pub AllocateSpec : (kernel_end k : ℕ) → Allocator → Option (Option ℕ × Allocator) → Type 0
AllocateSpec kernel_end k a none = ⊥
AllocateSpec kernel_end k a (some (none, a')) = (a' ≡ a) × (fits k a.ranges ≡ false)
AllocateSpec kernel_end k a (some (some p, a')) =
    IsValid kernel_end a' × (a'.start ≡ a.start) × Taken k (kernel_end + 4095) a.ranges p a'.ranges

-- `allocate` for so many pages.
pub allocate_pages :
    (kernel_end size k : ℕ) (a : Allocator)
    → IsValid kernel_end a
    → size_to_pages size ≡ some k
    → AllocateSpec kernel_end k a (allocate kernel_end a size)
unfolding allocate
allocate_pages kernel_end size k a v pages =
    rw (verify-IsValid kernel_end a v, pages)
      (spec (allocate_from k a.ranges)
        (allocate_from-Outcome k (kernel_end + 4095) a.ranges v.chain))
  where
    spec :
        (o : Option (ℕ × List Range))
        → Outcome k (kernel_end + 4095) a.ranges o
        → AllocateSpec kernel_end k a (
            some (elim o [
              | none ↦ (none, a)
              | some (p, ranges') ↦
                  (some p, record a { ranges = ranges'; length = wrapping_sub a.length k })
            ]))
    spec none t = (refl, t)
    spec (some (p, ranges')) t = (
      record {
        floor = v.floor;
        start_empty = v.start_empty;
        start_below = v.start_below;
        chain = t.chain;
        counted =
            omega (arith, t.pages, v.counted, total-le_top (kernel_end + 4095) a.ranges v.chain);
      },
      refl,
      t,
    )

allocate_overflow :
    (kernel_end size : ℕ) (a : Allocator)
    → IsValid kernel_end a
    → 2 ^ 32 ≤ size + 4096
    → allocate kernel_end a size ≡ none
unfolding allocate
allocate_overflow kernel_end size a v h =
    rw (verify-IsValid kernel_end a v, size_to_pages_overflow size h) refl

-- On a valid allocator no assertion fails. For a size more than a page below 2^32, the call is for the
-- least number of pages that holds it. It returns the error, with the state unchanged, only if no
-- range has the pages; otherwise it returns an aligned block of free pages below the top of memory,
-- and exactly that block leaves the free list of an allocator that is valid again. For a larger size
-- the call panics.
pub allocate_lem :
    (kernel_end size : ℕ) (a : Allocator)
    → IsValid kernel_end a
    → ((size + 4096 < 2 ^ 32)
        × (k : ℕ) × (size ≤ k * 4096)
        × (k * 4096 < size + 4096)
        × AllocateSpec kernel_end k a (allocate kernel_end a size))
      ⊎ ((2 ^ 32 ≤ size + 4096) × (allocate kernel_end a size ≡ none))
allocate_lem kernel_end size a v = elim (Bool-cases (ltb (size + 4096) (2 ^ 32))) [
  | inl small ↦
      let below : size + 4096 < 2 ^ 32 = ground arith in
      let (k, pages, enough, least) = size_to_pages_lem size below in
      inl (below, k, enough, least, allocate_pages kernel_end size k a v pages)
  | inr large ↦
      let above : 2 ^ 32 ≤ size + 4096 = ground arith in
      inr (above, allocate_overflow kernel_end size a v above)
]
