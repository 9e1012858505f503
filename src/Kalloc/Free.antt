-- ===== src/Kalloc/Free.antt =====
-- `Allocator::free_range`: the freed block joins the free list and is merged with its neighbours.
use sprocket.Base.{
  ℕ, ◌+◌, ◌*◌, ◌%◌, ◌≤◌, ◌<◌, ◌≡◌, refl, true, false, ◌||◌, ◌&&◌, List, [], ◌∷◌, some, inl, inr,
  ltb, Bool-cases, arith, u32, ap,
}
use sprocket.Mem.{VirtAddr}
use sprocket.Mem.Paging.{pageno_lem}
use sprocket.Kalloc.{
  Range, Allocator, end_addr, merge_next, merge_prev, insert_range, new_range, free_range,
}
use sprocket.Kalloc.Chain.{
  top, Chain, total, between, covered, Apart, IsValid, Chain-mono, total-le_top, covered-above,
}
use sprocket.Kalloc.Verify.{verify-IsValid}

-- What inserting `new` behind `prev` gives: the header in front and the ranges behind it.
record Inserted (new prev : Range) (rest : List Range) (out : Range × List Range) : Type 0 where
  base : out.0.base ≡ prev.base
  high : end_addr out.0 ≤ top
  chain : Chain (end_addr out.0) out.1
  pages : out.0.size + total out.1 ≡ prev.size + total rest + (new.size + 1)
  cover :
      (x : ℕ)
      → covered (out.0 ∷ out.1) x ≡ (covered (prev ∷ rest) x || between new.base (end_addr new) x)
  apart : end_addr prev < new.base → out.0 ≡ prev
  chain_from : (lo : ℕ) → end_addr prev < new.base → lo < new.base → Chain lo rest → Chain lo out.1

-- The merges, where `new` lies between `prev` and the ranges behind it.
module _ (new prev : Range) (aligned : new.base % 4096 ≡ 0) (below : end_addr new ≤ top)
    (order : end_addr prev ≤ new.base) where
  merge_last-Inserted : Inserted new prev [] (merge_prev prev (merge_next new []))
  unfolding merge_prev merge_next
  merge_last-Inserted = record {
    base = ground arith;
    high = ground arith;
    chain = ground arith;
    pages = ground arith;
    cover = λ x. ground arith;
    apart = ground arith;
    chain_from = λ lo h l c. ground arith;
  }

  merge-Inserted :
      (n : Range) (rest : List Range)
      → end_addr new ≤ n.base
      → Chain (end_addr prev) (n ∷ rest)
      → Inserted new prev (n ∷ rest) (merge_prev prev (merge_next new (n ∷ rest)))
  unfolding merge_prev merge_next
  merge-Inserted n rest le c = record {
    base = ground arith;
    high = ground arith;
    chain = ground arith;
    pages = ground arith;
    cover = λ x. ground arith;
    apart = ground arith;
    chain_from = λ lo h l c. ground arith;
  }

insert_range-Inserted :
    (new prev : Range) (rest : List Range)
    → new.base % 4096 ≡ 0
    → end_addr new ≤ top
    → end_addr prev ≤ new.base
    → Chain (end_addr prev) rest
    → Apart new.base (end_addr new) rest
    → Inserted new prev rest (insert_range new prev rest)
unfolding insert_range
insert_range-Inserted new prev [] aligned below order c apart =
    merge_last-Inserted new prev aligned below order
insert_range-Inserted new prev (n ∷ rest) aligned below order c apart =
    elim (Bool-cases (ltb new.base n.base)) [
      | inl before ↦
          let this : (ltb new.base n.base && ltb prev.base new.base) ≡ true = ground arith in
          rw this (merge-Inserted new prev aligned below order n rest (ground arith) c)
      | inr after ↦
          let further : (ltb new.base n.base && ltb prev.base new.base) ≡ false = ground arith in
          rw further
            (behind (insert_range-Inserted new n rest aligned below (ground arith) c.3 apart.1))
    ]
  where
    behind :
        {out : Range × List Range}
        → Inserted new n rest out
        → Inserted new prev (n ∷ rest) (prev, out.0 ∷ out.1)
    behind i = record {
      base = refl;
      high = ground arith;
      chain = ground (arith, i.base, i.high, i.chain);
      pages = ground (arith, i.pages);
      cover = λ x. ground (arith, i.cover x);
      apart = λ _. refl;
      chain_from = λ lo h l c'. ground (arith, i.base, i.high, i.chain);
    }

-- Freeing an aligned block that lies above the kernel, below the top of memory and apart from what
-- is free succeeds: the allocator is valid again, it has the block's pages more, and an address is
-- free exactly if it was free or lies in the block.
pub free_range_lem :
    (kernel_end : ℕ) (a : Allocator) (vstart vend : VirtAddr)
    → IsValid kernel_end a
    → kernel_end + 4096 ≤ vstart
    → vstart % 4096 ≡ 0
    → vend % 4096 ≡ 0
    → vstart < vend
    → vend ≤ top
    → Apart vstart vend a.ranges
    → (a' : Allocator) × (free_range kernel_end a vstart vend ≡ some a')
      × IsValid kernel_end a'
      × (a'.start ≡ a.start)
      × (total a'.ranges * 4096 + vstart ≡ total a.ranges * 4096 + vend)
      × ((x : ℕ) → covered a'.ranges x ≡ (covered a.ranges x || between vstart vend x))
unfolding free_range
free_range_lem kernel_end a vstart vend v above al ae lt le apart =
    let new = new_range kernel_end vstart vend in
    let grow : end_addr new ≡ vend = omega (
      arith,
      pageno_lem kernel_end vstart (omega arith) al (omega arith),
      pageno_lem kernel_end vend (omega arith) ae (omega arith),
    ) in
    let i : Inserted new a.start a.ranges (insert_range new a.start a.ranges) =
      insert_range-Inserted new a.start a.ranges al (omega arith) (omega arith)
        (Chain-mono (end_addr a.start) (kernel_end + 4095) a.ranges (omega arith) v.chain)
        (rw grow apart) in
    let out : Range × List Range = insert_range new a.start a.ranges in
    let chain : Chain (kernel_end + 4095) out.1 =
      i.chain_from (kernel_end + 4095) (omega arith) (omega arith) v.chain in
    (
      record { start = out.0; ranges = out.1; length = u32 (a.length + (new.size + 1)) },
      ground (arith, verify-IsValid kernel_end a v),
      record {
        floor = v.floor;
        start_empty = ground (arith, i.apart, v.start_empty);
        start_below = ground (arith, i.apart, v.start_below);
        chain = chain;
        counted = omega (
          arith,
          i.pages,
          ap (λ (r : Range). r.size) (i.apart (omega arith)),
          total-le_top (kernel_end + 4095) out.1 chain,
        );
      },
      i.apart (omega arith),
      omega (arith, i.pages, ap (λ (r : Range). r.size) (i.apart (omega arith))),
      λ x. ground (
        arith,
        i.cover x,
        i.apart,
        covered-above (kernel_end + 4095) x a.ranges v.chain,
        covered-above (kernel_end + 4095) x out.1 chain,
      ),
    )
