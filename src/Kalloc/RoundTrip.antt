-- ===== src/Kalloc/RoundTrip.antt =====
-- Allocation and deallocation through `RangeAlloc` undo each other.
use sprocket.Base.{ℕ, ◌+◌, ◌*◌, ◌^◌, ◌<◌, ◌≡◌, some, arith, ap, sym, ◌∙◌}
use sprocket.Mem.Paging.{pageno_lem}
use sprocket.Kalloc.{Allocator, allocate, free_range}
use sprocket.Kalloc.Chain.{total, IsValid, Apart-of_fresh}
use sprocket.Kalloc.Canonical.{Chain-unique}
use sprocket.Kalloc.Free.{free_range_lem}
use sprocket.Kalloc.Allocate.{Taken, AllocateSpec, allocate_pages, size_to_pages_lem}
use sprocket.Kalloc.Global.{Layout, ok, alloc, dealloc}

-- A successful `alloc` is a successful `allocate`.
alloc-ok :
    (kernel_end : ℕ) (a a' : Allocator) (layout : Layout) (p : ℕ)
    → alloc kernel_end a layout ≡ some (ok p, a')
    → allocate kernel_end a layout.size ≡ some (some p, a')
unfolding alloc
alloc-ok kernel_end a a' layout p e = ground arith

module _ (kernel_end k p : ℕ) (a a' : Allocator) (v : IsValid kernel_end a)
    (v' : IsValid kernel_end a') (same : a'.start ≡ a.start)
    (t : Taken k (kernel_end + 4095) a.ranges p a'.ranges) (pos : 0 < k) where
  -- The block goes back between the ranges from which it was taken.
  free_range-Taken : free_range kernel_end a' p (p + k * 4096) ≡ some a
  free_range-Taken =
      let (b, e, vb, sb, pages, cover) =
        free_range_lem kernel_end a' p (p + k * 4096) v' (omega (arith, t.above)) t.aligned
          (omega (arith, t.aligned)) (omega arith) t.high
          (Apart-of_fresh p (p + k * 4096) a'.ranges (omega arith) t.fresh) in
      let ranges : b.ranges ≡ a.ranges =
        Chain-unique (kernel_end + 4095) b.ranges a.ranges vb.chain v.chain
          (λ x. cover x ∙ sym (t.cover x)) in
      let length : b.length ≡ a.length = vb.counted ∙ ap total ranges ∙ sym v.counted in
      let whole : b ≡ a = ground (arith, sb, same, ranges, length) in e ∙ ap some whole

-- After an allocation of at least one byte, deallocating the block with the same layout passes every
-- assertion and gives back the allocator as it was before the allocation.
pub dealloc-alloc :
    (kernel_end : ℕ) (a a' : Allocator) (layout : Layout) (p : ℕ)
    → IsValid kernel_end a
    → 0 < layout.size
    → layout.size + 4096 < 2 ^ 32
    → alloc kernel_end a layout ≡ some (ok p, a')
    → dealloc kernel_end a' p layout ≡ some a
unfolding dealloc
dealloc-alloc kernel_end a a' layout p v pos small e =
    let (k, pages, enough, least) = size_to_pages_lem layout.size small in
    let s : AllocateSpec kernel_end k a (some (some p, a')) =
      rw (alloc-ok kernel_end a a' layout p e) at
        (allocate_pages kernel_end layout.size k a v pages) in
    let t = s.2 in
    rw (dealloc, pages)
      (ground (
        arith,
        free_range-Taken kernel_end k p a a' v s.0 s.1 t (omega arith),
        pageno_lem kernel_end p (omega (arith, t.above)) t.aligned (omega (arith, t.high)),
        pageno_lem kernel_end (p + k * 4096) (omega (arith, t.above)) (omega (arith, t.aligned))
            (omega (arith, t.high)),
      ))
