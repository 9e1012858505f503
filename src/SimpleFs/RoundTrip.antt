-- ===== src/SimpleFs/RoundTrip.antt =====
-- `free_block` and then `alloc_block`, both of lib/simple_fs/src/lib.rs.
use sprocket.Base.{ℕ, ◌<◌, ◌^◌, ◌≡◌, List, ◌∷◌, ◌∙◌}
use sprocket.SimpleFs.Types.{Disk, ok, ◌>>◌, then_ok}
use sprocket.SimpleFs.Blocks.{zero_block, alloc_block, free_block}
use sprocket.SimpleFs.Reliable.{Reliable}
use sprocket.SimpleFs.FreeList.{NotIn}
use sprocket.SimpleFs.AllocBlock.{IsFreeList, alloc_block-pop}
use sprocket.SimpleFs.FreeBlock.{free_block-push}

module _ {D : Type 0} {disk : Disk D} {device : ℕ} (reliable : Reliable disk device) where
  -- On a disk without faults, alloc_block hands out the block that was freed last, filled with
  -- zeros, and the free list is then the one before both calls.
  pub free_block-alloc_block :
      (d : D) (b : ℕ) (free : List ℕ)
      → IsFreeList reliable d free
      → NotIn b (0 ∷ free)
      → b < 2 ^ 32
      → (d' : D) × ((free_block disk device b >> alloc_block disk device) d ≡ ok b d')
        × (reliable.sector d' b ≡ zero_block)
        × IsFreeList reliable d' free
        × ((t : ℕ) → NotIn t (0 ∷ b ∷ free) → reliable.sector d' t ≡ reliable.sector d t)
  free_block-alloc_block d b free f out fits =
      let (d1, run1, f1, _, others1) = free_block-push reliable d b free f out fits in
      let (d2, run2, zeroed, f2, _, others2) = alloc_block-pop reliable d1 b free f1 in
      (
        d2,
        then_ok (free_block disk device b) (alloc_block disk device) run1 run2,
        zeroed,
        f2,
        λ t apart. others2 t apart ∙ others1 t apart,
      )
