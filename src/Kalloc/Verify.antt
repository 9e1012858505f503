-- ===== src/Kalloc/Verify.antt =====
-- The assertions of `verify` hold on every valid allocator.
use sprocket.Base.{ℕ, ◌+◌, ◌^◌, ◌≤◌, ◌<◌, ◌≡◌, refl, true, some, List, [], ◌∷◌, arith}
use sprocket.Mem.{kernbase}
use sprocket.Kalloc.{Range, Allocator, end_addr, next_above, verify_from, verify}
use sprocket.Kalloc.Chain.{Chain, total, IsValid, total-le_top}

next_above-Chain : (n : Range) (rs : List Range) → Chain (end_addr n) rs → next_above n rs ≡ true
next_above-Chain n [] c = refl
next_above-Chain n (r ∷ rs) c = ground arith

verify_from-total :
    (kernel_end size lo : ℕ) (rs : List Range)
    → kernbase ≤ kernel_end
    → kernel_end ≤ lo
    → Chain lo rs
    → size + total rs < 2 ^ 32
    → verify_from kernel_end size rs ≡ some (size + total rs)
unfolding verify_from
verify_from-total kernel_end size lo [] floor le c small = ground arith
verify_from-total kernel_end size lo (r ∷ rs) floor le c small = ground (
  arith,
  next_above-Chain r rs c.3,
  verify_from-total kernel_end (size + (r.size + 1)) (end_addr r) rs,
)

-- On a valid allocator no assertion of `verify` fails.
pub verify-IsValid :
    (kernel_end : ℕ) (a : Allocator) → IsValid kernel_end a → verify kernel_end a ≡ true
unfolding verify
verify-IsValid kernel_end a v =
    let le = total-le_top (kernel_end + 4095) a.ranges v.chain in
    ground (
      arith,
      verify_from-total kernel_end 0 (kernel_end + 4095) a.ranges v.floor (omega arith) v.chain
          (omega arith),
    )
