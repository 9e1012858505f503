-- ===== src/Kalloc/Canonical.antt =====
-- The free list is canonical: the covered addresses determine the ranges.
use sprocket.Base.{ℕ, ◌≡◌, refl, ap₂, ◌∷◌, [], List, arith}
use sprocket.Kalloc.{Range, end_addr}
use sprocket.Kalloc.Chain.{Chain, covered, covered-above}

-- A chain is determined by the addresses that it covers, since its ranges do not touch.
module _ (lo : ℕ) (r s : Range) (rs ss : List Range) (c : Chain lo (r ∷ rs)) (d : Chain lo (s ∷ ss))
    (same : (x : ℕ) → covered (r ∷ rs) x ≡ covered (s ∷ ss) x) where
  same_base : r.base ≡ s.base
  same_base = ground (
    arith,
    same r.base,
    same s.base,
    covered-above (end_addr r) s.base rs c.3,
    covered-above (end_addr s) r.base ss d.3,
  )

  same_end : end_addr r ≡ end_addr s
  same_end = ground (
    arith,
    same_base,
    same (end_addr r),
    same (end_addr s),
    covered-above (end_addr r) (end_addr r) rs c.3,
    covered-above (end_addr s) (end_addr s) ss d.3,
  )

  same_tail : (x : ℕ) → covered rs x ≡ covered ss x
  same_tail x = ground (
    arith,
    same_base,
    same_end,
    same x,
    covered-above (end_addr r) x rs c.3,
    covered-above (end_addr s) x ss d.3,
  )

pub Chain-unique :
    (lo : ℕ) (rs ss : List Range)
    → Chain lo rs
    → Chain lo ss
    → ((x : ℕ) → covered rs x ≡ covered ss x)
    → rs ≡ ss
Chain-unique lo [] [] c d same = refl
Chain-unique lo [] (s ∷ ss) c d same = absurd (ground (arith, same s.base))
Chain-unique lo (r ∷ rs) [] c d same = absurd (ground (arith, same r.base))
Chain-unique lo (r ∷ rs) (s ∷ ss) c d same =
    let eb = same_base lo r s rs ss c d same in
    let ee = same_end lo r s rs ss c d same in
    let er : r ≡ s = ground arith in
    let el : rs ≡ ss =
      Chain-unique (end_addr r) rs ss c.3 (rw er d.3) (same_tail lo r s rs ss c d same) in
    ap₂ ◌∷◌ er el
