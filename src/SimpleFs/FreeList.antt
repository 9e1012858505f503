-- ===== src/SimpleFs/FreeList.antt =====
-- The free list of lib/simple_fs/src/lib.rs as a stack of block numbers: what the words of its
-- blocks have to be for a disk to hold a given stack, top first.
use sprocket.Base.{
  ℕ, zero, suc, ◌+◌, ◌≡◌, ◌≢◌, refl, sym, ap, ◌∙◌, Bool, not, ◌==◌, none, some, List, [], ◌∷◌, ◌++◌,
  arith, length, get_or, set, replicate,
}
use sprocket.SimpleFs.Blocks.{position, rposition}

-- Entries in front of a tail, the last entry first: the top of the stack stands next to the tail.
unfoldable pub stored : List ℕ → List ℕ → List ℕ
stored [] tail = tail
stored (e ∷ es) tail = stored es (e ∷ tail)

abbrev pub NotIn : ℕ → List ℕ → Type 0
NotIn x [] = Unit
NotIn x (y ∷ ys) = (x ≢ y) × NotIn x ys

abbrev pub Distinct : List ℕ → Type 0
Distinct [] = Unit
Distinct (x ∷ xs) = NotIn x xs × Distinct xs

-- The blocks of the list, each with its entries, as one stack.
abbrev pub flatten : List (ℕ × List ℕ) → List ℕ
flatten [] = []
flatten ((b, es) ∷ groups) = es ++ b ∷ flatten groups

abbrev pub FreeFrom : (ℕ → List ℕ) → ℕ → List (ℕ × List ℕ) → Type 0
FreeFrom w h [] = h ≡ 0
FreeFrom w h ((b, es) ∷ groups) =
    (h ≡ b)
    × ((k : ℕ) × (next : ℕ) × (w b ≡ next ∷ stored es (replicate k 0)) × FreeFrom w next groups)

pub NotIn-append : (x : ℕ) (xs ys : List ℕ) → NotIn x (xs ++ ys) → NotIn x ys
NotIn-append x [] ys h = h
NotIn-append x (y ∷ xs) ys h = NotIn-append x xs ys h.1

pub NotIn-left : (x : ℕ) (xs ys : List ℕ) → NotIn x (xs ++ ys) → NotIn x xs
NotIn-left x [] ys h = tt
NotIn-left x (y ∷ xs) ys h = (h.0, NotIn-left x xs ys h.1)

pub Distinct-append : (xs ys : List ℕ) → Distinct (xs ++ ys) → Distinct ys
Distinct-append [] ys h = h
Distinct-append (x ∷ xs) ys h = Distinct-append xs ys h.1

-- Two sectors outside of the list do not matter to it.
pub FreeFrom-frame :
    (w w' : ℕ → List ℕ) (x y : ℕ)
    → ((t : ℕ) → t ≢ x → t ≢ y → w' t ≡ w t)
    → (h : ℕ) (groups : List (ℕ × List ℕ)) → NotIn x (flatten groups)
    → NotIn y (flatten groups)
    → FreeFrom w h groups
    → FreeFrom w' h groups
FreeFrom-frame w w' x y same h [] nx ny f = f
FreeFrom-frame w w' x y same h ((b, es) ∷ groups) nx ny f =
    let (at, (k, next, content, rest)) = f in
    let nx' = NotIn-append x es (b ∷ flatten groups) nx in
    let ny' = NotIn-append y es (b ∷ flatten groups) ny in
    (
      at,
      (
        k,
        next,
        same b (λ e. nx'.0 (sym e)) (λ e. ny'.0 (sym e)) ∙ content,
        FreeFrom-frame w w' x y same next groups nx'.1 ny'.1 rest,
      ),
    )

abbrev pub used : ℕ → Bool
used x = not (x == 0)

abbrev pub empty : ℕ → Bool
empty x = x == 0

pub rposition-stored :
    (es tail : List ℕ) (i : ℕ)
    → rposition used tail ≡ some i
    → rposition used (stored es tail) ≡ some (length es + i)
unfolding stored
rposition-stored [] tail i h = h ∙ ap some (omega arith)
rposition-stored (e ∷ es) tail i h =
    rposition-stored es (e ∷ tail) (suc i) (rw h refl) ∙ ap some (omega arith)

pub set-stored :
    (es tail : List ℕ) (i v : ℕ) → set (stored es tail) (length es + i) v ≡ stored es (set tail i v)
unfolding stored
set-stored [] tail i v = ap (λ n. set tail n v) (omega arith)
set-stored (e ∷ es) tail i v =
    ap (λ n. set (stored es (e ∷ tail)) n v) (omega arith) ∙ set-stored es (e ∷ tail) (suc i) v

pub get_or-stored :
    (es tail : List ℕ) (i d : ℕ) → get_or (stored es tail) (length es + i) d ≡ get_or tail i d
unfolding stored
get_or-stored [] tail i d = ap (λ n. get_or tail n d) (omega arith)
get_or-stored (e ∷ es) tail i d =
    ap (λ n. get_or (stored es (e ∷ tail)) n d) (omega arith)
    ∙ get_or-stored es (e ∷ tail) (suc i) d

pub rposition-replicate : (k : ℕ) → rposition used (replicate k 0) ≡ none
rposition-replicate zero = refl
rposition-replicate (suc k) = rw (rposition-replicate k) refl

pub rposition-stored_top :
    (es : List ℕ) (e k : ℕ)
    → 0 ≢ e
    → rposition used (stored es (e ∷ replicate k 0)) ≡ some (length es)
rposition-stored_top es e k nz =
    let last : rposition used (e ∷ replicate k 0) ≡ some 0 =
      rw (rposition, rposition-replicate k) (ground (arith, nz)) in
    rposition-stored es (e ∷ replicate k 0) 0 last ∙ ap some (omega arith)

pub position-stored :
    (es tail : List ℕ) (i : ℕ)
    → NotIn 0 es
    → position empty tail ≡ some i
    → position empty (stored es tail) ≡ some (length es + i)
unfolding stored
position-stored [] tail i nz h = h ∙ ap some (omega arith)
position-stored (e ∷ es) tail i nz h =
    position-stored es (e ∷ tail) (suc i) nz.1 (ground (arith, h, nz.0)) ∙ ap some (omega arith)

pub position-stored-none :
    (es tail : List ℕ)
    → NotIn 0 es
    → position empty tail ≡ none
    → position empty (stored es tail) ≡ none
unfolding stored
position-stored-none [] tail nz h = h
position-stored-none (e ∷ es) tail nz h =
    position-stored-none es (e ∷ tail) nz.1 (ground (arith, h, nz.0))
