-- ===== src/Vm/Translate.antt =====
-- src/vm.rs: what a page directory stands for, the translation that the processor makes of it, and
-- the form of a directory that `walkpgdir` builds.
use sprocket.Base.{
  ℕ, suc, ◌+◌, ◌-◌, ◌∙◌, ap, inl, inr, zero-bit_or, bit_or-zero, bit_or_fields, ◌*◌, ◌/◌, ◌%◌, ◌^◌,
  ◌<◌, ◌≡◌, ◌≢◌, ◌⊎◌, Option, none, some, ◌==◌, if◌then◌else◌, bit_and, bit_or, bit_and_high,
  bit_and_low, arith,
}
use sprocket.Mem.{to_virt, to_phys}
use sprocket.Vm.{Paging, Boxes, address, present}

-- The table that a directory entry points to, at its virtual address.
abbrev pub table : (pde : ℕ) → ℕ
table pde = (pde / 4096 * 4096 + 2 ^ 31) % 2 ^ 32

-- An entry that is not present maps nothing.
abbrev pub if_present : (entry : ℕ) → Option ℕ
if_present entry = if entry % 2 == 1 then some entry else none

-- The entry that maps the page with the given number, as the processor finds it.
abbrev pub lookup : {H : Type 0} → Paging H → (page : ℕ) → Option ℕ
lookup p page =
    let pde = p.dir (page / 1024) in
    if pde % 2 == 1 then if_present (p.tables (table pde) (page % 1024)) else none

-- What the code relies on in the global allocator, where a box has the size of a page: it begins at a
-- page boundary, and a new one is none of those that were given out before. `room` counts the
-- boxes that are left, and `valid` is a state of the allocator that its calls keep.
pub record PageBoxes {H : Type 0} (box : Boxes H) : Type 1 where
  pub taken : H → ℕ → Type 0
  pub room : H → ℕ
  pub valid : H → Type 0
  pub gives :
      (h : H)
      → valid h
      → 0 < room h
      → (a : ℕ) × (h' : H) × (box h ≡ some (a, h'))
        × (a % 4096 ≡ 0)
        × (a < 2 ^ 32)
        × (¬ taken h a)
        × taken h' a
        × ((b : ℕ) → taken h b → taken h' b)
        × (room h ≡ suc (room h'))
        × valid h'

-- The entries of the directory that are present point to tables of their own, and the directory
-- itself lies in another page than they do. All of these pages are boxes that were given out.
pub record IsPaged {H : Type 0} {box : Boxes H} (boxes : PageBoxes box) (p : Paging H)
    : Type 0 where
  pub words : (i : ℕ) → p.dir i < 2 ^ 32
  pub taken : (i : ℕ) → p.dir i % 2 ≡ 1 → boxes.taken p.heap (table (p.dir i))
  pub apart :
      (i j : ℕ) → p.dir i % 2 ≡ 1 → p.dir j % 2 ≡ 1 → table (p.dir i) ≡ table (p.dir j) → i ≡ j
  pub root_taken : boxes.taken p.heap p.root
  pub root_apart : (i : ℕ) → p.dir i % 2 ≡ 1 → table (p.dir i) ≢ p.root
  pub heap_valid : boxes.valid p.heap

pub is_present : (entry : ℕ) → bit_and entry present ≡ entry % 2
is_present entry = bit_and_low 1 entry

pub address_lem : (entry : ℕ) → entry < 2 ^ 32 → to_virt (address entry) ≡ table entry
unfolding address
address_lem entry h =
    omega (arith, bit_and_high 12 entry (2 ^ 20 - 1), bit_and_low 20 (entry / 2 ^ 12))

-- The directory entry for a new table.
abbrev pub new_pde : (pgtab : ℕ) → ℕ
new_pde pgtab = to_phys pgtab + 7

low_flags : (q r s : ℕ) → r < 4096 → s < 4096 → bit_or (q * 2 ^ 12 + r) s ≡ q * 2 ^ 12 + bit_or r s
low_flags q r s hr hs = ground (arith, bit_or_fields 12 q r 0 s, bit_or-zero q)

pub flags_lem : (pa : ℕ) → pa % 4096 ≡ 0 → bit_or (bit_or (bit_or (bit_or 0 pa) 1) 4) 2 ≡ pa + 7
flags_lem pa aligned =
    let q = pa / 4096 in
    let e : pa ≡ q * 2 ^ 12 + 0 = omega arith in
    rw (zero-bit_or pa, e)
      (ap (λ x. bit_or (bit_or x 4) 2) (low_flags q 0 1 (omega arith) (omega arith))
        ∙ ap (λ x. bit_or x 2) (low_flags q 1 4 (omega arith) (omega arith))
        ∙ low_flags q 5 2 (omega arith) (omega arith)
        ∙ omega arith)

pub new_pde_lem :
    (pgtab : ℕ)
    → pgtab % 4096 ≡ 0
    → pgtab < 2 ^ 32
    → (new_pde pgtab < 2 ^ 32) × (new_pde pgtab % 2 ≡ 1) × (table (new_pde pgtab) ≡ pgtab)
new_pde_lem pgtab aligned word = omega arith

-- The entry that `map_pages` stores.
pub entry_lem :
    (pa perm : ℕ)
    → pa % 4096 ≡ 0
    → (perm ≡ 0) ⊎ (perm ≡ 2)
    → bit_or (bit_or perm present) pa ≡ pa + perm + 1
entry_lem pa perm aligned which =
    let q = pa / 4096 in
    let above : (x : ℕ) → x < 4096 → bit_or x pa ≡ pa + x =
      λ x h. ground (arith, bit_or_fields 12 0 x q 0, zero-bit_or q, bit_or-zero x) in
    elim which [
      | inl e ↦ rw e (above 1 (omega arith) ∙ omega arith)
      | inr e ↦ rw e (above 3 (omega arith) ∙ omega arith)
    ]
