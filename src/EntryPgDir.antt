-- ===== src/EntryPgDir.antt =====
-- src/lib.rs: the page directory that the kernel starts with, before `kvmalloc` makes its own. Its
-- entries are pages of 4 MB.
mod Examples
use sprocket.Base.{
  ℕ, zero, suc, ◌+◌, ◌-◌, ◌*◌, ◌/◌, ◌%◌, ◌^◌, ◌≤◌, ◌<◌, ◌≡◌, ◌≢◌, refl, sym, ap, ◌∙◌, Bool, true,
  false, ◌&&◌, Option, none, some, List, ◌∷◌, ◌++◌, arith, ltb, leb, inl, inr, Bool-cases, ◌⊎◌, [],
  get_or, replicate, length, length-replicate, bit_and, bit_or, ◌==◌, if◌then◌else◌,
}
use sprocket.Mem.{kernbase}

abbrev pub pte_p : ℕ
pte_p = 0x001

abbrev pub pte_w : ℕ
pte_w = 0x002

abbrev pub pte_ps : ℕ
pte_ps = 0x080

abbrev pub large_page : ℕ
large_page = bit_or (bit_or pte_p pte_w) pte_ps

-- `EntryPgDir::new`
unfoldable pub entry_pg_dir : List ℕ
entry_pg_dir = large_page ∷ (replicate 511 0 ++ large_page ∷ replicate 511 0)

-- How the processor translates an address by a directory of large pages.
unfoldable pub by_entry : (entry va : ℕ) → Option ℕ
by_entry entry va =
    if (bit_and entry pte_p == pte_p) && (bit_and entry pte_ps == pte_ps)
    then some (entry / 2 ^ 22 * 2 ^ 22 + va % 2 ^ 22)
    else none

abbrev pub translate : (dir : List ℕ) → (va : ℕ) → Option ℕ
translate dir va = by_entry (get_or dir (va / 2 ^ 22) 0) va

-- What the kernel relies on until it makes its own directory: the first 4 MB of memory stand at
-- their own addresses and at `KERNBASE`, and nothing else is mapped.
abbrev pub boot_mapping : (va : ℕ) → Option ℕ
boot_mapping va =
    if ltb va (2 ^ 22)
    then some va
    else if leb kernbase va && ltb va (kernbase + 2 ^ 22)
    then some (va - kernbase)
    else none

get_or-replicate : (n i : ℕ) → get_or (replicate {A = ℕ} n 0) i 0 ≡ 0
get_or-replicate zero i = refl
get_or-replicate (suc n) zero = refl
get_or-replicate (suc n) (suc i) = get_or-replicate n i

get_or-left : (xs ys : List ℕ) (i : ℕ) → i < length xs → get_or (xs ++ ys) i 0 ≡ get_or xs i 0
get_or-left [] ys i h = absurd (omega arith)
get_or-left (x ∷ xs) ys zero h = refl
get_or-left (x ∷ xs) ys (suc i) h = get_or-left xs ys i (omega arith)

get_or-right :
    (xs ys : List ℕ) (i k : ℕ) → i ≡ length xs + k → get_or (xs ++ ys) i 0 ≡ get_or ys k 0
get_or-right [] ys i k h = let same : i ≡ k = omega arith in ap (λ n. get_or ys n 0) same
get_or-right (x ∷ xs) ys zero k h = absurd (omega arith)
get_or-right (x ∷ xs) ys (suc i) k h = get_or-right xs ys i k (omega arith)

order : (i n : ℕ) → suc i ≢ suc n → (i < n) ⊎ (n < i)
order i n h = ground arith

-- No other entry of the directory is in use.
entry_pg_dir-unused : (i : ℕ) → i ≢ 0 → i ≢ 512 → get_or entry_pg_dir i 0 ≡ 0
unfolding entry_pg_dir
entry_pg_dir-unused zero h0 h = absurd (h0 refl)
entry_pg_dir-unused (suc i) h0 h = elim (order i 511 h) [
  | inl low ↦
      get_or-left (replicate 511 0) (large_page ∷ replicate 511 0) i low ∙ get_or-replicate 511 i
  | inr high ↦
      get_or-right (replicate 511 0) (large_page ∷ replicate 511 0) i (suc (i - 512)) (omega arith)
      ∙ get_or-replicate 511 (i - 512)
]

-- A page of the directory's only kind begins at address 0.
by_entry-large_page : (va pa : ℕ) → va % 2 ^ 22 ≡ pa → by_entry large_page va ≡ some pa
unfolding by_entry
by_entry-large_page va pa h = ap some (omega arith)

translate_at :
    (va i e : ℕ)
    → va / 2 ^ 22 ≡ i
    → get_or entry_pg_dir i 0 ≡ e
    → translate entry_pg_dir va ≡ by_entry e va
translate_at va i e h h' =
    ap (λ n. by_entry (get_or entry_pg_dir n 0) va) h ∙ ap (λ x. by_entry x va) h'

first_entry : (get_or entry_pg_dir 0 0 ≡ large_page) × (get_or entry_pg_dir 512 0 ≡ large_page)
unfolding entry_pg_dir
first_entry = (refl, refl)

in_kernel_page :
    (va : ℕ) → (leb kernbase va && ltb va (kernbase + 2 ^ 22)) ≡ true → va / 2 ^ 22 ≡ 512
in_kernel_page va h = ground arith

not_in_kernel_page :
    (va : ℕ) → (leb kernbase va && ltb va (kernbase + 2 ^ 22)) ≡ false → va / 2 ^ 22 ≢ 512
not_in_kernel_page va h e = ground arith

not_in_first_page : (va : ℕ) → ltb va (2 ^ 22) ≡ false → va / 2 ^ 22 ≢ 0
not_in_first_page va h e = ground arith

-- For every address, the processor's translation by this directory is what the kernel relies on.
pub translate-entry_pg_dir : (va : ℕ) → translate entry_pg_dir va ≡ boot_mapping va
unfolding by_entry
translate-entry_pg_dir va = elim (Bool-cases (ltb va (2 ^ 22))) [
  | inl low ↦
      let first : va / 2 ^ 22 ≡ 0 = ground arith in
      rw low
        (translate_at va 0 large_page first first_entry.0 ∙ by_entry-large_page va va (omega arith))
  | inr other ↦ elim (Bool-cases (leb kernbase va && ltb va (kernbase + 2 ^ 22))) [
    | inl inside ↦
        let index = in_kernel_page va inside in
        rw (other, inside)
          (translate_at va 512 large_page index first_entry.1
            ∙ by_entry-large_page va (va - kernbase) (omega (arith, index)))
    | inr outside ↦
        rw (other, outside)
          (translate_at va (va / 2 ^ 22) 0 refl (
            entry_pg_dir-unused (va / 2 ^ 22) (not_in_first_page va other)
              (not_in_kernel_page va outside)))
  ]
]
