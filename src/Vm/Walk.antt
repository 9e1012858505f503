-- ===== src/Vm/Walk.antt =====
-- src/vm.rs: `walkpgdir` and the body of the loop of `map_pages`, seen through the translation.
use sprocket.Base.{
  ℕ, ◌+◌, ◌*◌, ◌/◌, ◌%◌, ◌^◌, ◌<◌, ◌≡◌, ◌⊎◌, inl, inr, refl, true, Bool-cases, some, ◌==◌,
  if◌then◌else◌, arith, done, bind_done,
}
use sprocket.Mem.{to_phys, page_dir_index, page_table_index}
use sprocket.Mem.Paging.{page_dir_index_lem, page_table_index_lem}
use sprocket.Vm.{Paging, Boxes, put, walkpgdir, at_slot, store_entry, map_page}
use sprocket.Vm.Translate.{
  table, lookup, PageBoxes, IsPaged, is_present, address_lem, new_pde, new_pde_lem, flags_lem,
  entry_lem,
}

-- A directory with an entry stored in a table, and one with a new empty table.
abbrev pub stored : {H : Type 0} → Paging H → (tab index entry : ℕ) → Paging H
stored p tab index entry = record p { tables = put p.tables tab (put (p.tables tab) index entry) }

abbrev pub extended : {H : Type 0} → Paging H → (i a : ℕ) → (heap : H) → Paging H
extended p i a heap = record p {
  dir = put p.dir i (new_pde a);
  tables = put p.tables a (λ i. 0);
  heap = heap;
}

module _ {H : Type 0} {box : Boxes H} (boxes : PageBoxes box) where
  pub stored-IsPaged :
      (p : Paging H) (tab index entry : ℕ)
      → IsPaged boxes p
      → IsPaged boxes (stored p tab index entry)
  stored-IsPaged p tab index entry h = record {
    words = h.words;
    taken = h.taken;
    apart = h.apart;
    root_taken = h.root_taken;
    root_apart = h.root_apart;
    heap_valid = h.heap_valid;
  }

  pub lookup-stored :
      (p : Paging H) (page entry v : ℕ)
      → IsPaged boxes p
      → p.dir (page / 1024) % 2 ≡ 1
      → entry % 2 ≡ 1
      → lookup (stored p (table (p.dir (page / 1024))) (page % 1024) entry) v
        ≡ (if v == page then some entry else lookup p v)
  lookup-stored p page entry v h here odd = ground (arith, h.apart (v / 1024) (page / 1024))

  pub extended-IsPaged :
      (p : Paging H) (i a : ℕ) (heap : H)
      → IsPaged boxes p
      → p.dir i % 2 ≡ 0
      → a % 4096 ≡ 0
      → a < 2 ^ 32
      → ¬ boxes.taken p.heap a
      → boxes.taken heap a
      → ((b : ℕ) → boxes.taken p.heap b → boxes.taken heap b)
      → boxes.valid heap
      → IsPaged boxes (extended p i a heap)
  extended-IsPaged p i a heap h absent aligned word new now grows valid = record {
    words = λ j. elim (Bool-cases (j == i)) [
      | inl same ↦ rw same (new_pde_lem a aligned word).0
      | inr other ↦ rw other (h.words j)
    ];
    taken = λ j. elim (Bool-cases (j == i)) [
      | inl same ↦ rw same (λ odd. rw (new_pde_lem a aligned word).2 now)
      | inr other ↦ rw other (λ odd. grows (table (p.dir j)) (h.taken j odd))
    ];
    apart =
        λ j k. ground (arith, h.apart j k, new_pde_lem a aligned word, h.taken j, h.taken k, new);
    root_taken = grows p.root h.root_taken;
    root_apart = λ j. ground (arith, h.root_apart j, new_pde_lem a aligned word, new, h.root_taken);
    heap_valid = valid;
  }

  pub lookup-extended :
      (p : Paging H) (i a v : ℕ) (heap : H)
      → IsPaged boxes p
      → p.dir i % 2 ≡ 0
      → a % 4096 ≡ 0
      → a < 2 ^ 32
      → ¬ boxes.taken p.heap a
      → lookup (extended p i a heap) v ≡ lookup p v
  lookup-extended p i a v heap h absent aligned word new =
      ground (arith, new_pde_lem a aligned word, h.taken (v / 1024), new)

  -- The walk finds the table that is there,
  pub walk-there :
      (p : Paging H) (page : ℕ)
      → IsPaged boxes p
      → page < 2 ^ 20
      → p.dir (page / 1024) % 2 ≡ 1
      → walkpgdir box (page * 4096) true p
        ≡ done (some (table (p.dir (page / 1024)), page % 1024)) p
  unfolding walkpgdir
  walk-there p page h low here =
      let i : page_dir_index (page * 4096) ≡ page / 1024 =
        omega (arith, page_dir_index_lem (page * 4096) (omega arith)) in
      let j : page_table_index (page * 4096) ≡ page % 1024 =
        omega (arith, page_table_index_lem (page * 4096)) in
      let pde = p.dir (page / 1024) in
      rw (i, j, is_present pde, here, address_lem pde (h.words (page / 1024))) refl

  -- or makes a new one, with all entries empty.
  pub walk-new :
      (p : Paging H) (page a : ℕ) (heap : H)
      → page < 2 ^ 20
      → p.dir (page / 1024) % 2 ≡ 0
      → box p.heap ≡ some (a, heap)
      → a % 4096 ≡ 0
      → walkpgdir box (page * 4096) true p
        ≡ done (some (a, page % 1024)) (extended p (page / 1024) a heap)
  unfolding walkpgdir
  walk-new p page a heap low absent given aligned =
      let i : page_dir_index (page * 4096) ≡ page / 1024 =
        omega (arith, page_dir_index_lem (page * 4096) (omega arith)) in
      let j : page_table_index (page * 4096) ≡ page % 1024 =
        omega (arith, page_table_index_lem (page * 4096)) in
      rw (i, is_present (p.dir (page / 1024)), absent, given)
        (rw (i, j, flags_lem (to_phys a) (omega arith)) refl)

  pub map_page-walked :
      (p q : Paging H) (a pa perm tab index : ℕ)
      → walkpgdir box a true p ≡ done (some (tab, index)) q
      → q.tables tab index % 2 ≡ 0
      → pa % 4096 ≡ 0
      → (perm ≡ 0) ⊎ (perm ≡ 2)
      → map_page box a pa perm p ≡ done (some tt) (stored q tab index (pa + perm + 1))
  unfolding map_page at_slot store_entry
  map_page-walked p q a pa perm tab index run free aligned which =
      bind_done (walkpgdir box a true) (at_slot box pa perm) {s = p} run
        (rw (is_present (q.tables tab index), free, entry_lem pa perm aligned which) refl)
