-- ===== src/Vm/MapPage.antt =====
-- src/vm.rs: one page is mapped, in a table that is there or in a new one.
use sprocket.Base.{
  ℕ, ◌+◌, ◌*◌, ◌/◌, ◌%◌, ◌^◌, ◌≤◌, ◌<◌, ◌≡◌, ◌⊎◌, inl, inr, refl, ap, sym, ◌∙◌, Bool-cases, none,
  some, ◌==◌, if◌then◌else◌, arith, done,
}
use sprocket.Vm.{Paging, Boxes, map_page}
use sprocket.Vm.Translate.{new_pde, new_pde_lem, table, lookup, PageBoxes, IsPaged}
use sprocket.Vm.Walk.{
  stored, extended, stored-IsPaged, lookup-stored, extended-IsPaged, lookup-extended, walk-there,
  walk-new, map_page-walked,
}

-- How many tables the walk to a page needs.
abbrev pub missing : {H : Type 0} → Paging H → (page : ℕ) → ℕ
missing p page = if p.dir (page / 1024) % 2 == 1 then 0 else 1

module _ {H : Type 0} {box : Boxes H} (boxes : PageBoxes box) where
  -- The step from `p` to `q` maps one page.
  pub record Maps (p q : Paging H) (page entry : ℕ) : Type 0 where
    pub paged : IsPaged boxes q
    pub lookups : (v : ℕ) → lookup q v ≡ (if v == page then some entry else lookup p v)
    pub here : q.dir (page / 1024) % 2 ≡ 1
    pub rooms : boxes.room p.heap ≤ boxes.room q.heap + missing p page
    pub same_root : q.root ≡ p.root
    pub grows : (b : ℕ) → boxes.taken p.heap b → boxes.taken q.heap b

  -- In a table that is there,
  map_page-there :
      (p : Paging H) (page pa perm : ℕ)
      → IsPaged boxes p
      → page < 2 ^ 20
      → pa % 4096 ≡ 0
      → (perm ≡ 0) ⊎ (perm ≡ 2)
      → lookup p page ≡ none
      → p.dir (page / 1024) % 2 ≡ 1
      → (q : Paging H) × (map_page box (page * 4096) pa perm p ≡ done (some tt) q)
        × Maps p q page (pa + perm + 1)
  map_page-there p page pa perm h low aligned which unmapped here =
      let tab = table (p.dir (page / 1024)) in
      let odd : (pa + perm + 1) % 2 ≡ 1 = ground arith in
      let free : p.tables tab (page % 1024) % 2 ≡ 0 = ground arith in
      (
        stored p tab (page % 1024) (pa + perm + 1),
        map_page-walked boxes p p (page * 4096) pa perm tab (page % 1024)
            (walk-there boxes p page h low here) free aligned which,
        record {
          paged = stored-IsPaged boxes p tab (page % 1024) (pa + perm + 1) h;
          lookups = λ v. lookup-stored boxes p page (pa + perm + 1) v h here odd;
          here = here;
          rooms = omega arith;
          same_root = refl;
          grows = λ b t. t;
        },
      )

  -- and in a new one.
  map_page-new :
      (p : Paging H) (page pa perm : ℕ)
      → IsPaged boxes p
      → page < 2 ^ 20
      → pa % 4096 ≡ 0
      → (perm ≡ 0) ⊎ (perm ≡ 2)
      → p.dir (page / 1024) % 2 ≡ 0
      → 0 < boxes.room p.heap
      → (q : Paging H) × (map_page box (page * 4096) pa perm p ≡ done (some tt) q)
        × Maps p q page (pa + perm + 1)
  map_page-new p page pa perm h low aligned which absent space =
      let i = page / 1024 in
      let odd : (pa + perm + 1) % 2 ≡ 1 = ground arith in
      let one : missing p page ≡ 1 = ground arith in
      let (a, heap, given, start, word, new, now, grows, count, valid) =
        boxes.gives p.heap h.heap_valid space in
      let q = extended p i a heap in
      let hq = extended-IsPaged boxes p i a heap h absent start word new now grows valid in
      let (_, set_bit, back) = new_pde_lem a start word in
      let entry : q.dir i ≡ new_pde a = ground arith in
      let here : q.dir i % 2 ≡ 1 = omega (arith, entry, set_bit) in
      let tab = table (q.dir i) in
      let same : tab ≡ a = omega (arith, entry, back) in
      let empty : q.tables tab (page % 1024) % 2 ≡ 0 = ground arith in
      (
        stored q tab (page % 1024) (pa + perm + 1),
        map_page-walked boxes p q (page * 4096) pa perm tab (page % 1024)
            (walk-new boxes p page a heap low absent given start
              ∙ ap (λ b. done (some (b, page % 1024)) q) (sym same))
            empty aligned which,
        record {
          paged = stored-IsPaged boxes q tab (page % 1024) (pa + perm + 1) hq;
          lookups = λ v.
              lookup-stored boxes q page (pa + perm + 1) v hq here odd
              ∙ ap (λ o. if v == page then some (pa + perm + 1) else o)
                  (lookup-extended boxes p i a v heap h absent start word new);
          here = here;
          rooms = omega (arith, count, one);
          same_root = refl;
          grows = grows;
        },
      )

  pub map_page_lem :
      (p : Paging H) (page pa perm : ℕ)
      → IsPaged boxes p
      → page < 2 ^ 20
      → pa % 4096 ≡ 0
      → (perm ≡ 0) ⊎ (perm ≡ 2)
      → lookup p page ≡ none
      → missing p page ≤ boxes.room p.heap
      → (q : Paging H) × (map_page box (page * 4096) pa perm p ≡ done (some tt) q)
        × Maps p q page (pa + perm + 1)
  map_page_lem p page pa perm h low aligned which unmapped space =
      elim (Bool-cases (p.dir (page / 1024) % 2 == 1)) [
        | inl there ↦ map_page-there p page pa perm h low aligned which unmapped (ground arith)
        | inr gone ↦
            let one : missing p page ≡ 1 = ground arith in
            map_page-new p page pa perm h low aligned which (ground arith)
              (omega (arith, space, one))
      ]
