-- ===== src/Vm/Ranges.antt =====
-- src/vm.rs: the loop of `setupkvm` over ranges of pages.
use sprocket.Base.{
  ℕ, ◌+◌, ◌-◌, ◌*◌, ◌/◌, ◌%◌, ◌^◌, ◌≤◌, ◌<◌, ◌≡◌, ◌⊎◌, refl, ap, ◌∙◌, Option, none, some, List, [],
  ◌∷◌, leb, ◌&&◌, if◌then◌else◌, arith, done, bind_done,
}
use sprocket.Mem.{sub_addr}
use sprocket.Vm.{Paging, Boxes, Kmap, map_pages, map_all}
use sprocket.Vm.Translate.{lookup, PageBoxes, IsPaged}
use sprocket.Vm.MapPage.{missing}
use sprocket.Vm.MapPages.{MapsRange, map_pages_lem}

-- what one range of `KMAP` adds to the map
abbrev pub range : (page last pa perm v : ℕ) → Option ℕ → Option ℕ
range page last pa perm v old =
    if leb page v && leb v last then some (pa + (v - page) * 4096 + perm + 1) else old

module _ {H : Type 0} {box : Boxes H} (boxes : PageBoxes box) where
  map_all-step :
      (k : Kmap) (ks : List Kmap) (p q : Paging H)
      → map_pages box k.virt (sub_addr k.p_end k.p_start) k.p_start k.perm p ≡ done (some tt) q
      → map_all box (k ∷ ks) p ≡ map_all box ks q
  unfolding map_all
  map_all-step k ks p q run =
      bind_done (map_pages box k.virt (sub_addr k.p_end k.p_start) k.p_start k.perm) _ {s = p} run
        refl

  map_all-range :
      (k : Kmap) (ks : List Kmap) (p : Paging H) (page count : ℕ)
      → k.virt ≡ page * 4096
      → sub_addr k.p_end k.p_start ≡ count * 4096
      → IsPaged boxes p
      → 0 < count
      → page + count ≤ 2 ^ 20
      → k.p_start % 4096 ≡ 0
      → k.p_start + count * 4096 ≤ 2 ^ 32
      → (k.perm ≡ 0) ⊎ (k.perm ≡ 2)
      → ((v : ℕ) → page ≤ v → v < page + count → lookup p v ≡ none)
      → (page + count - 1) / 1024 - page / 1024 + missing p page ≤ boxes.room p.heap
      → (q : Paging H) × (map_all box (k ∷ ks) p ≡ map_all box ks q)
        × MapsRange boxes p q page (page + count - 1) k.p_start k.perm
  map_all-range k ks p page count virt size h some_pages low al word which free space =
      let (q, run, maps) =
        map_pages_lem boxes p page count k.p_start k.perm h some_pages low al word which free
          space in
      (q, map_all-step k ks p q (rw (virt, size) run), maps)

  missing_le : (p : Paging H) (page : ℕ) → missing p page ≤ 1
  missing_le p page = ground arith

  -- The rest of the loop ends in a directory that maps each page by `after`.
  pub record Ends (ks : List Kmap) (p : Paging H) (after : ℕ → Option ℕ) : Type 0 where
    pub q : Paging H
    pub run : map_all box ks p ≡ done (some tt) q
    pub paged : IsPaged boxes q
    pub same_root : q.root ≡ p.root
    pub grows : (b : ℕ) → boxes.taken p.heap b → boxes.taken q.heap b
    pub lookups : (v : ℕ) → lookup q v ≡ after v

  pub none-Ends :
      (p : Paging H) (f : ℕ → Option ℕ)
      → IsPaged boxes p
      → ((v : ℕ) → lookup p v ≡ f v)
      → Ends [] p f
  unfolding map_all
  none-Ends p f h maps = record {
    q = p;
    run = refl;
    paged = h;
    same_root = refl;
    grows = λ b t. t;
    lookups = maps;
  }

  -- One range of the loop, with what is needed for the others.
  pub range-Ends :
      (k : Kmap) (ks : List Kmap) (p : Paging H) (f : ℕ → Option ℕ) (g : ℕ → Option ℕ → Option ℕ)
      (page count room : ℕ)
      → k.virt ≡ page * 4096
      → sub_addr k.p_end k.p_start ≡ count * 4096
      → 0 < count
      → page + count ≤ 2 ^ 20
      → k.p_start % 4096 ≡ 0
      → k.p_start + count * 4096 ≤ 2 ^ 32
      → (k.perm ≡ 0) ⊎ (k.perm ≡ 2)
      → IsPaged boxes p
      → ((v : ℕ) → lookup p v ≡ f v)
      → ((v : ℕ) → page ≤ v → v < page + count → f v ≡ none)
      → (page + count - 1) / 1024 - page / 1024 + 1 + room ≤ boxes.room p.heap
      → ((q : Paging H)
          → IsPaged boxes q
          → ((v : ℕ) → lookup q v ≡ range page (page + count - 1) k.p_start k.perm v (f v))
          → room ≤ boxes.room q.heap
          → Ends ks q (λ v. g v (range page (page + count - 1) k.p_start k.perm v (f v))))
      → Ends (k ∷ ks) p (λ v. g v (range page (page + count - 1) k.p_start k.perm v (f v)))
  range-Ends k ks p f g page count room virt size some_pages low al word which h maps free space
        rest =
      let (q, run, m) =
        map_all-range k ks p page count virt size h some_pages low al word which
          (λ v ge lt. maps v ∙ free v ge lt) (omega (arith, space, missing_le p page)) in
      let e =
        rest q m.paged
          (λ v. m.lookups v ∙ ap (range page (page + count - 1) k.p_start k.perm v) (maps v))
          (omega (arith, m.rooms, space, missing_le p page)) in
      record {
        q = e.q;
        run = run ∙ e.run;
        paged = e.paged;
        same_root = e.same_root ∙ m.same_root;
        grows = λ b t. e.grows b (m.grows b t);
        lookups = e.lookups;
      }
