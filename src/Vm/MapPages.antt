-- ===== src/Vm/MapPages.antt =====
-- src/vm.rs: `map_pages` maps the pages of its range, and no other page changes.
use sprocket.Base.{
  ℕ, zero, suc, ◌+◌, ◌-◌, ◌*◌, ◌/◌, ◌%◌, ◌^◌, ◌≤◌, ◌<◌, ◌≡◌, ◌⊎◌, inl, inr, true, false, refl, ap,
  ◌∙◌, Bool-cases, Option, none, some, ◌==◌, leb, ◌&&◌, if◌then◌else◌, arith, done, bind_done,
  wrapping_sub, u32,
}
use sprocket.Mem.{page_rounddown, offset}
use sprocket.Mem.Paging.{page_rounddown_lem}
use sprocket.Vm.{Paging, Boxes, map_page, map_from, map_pages, num_pages}
use sprocket.Vm.Translate.{lookup, PageBoxes, IsPaged}
use sprocket.Vm.MapPage.{missing, map_page_lem}

-- A page in front of a range, with what it maps to before and after.
range_grows :
    (v page last pa perm : ℕ) (old mid new : Option ℕ)
    → page < last
    → mid ≡ (if v == page then some (pa + perm + 1) else old)
    → new ≡ (
        if leb (page + 1) v && leb v last
        then some (pa + 4096 + (v - (page + 1)) * 4096 + perm + 1)
        else mid)
    → new ≡ (if leb page v && leb v last then some (pa + (v - page) * 4096 + perm + 1) else old)
range_grows v page last pa perm old mid new lt e e' = ground arith

num_pages_lem : num_pages ≡ 2 ^ 20
unfolding num_pages
num_pages_lem = refl

module _ {H : Type 0} {box : Boxes H} (boxes : PageBoxes box) where
  -- From `p` to `q` the pages from `page` to `last` are mapped to the frames from `pa` on.
  pub record MapsRange (p q : Paging H) (page last pa perm : ℕ) : Type 0 where
    pub paged : IsPaged boxes q
    pub lookups :
        (v : ℕ)
        → lookup q v ≡ (
            if leb page v && leb v last
            then some (pa + (v - page) * 4096 + perm + 1)
            else lookup p v)
    pub rooms : boxes.room p.heap ≤ boxes.room q.heap + (last / 1024 - page / 1024 + missing p page)
    pub same_root : q.root ≡ p.root
    pub grows : (b : ℕ) → boxes.taken p.heap b → boxes.taken q.heap b

  map_from-step :
      (n : ℕ) (p q : Paging H) (page last pa perm : ℕ)
      → page < last
      → last < 2 ^ 20
      → pa + 4096 < 2 ^ 32
      → map_page box (page * 4096) pa perm p ≡ done (some tt) q
      → map_from box (suc n) (page * 4096) (last * 4096) pa perm p
        ≡ map_from box n ((page + 1) * 4096) (last * 4096) (pa + 4096) perm q
  unfolding map_from offset
  map_from-step n p q page last pa perm lt low word run =
      let more : (page * 4096 == last * 4096) ≡ false = ground arith in
      let a : u32 (page * 4096 + 4096) ≡ (page + 1) * 4096 = omega arith in
      let pa' : u32 (pa + 4096) ≡ pa + 4096 = omega arith in
      bind_done (map_page box (page * 4096) pa perm) _ {s = p} run (rw (more, a, pa') refl)

  map_from-end :
      (n : ℕ) (p q : Paging H) (page last pa perm : ℕ)
      → last ≡ page
      → map_page box (page * 4096) pa perm p ≡ done (some tt) q
      → map_from box (suc n) (page * 4096) (last * 4096) pa perm p ≡ done (some tt) q
  unfolding map_from
  map_from-end n p q page last pa perm e run =
      let there : (page * 4096 == last * 4096) ≡ true = ground arith in
      bind_done (map_page box (page * 4096) pa perm) _ {s = p} run (rw there refl)

  map_from_lem :
      (n : ℕ) (p : Paging H) (page last pa perm : ℕ)
      → IsPaged boxes p
      → page ≤ last
      → last < 2 ^ 20
      → last < n + page
      → pa % 4096 ≡ 0
      → pa + (last - page) * 4096 < 2 ^ 32
      → (perm ≡ 0) ⊎ (perm ≡ 2)
      → ((v : ℕ) → page ≤ v → v ≤ last → lookup p v ≡ none)
      → last / 1024 - page / 1024 + missing p page ≤ boxes.room p.heap
      → (q : Paging H) × (map_from box n (page * 4096) (last * 4096) pa perm p ≡ done (some tt) q)
        × MapsRange p q page last pa perm
  map_from_lem zero p page last pa perm h le low enough al word which free space =
      absurd (omega arith)
  map_from_lem (suc n) p page last pa perm h le low enough al word which free space =
      let (q, run, maps) =
        map_page_lem boxes p page pa perm h (omega arith) al which (free page (omega arith) le)
          (omega (arith, space)) in
      elim (Bool-cases (page == last)) [
        | inl final ↦
            let e : last ≡ page = ground arith in
            (
              q,
              map_from-end n p q page last pa perm e run,
              record {
                paged = maps.paged;
                lookups = λ v. ground (arith, maps.lookups v);
                rooms = omega (arith, maps.rooms, e);
                same_root = maps.same_root;
                grows = maps.grows;
              },
            )
        | inr inner ↦
            let lt : page < last = ground arith in
            let next : last / 1024 - (page + 1) / 1024 + missing q (page + 1) + missing p page
                ≤ last / 1024 - page / 1024 + missing p page =
              ground (arith, maps.here) in
            let (r, runs, rest) =
              map_from_lem n q (page + 1) last (pa + 4096) perm maps.paged (omega arith) low
                (omega arith) (omega arith) (omega arith) which
                (λ v ge le'. ground (arith, maps.lookups v, free v))
                (omega (arith, next, space, maps.rooms)) in
            (
              r,
              map_from-step n p q page last pa perm lt low (omega arith) run ∙ runs,
              record {
                paged = rest.paged;
                lookups = λ v.
                    range_grows v page last pa perm (lookup p v) (lookup q v) (lookup r v) lt
                      (maps.lookups v) (rest.lookups v);
                rooms = omega (arith, next, rest.rooms, maps.rooms);
                same_root = rest.same_root ∙ maps.same_root;
                grows = λ b t. rest.grows b (maps.grows b t);
              },
            )
      ]

  offset_lem : (off addr : ℕ) → off < 2 ^ 32 → offset 1 off addr ≡ u32 (addr + off)
  unfolding offset
  offset_lem off addr h = ground arith

  -- For a range of page-aligned bounds that does not wrap and whose pages are not mapped, with room
  -- for the tables that it needs, `map_pages` ends without the panic for a remap. After it, each
  -- page of the range translates to its own frame with the permissions, every other page as before,
  -- and the directory has its form.
  pub map_pages_lem :
      (p : Paging H) (page count pa perm : ℕ)
      → IsPaged boxes p
      → 0 < count
      → page + count ≤ 2 ^ 20
      → pa % 4096 ≡ 0
      → pa + count * 4096 ≤ 2 ^ 32
      → (perm ≡ 0) ⊎ (perm ≡ 2)
      → ((v : ℕ) → page ≤ v → v < page + count → lookup p v ≡ none)
      → (page + count - 1) / 1024 - page / 1024 + missing p page ≤ boxes.room p.heap
      → (q : Paging H) × (map_pages box (page * 4096) (count * 4096) pa perm p ≡ done (some tt) q)
        × MapsRange p q page (page + count - 1) pa perm
  unfolding map_pages
  map_pages_lem p page count pa perm h some_pages low al word which free space =
      let first : page_rounddown (page * 4096) ≡ page * 4096 =
        omega (arith, page_rounddown_lem (page * 4096) (omega arith)) in
      let size : wrapping_sub (count * 4096) 1 ≡ count * 4096 - 1 = omega arith in
      let end : offset 1 (count * 4096 - 1) (page * 4096) ≡ page * 4096 + (count * 4096 - 1) =
        omega (arith, offset_lem (count * 4096 - 1) (page * 4096) (omega arith)) in
      let final : page_rounddown (page * 4096 + (count * 4096 - 1)) ≡ (page + count - 1) * 4096 =
        omega (arith, page_rounddown_lem (page * 4096 + (count * 4096 - 1)) (omega arith)) in
      let (q, run, maps) =
        map_from_lem num_pages p page (page + count - 1) pa perm h (omega arith) (omega arith)
          (omega (arith, num_pages_lem)) al (omega arith) which (λ v ge le. free v ge (omega arith))
          space in
      let last = page_rounddown (offset 1 (wrapping_sub (count * 4096) 1) (page * 4096)) in
      (
        q,
        ap (λ a. map_from box num_pages a last pa perm p) first
            ∙ ap (λ b. map_from box num_pages (page * 4096) b pa perm p) (rw (size, end) final)
            ∙ run,
        maps,
      )
