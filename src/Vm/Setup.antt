-- ===== src/Vm/Setup.antt =====
-- src/vm.rs: the address space of the kernel after `setupkvm`.
use sprocket.Base.{
  ℕ, ◌+◌, ◌-◌, ◌*◌, ◌/◌, ◌≤◌, ◌<◌, ◌≡◌, inl, inr, refl, ◌∙◌, Option, none, some, [], ◌∷◌, ltb, leb,
  ◌&&◌, if◌then◌else◌, arith, done,
}
use sprocket.Mem.{to_phys}
use sprocket.Vm.{
  Paging, Boxes, kmap, kmap_low, kmap_text, kmap_data, kmap_devices, map_all, setupkvm,
}
use sprocket.Vm.Translate.{lookup, PageBoxes, IsPaged}
use sprocket.Vm.Ranges.{range, Ends, none-Ends, range-Ends}

-- The kernel's address space: the physical memory up to 224 MB at KERNBASE, where the text and the
-- read-only data, up to the page `d` of the symbol `data`, are not writable, and the devices at
-- their own addresses. The result is the entry for the page `v`: a frame, and the flags.
abbrev pub kernel_map : (d v : ℕ) → Option ℕ
kernel_map d v =
    if leb 0x80000 v && ltb v 0x8E000
    then some ((v - 0x80000) * 4096 + (if leb 0x80100 v && ltb v d then 1 else 3))
    else if leb 0xFE000 v && ltb v 0x100000
    then some (v * 4096 + 3)
    else none

above :
    (v page last pa perm : ℕ) (old : Option ℕ)
    → last < v
    → old ≡ none
    → range page last pa perm v old ≡ none
above v page last pa perm old lt e = ground arith

abbrev low_range : ℕ → Option ℕ → Option ℕ
low_range v old = range 0x80000 (0x80000 + 0x100 - 1) 0 2 v old

abbrev text_range : (d v : ℕ) → Option ℕ → Option ℕ
text_range d v old = range 0x80100 (0x80100 + (d - 0x80100) - 1) 0x100000 0 v old

abbrev data_range : (d v : ℕ) → Option ℕ → Option ℕ
data_range d v old = range d (d + (0x8E000 - d) - 1) (to_phys (d * 4096)) 2 v old

abbrev devices : ℕ → Option ℕ → Option ℕ
devices v old = range 0xFE000 (0xFE000 + 0x2000 - 1) 0xFE000000 2 v old

four_ranges :
    (d v : ℕ)
    → 0x80100 < d
    → d < 0x8E000
    → devices v (data_range d v (text_range d v (low_range v none))) ≡ kernel_map d v
four_ranges d v lo hi = ground arith

module _ {H : Type 0} {box : Boxes H} (boxes : PageBoxes box) where
  module _ (p : Paging H) (f : ℕ → Option ℕ) (h : IsPaged boxes p)
      (maps : (v : ℕ) → lookup p v ≡ f v) where
    kmap_devices-Ends :
        ((v : ℕ) → 0x8E000 ≤ v → f v ≡ none)
        → 8 ≤ boxes.room p.heap
        → Ends boxes (kmap_devices ∷ []) p (λ v. devices v (f v))
    kmap_devices-Ends free space =
        range-Ends boxes kmap_devices [] p f (λ v o. o) 0xFE000 0x2000 0 refl refl (omega arith)
          (omega arith) refl (omega arith) (inr refl) h maps (λ v ge lt. free v (omega arith))
          (omega (arith, space)) (λ q hq mq sq. none-Ends boxes q _ hq mq)

  module _ (d : ℕ) (lo : 0x80100 < d) (hi : d < 0x8E000) where
    phys : to_phys (d * 4096) ≡ (d - 0x80000) * 4096
    phys = omega arith

    kmap_data-Ends :
        (p : Paging H) (f : ℕ → Option ℕ)
        → IsPaged boxes p
        → ((v : ℕ) → lookup p v ≡ f v)
        → ((v : ℕ) → d ≤ v → f v ≡ none)
        → 576 - d / 1024 ≤ boxes.room p.heap
        → Ends boxes
            (kmap_data (d * 4096) ∷ kmap_devices ∷ [])
            p
            (λ v. devices v (data_range d v (f v)))
    kmap_data-Ends p f h maps free space =
        range-Ends boxes (kmap_data (d * 4096)) (kmap_devices ∷ []) p f devices d (0x8E000 - d) 8
          refl (omega (arith, phys)) (omega arith) (omega arith) (omega (arith, phys))
          (omega (arith, phys)) (inr refl) h maps (λ v ge lt. free v ge) (omega (arith, space))
          (λ q hq mq sq.
            kmap_devices-Ends q (λ v. data_range d v (f v)) hq mq
              (λ v ge.
                above v d (d + (0x8E000 - d) - 1) (to_phys (d * 4096)) 2 (f v) (omega arith)
                  (free v (omega arith)))
              sq)

    kmap_text-Ends :
        (p : Paging H) (f : ℕ → Option ℕ)
        → IsPaged boxes p
        → ((v : ℕ) → lookup p v ≡ f v)
        → ((v : ℕ) → 0x80100 ≤ v → f v ≡ none)
        → 65 ≤ boxes.room p.heap
        → Ends boxes
            (kmap_text (d * 4096) ∷ kmap_data (d * 4096) ∷ kmap_devices ∷ [])
            p
            (λ v. devices v (data_range d v (text_range d v (f v))))
    kmap_text-Ends p f h maps free space =
        range-Ends boxes (kmap_text (d * 4096)) (kmap_data (d * 4096) ∷ kmap_devices ∷ []) p f
          (λ v o. devices v (data_range d v o)) 0x80100 (d - 0x80100) (576 - d / 1024) refl
          (omega (arith, phys)) (omega arith) (omega arith) refl (omega arith) (inl refl) h maps
          (λ v ge lt. free v ge) (omega (arith, space))
          (λ q hq mq sq.
            kmap_data-Ends q (λ v. text_range d v (f v)) hq mq
              (λ v ge.
                above v 0x80100 (0x80100 + (d - 0x80100) - 1) 0x100000 0 (f v) (omega arith)
                  (free v (omega arith)))
              sq)

    -- The loop over `KMAP` on a directory without entries.
    kmap-Ends :
        (p : Paging H)
        → ((i : ℕ) → p.dir i ≡ 0)
        → boxes.taken p.heap p.root
        → boxes.valid p.heap
        → 66 ≤ boxes.room p.heap
        → Ends boxes
            (kmap (d * 4096))
            p
            (λ v. devices v (data_range d v (text_range d v (low_range v none))))
    kmap-Ends p empty root valid space =
        let maps : (v : ℕ) → lookup p v ≡ none = λ v. ground (arith, empty (v / 1024)) in
        let h : IsPaged boxes p = record {
          words = λ i. omega (arith, empty i);
          taken = λ i odd. absurd (omega (arith, empty i));
          apart = λ i j odd. absurd (omega (arith, empty i));
          root_taken = root;
          root_apart = λ i odd. absurd (omega (arith, empty i));
          heap_valid = valid;
        } in
        range-Ends boxes kmap_low (kmap_text (d * 4096) ∷ kmap_data (d * 4096) ∷ kmap_devices ∷ [])
          p (λ v. none) (λ v o. devices v (data_range d v (text_range d v o))) 0x80000 0x100 65 refl
          refl (omega arith) (omega arith) refl (omega arith) (inr refl) h maps (λ v ge lt. refl)
          (omega (arith, space))
          (λ q hq mq sq.
            kmap_text-Ends q (λ v. low_range v none) hq mq
              (λ v ge. above v 0x80000 (0x80000 + 0x100 - 1) 0 2 none (omega arith) refl) sq)

  setupkvm-start :
      (d : ℕ) (tables : ℕ → ℕ → ℕ) (heap heap' : H) (root : ℕ)
      → box heap ≡ some (root, heap')
      → setupkvm box d tables heap
        ≡ map_all box (kmap d) (record { root = root; dir = λ i. 0; tables = tables; heap = heap' })
  unfolding setupkvm
  setupkvm-start d tables heap heap' root given = rw (given, setupkvm) refl

  -- With the symbol `data` at a page boundary behind the start of the kernel's image and below the
  -- end of memory, a valid allocator and room for 67 boxes, `setupkvm` ends without an error or a
  -- panic. Each page then translates as in the kernel's address space and the others do not
  -- translate. Each present entry of the directory has a table of its own, none lies in the
  -- directory's page, all of these pages were given out by the allocator, which is valid again, and what
  -- was given out before still is.
  pub setupkvm-kernel_map :
      (d : ℕ) (tables : ℕ → ℕ → ℕ) (heap : H)
      → 0x80100 < d
      → d < 0x8E000
      → boxes.valid heap
      → 67 ≤ boxes.room heap
      → (p : Paging H) × (setupkvm box (d * 4096) tables heap ≡ done (some tt) p)
        × IsPaged boxes p
        × ((v : ℕ) → lookup p v ≡ kernel_map d v)
        × ((b : ℕ) → boxes.taken heap b → boxes.taken p.heap b)
  setupkvm-kernel_map d tables heap lo hi valid space =
      let (root, heap', given, _, _, _, now, grows, count, valid') =
        boxes.gives heap valid (omega (arith, space)) in
      let p : Paging H = record { root = root; dir = λ i. 0; tables = tables; heap = heap' } in
      let e = kmap-Ends d lo hi p (λ i. refl) now valid' (omega (arith, space, count)) in
      (
        e.q,
        setupkvm-start (d * 4096) tables heap heap' root given ∙ e.run,
        e.paged,
        λ v. e.lookups v ∙ four_ranges d v lo hi,
        λ b t. e.grows b (grows b t),
      )
