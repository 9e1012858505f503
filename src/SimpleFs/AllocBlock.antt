-- ===== src/SimpleFs/AllocBlock.antt =====
-- `alloc_block` of lib/simple_fs/src/lib.rs takes the top of the free list.
use sprocket.Base.{
  ℕ, suc, ◌+◌, ◌^◌, ◌≡◌, ◌≢◌, refl, sym, ap, ◌∙◌, false, ◌==◌, some, List, [], ◌∷◌, ◌++◌, arith,
  length, length-set, length-replicate, get_or, get_or-set_self, get_or-set_ne, set, drop,
  replicate,
}
use sprocket.SimpleFs.Types.{Disk, ok, err, exhausted_blocks, bind_ok, then_ok}
use sprocket.SimpleFs.Layout.{to_words, set-AllBelow, get_or-AllBelow}
use sprocket.SimpleFs.Blocks.{
  zero_block, disk_read, disk_write, take_entry, take_head, take_free, alloc_block, rposition,
}
use sprocket.SimpleFs.Reliable.{Reliable, words, words_fit, read_sector, write_words, write_zero}
use sprocket.SimpleFs.FreeList.{
  stored, NotIn, Distinct, flatten, FreeFrom, NotIn-append, Distinct-append, FreeFrom-frame, used,
  rposition-stored_top, set-stored, get_or-stored, rposition-replicate,
}

module _ {D : Type 0} {disk : Disk D} {device : ℕ} (reliable : Reliable disk device) where
  -- The disk holds this free list, the block that is allocated next in front.
  pub record IsFreeList (d : D) (free : List ℕ) : Type 0 where
    pub groups : List (ℕ × List ℕ)
    pub starts : FreeFrom (words reliable d) (get_or (words reliable d 0) 4 0) groups
    pub lists : flatten groups ≡ free
    pub distinct : Distinct (0 ∷ free)

  -- The superblock has changed only in the word where the free list starts.
  abbrev pub SameFields : (d' d : D) → Type 0
  SameFields d' d =
      (i : ℕ) → i ≢ 4 → get_or (words reliable d' 0) i 0 ≡ get_or (words reliable d 0) i 0

  take_entry_lem :
      (d : D) (b e next k : ℕ) (es : List ℕ)
      → e ≢ b
      → words reliable d b ≡ next ∷ stored (e ∷ es) (replicate k 0)
      → (d' : D) × (take_entry disk device (reliable.sector d b) b (length es) d ≡ ok e d')
        × (reliable.sector d' e ≡ zero_block)
        × (words reliable d' b ≡ next ∷ stored es (replicate (suc k) 0))
        × ((t : ℕ) → t ≢ b → t ≢ e → reliable.sector d' t ≡ reliable.sector d t)
  unfolding take_entry words stored
  take_entry_lem d b e next k es e≢b content =
      let (fit, count) = words_fit reliable d b in
      let (d1, run1, here1, there1) =
        write_words reliable (set (words reliable d b) (length es + 1) 0) b d
          (length-set (words reliable d b) (length es + 1) 0 ∙ count)
          (set-AllBelow (2 ^ 32) (words reliable d b) (length es + 1) 0 (omega arith) fit) in
      let (d2, run2, here2, there2) = write_zero reliable e d1 in
      let index : length es + 1 ≡ suc (length es + 0) = omega arith in
      let top : get_or (words reliable d b) (length es + 1) 0 ≡ e =
        rw (content, index) (get_or-stored es (e ∷ replicate k 0) 0 0) in
      (
        d2,
        rw top (
            then_ok (disk_write disk device _ b) _ run1
              (then_ok (disk_write disk device zero_block e) _ run2 refl)),
        here2,
        ap to_words (there2 b (λ z. e≢b (sym z)))
            ∙ here1
            ∙ rw (content, index) (ap (λ ws. next ∷ ws) (set-stored es (e ∷ replicate k 0) 0 0)),
        λ t tb te. there2 t te ∙ there1 t tb,
      )

  -- What alloc_block does with a list that is not empty.
  alloc_block-head :
      (d : D) (b : ℕ)
      → get_or (words reliable d 0) 4 0 ≡ b
      → b ≢ 0
      → alloc_block disk device d
        ≡ take_free disk device
            (reliable.sector d b)
            b
            (rposition used (drop 1 (words reliable d b)))
            d
  unfolding alloc_block words
  alloc_block-head d b at b≢0 =
      let in_use : (b == 0) ≡ false = ground arith in
      bind_ok (disk_read disk device zero_block 0) _
        (read_sector reliable zero_block 0 d (length-replicate {A = ℕ} 512 0))
        (rw (at, in_use)
          (bind_ok (disk_read disk device (reliable.sector d 0) b) _
            (read_sector reliable (reliable.sector d 0) b d (reliable.sector_length d 0)) refl))

  take_head_lem :
      (d : D) (b next : ℕ) (zeros : List ℕ)
      → b ≢ 0
      → words reliable d b ≡ next ∷ zeros
      → (d' : D) × (take_head disk device (reliable.sector d b) b d ≡ ok b d')
        × (reliable.sector d' b ≡ zero_block)
        × (get_or (words reliable d' 0) 4 0 ≡ next)
        × SameFields d' d
        × ((t : ℕ) → t ≢ b → t ≢ 0 → reliable.sector d' t ≡ reliable.sector d t)
  unfolding take_head words
  take_head_lem d b next zeros b≢0 content =
      let new_head : get_or (words reliable d b) 0 0 ≡ next = ap (λ ws. get_or ws 0 0) content in
      let fits =
        get_or-AllBelow (2 ^ 32) (words reliable d b) 0 (omega arith) (words_fit reliable d b).0 in
      let (fit, count) = words_fit reliable d 0 in
      let sb = set (words reliable d 0) 4 (get_or (words reliable d b) 0 0) in
      let (d1, run1, here1, there1) = write_zero reliable b d in
      let (d2, run2, here2, there2) =
        write_words reliable sb 0 d1
          (length-set (words reliable d 0) 4 (get_or (words reliable d b) 0 0) ∙ count)
          (set-AllBelow (2 ^ 32) (words reliable d 0) 4 (get_or (words reliable d b) 0 0) fits
            fit) in
      (
        d2,
        bind_ok (disk_read disk device zero_block 0) _
            (read_sector reliable zero_block 0 d (length-replicate {A = ℕ} 512 0))
            (then_ok (disk_write disk device zero_block b) _ run1
              (then_ok (disk_write disk device _ 0) _ run2 refl)),
        there2 b b≢0 ∙ here1,
        ap (λ ws. get_or ws 4 0) here2
            ∙ get_or-set_self (words reliable d 0) 4 (get_or (words reliable d b) 0 0) 0
                (omega (arith, count))
            ∙ new_head,
        (λ i other.
            ap (λ ws. get_or ws i 0) here2
            ∙ get_or-set_ne (words reliable d 0) 4 i (get_or (words reliable d b) 0 0) 0
                (λ e. other (sym e))),
        λ t tb t0. there2 t t0 ∙ there1 t tb,
      )

  alloc_block-entry :
      (d : D) (b e : ℕ) (es : List ℕ) (groups : List (ℕ × List ℕ))
      → FreeFrom (words reliable d) (get_or (words reliable d 0) 4 0) ((b, e ∷ es) ∷ groups)
      → Distinct (0 ∷ flatten ((b, e ∷ es) ∷ groups))
      → (d' : D) × (alloc_block disk device d ≡ ok e d')
        × (reliable.sector d' e ≡ zero_block)
        × IsFreeList d' (flatten ((b, es) ∷ groups))
        × SameFields d' d
        × ((t : ℕ)
            → NotIn t (0 ∷ flatten ((b, e ∷ es) ∷ groups))
            → reliable.sector d' t ≡ reliable.sector d t)
  unfolding take_free words stored
  alloc_block-entry d b e es groups (at, (k, next, content, rest)) (nz, dist) =
      let apart = NotIn-append 0 es (b ∷ flatten groups) nz.1 in
      let (d', run, zeroed, kept, others) =
        take_entry_lem d b e next k es (NotIn-append e es (b ∷ flatten groups) dist.0).0 content in
      let found : rposition used (stored es (e ∷ replicate k 0)) ≡ some (length es) =
        rposition-stored_top es e k nz.0 in
      let head' : get_or (words reliable d' 0) 4 0 ≡ get_or (words reliable d 0) 4 0 =
        ap (λ bytes. get_or (to_words bytes) 4 0) (others 0 apart.0 nz.0) in
      let dist' = Distinct-append es (b ∷ flatten groups) dist.1 in
      (
        d',
        alloc_block-head d b at (λ z. apart.0 (sym z)) ∙ rw (content, found) run,
        zeroed,
        record {
          groups = (b, es) ∷ groups;
          starts = (
            head' ∙ at,
            (
              suc k,
              next,
              kept,
              FreeFrom-frame (words reliable d) (words reliable d') b e
                  (λ t tb te. ap to_words (others t tb te)) next groups dist'.0
                  (NotIn-append e es (b ∷ flatten groups) dist.0).1 rest,
            ),
          );
          lists = refl;
          distinct = (nz.1, dist.1);
        },
        (λ i other. ap (λ bytes. get_or (to_words bytes) i 0) (others 0 apart.0 nz.0)),
        λ t out. others t (NotIn-append t es (b ∷ flatten groups) out.1.1).0 out.1.0,
      )

  alloc_block-last :
      (d : D) (b : ℕ) (groups : List (ℕ × List ℕ))
      → FreeFrom (words reliable d) (get_or (words reliable d 0) 4 0) ((b, []) ∷ groups)
      → Distinct (0 ∷ flatten ((b, []) ∷ groups))
      → (d' : D) × (alloc_block disk device d ≡ ok b d')
        × (reliable.sector d' b ≡ zero_block)
        × IsFreeList d' (flatten groups)
        × SameFields d' d
        × ((t : ℕ)
            → NotIn t (0 ∷ flatten ((b, []) ∷ groups))
            → reliable.sector d' t ≡ reliable.sector d t)
  unfolding take_free words stored
  alloc_block-last d b groups (at, (k, next, content, rest)) (nz, dist) =
      let b≢0 : b ≢ 0 = λ z. nz.0 (sym z) in
      let (d', run, zeroed, head', fields, others) =
        take_head_lem d b next (replicate k 0) b≢0 content in
      (
        d',
        alloc_block-head d b at b≢0 ∙ rw (content, rposition-replicate k) run,
        zeroed,
        record {
          groups = groups;
          starts = rw head' (
              FreeFrom-frame (words reliable d) (words reliable d') b 0
                (λ t tb t0. ap to_words (others t tb t0)) next groups dist.0 nz.1 rest);
          lists = refl;
          distinct = (nz.1, dist.1);
        },
        fields,
        λ t out. others t out.1.0 out.0,
      )

  alloc_block-pop_groups :
      (d : D) (b : ℕ) (free : List ℕ) (groups : List (ℕ × List ℕ))
      → FreeFrom (words reliable d) (get_or (words reliable d 0) 4 0) groups
      → flatten groups ≡ b ∷ free
      → Distinct (0 ∷ b ∷ free)
      → (d' : D) × (alloc_block disk device d ≡ ok b d')
        × (reliable.sector d' b ≡ zero_block)
        × IsFreeList d' free
        × SameFields d' d
        × ((t : ℕ) → NotIn t (0 ∷ b ∷ free) → reliable.sector d' t ≡ reliable.sector d t)
  alloc_block-pop_groups d b free [] f e dist = absurd (omega (arith, ap length e))
  alloc_block-pop_groups d b free ((c, []) ∷ groups) f e dist =
      let top : b ≡ c = sym (ap (λ xs. get_or xs 0 0) e) in
      let rest : free ≡ flatten groups = sym (ap (drop 1) e) in
      rw (top, rest) (alloc_block-last d c groups f (rw (sym top, sym rest) dist))
  alloc_block-pop_groups d b free ((c, x ∷ es) ∷ groups) f e dist =
      let top : b ≡ x = sym (ap (λ xs. get_or xs 0 0) e) in
      let rest : free ≡ es ++ c ∷ flatten groups = sym (ap (drop 1) e) in
      rw (top, rest) (alloc_block-entry d c x es groups f (rw (sym top, sym rest) dist))

  -- On a disk without faults, alloc_block takes the block on top of the free list. The block is
  -- filled with zeros, the rest stays free, and no sector changes outside of the superblock and
  -- the free list; in the superblock only the start of the free list changes.
  pub alloc_block-pop :
      (d : D) (b : ℕ) (free : List ℕ)
      → IsFreeList d (b ∷ free)
      → (d' : D) × (alloc_block disk device d ≡ ok b d')
        × (reliable.sector d' b ≡ zero_block)
        × IsFreeList d' free
        × SameFields d' d
        × ((t : ℕ) → NotIn t (0 ∷ b ∷ free) → reliable.sector d' t ≡ reliable.sector d t)
  alloc_block-pop d b free f = alloc_block-pop_groups d b free f.groups f.starts f.lists f.distinct

  exhausted_groups :
      (d : D) (groups : List (ℕ × List ℕ))
      → FreeFrom (words reliable d) (get_or (words reliable d 0) 4 0) groups
      → flatten groups ≡ []
      → alloc_block disk device d ≡ err exhausted_blocks d
  unfolding alloc_block words
  exhausted_groups d [] at e =
      bind_ok (disk_read disk device zero_block 0) _
        (read_sector reliable zero_block 0 d (length-replicate {A = ℕ} 512 0)) (rw at refl)
  exhausted_groups d ((c, []) ∷ groups) f e = absurd (omega (arith, ap length e))
  exhausted_groups d ((c, x ∷ es) ∷ groups) f e = absurd (omega (arith, ap length e))

  -- With no block left, alloc_block reports it and changes nothing.
  pub alloc_block-exhausted :
      (d : D) → IsFreeList d [] → alloc_block disk device d ≡ err exhausted_blocks d
  alloc_block-exhausted d f = exhausted_groups d f.groups f.starts f.lists
