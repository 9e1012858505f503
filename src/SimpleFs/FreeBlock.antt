-- ===== src/SimpleFs/FreeBlock.antt =====
-- `free_block` of lib/simple_fs/src/lib.rs puts a block on top of the free list.
use sprocket.Base.{
  ℕ, zero, suc, ◌+◌, ◌<◌, ◌^◌, ◌≡◌, ◌≢◌, refl, sym, ap, ◌∙◌, false, ◌==◌, none, some, List, [], ◌∷◌,
  arith, length, length-set, length-drop, length-replicate, get_or, get_or-set_self, get_or-set_ne,
  set, drop, replicate,
}
use sprocket.SimpleFs.Types.{Disk, ok, ◌>>◌, pure, bind_ok, then_ok}
use sprocket.SimpleFs.Layout.{
  to_words, from_words, set-AllBelow, get_or-AllBelow, replicate-AllBelow,
}
use sprocket.SimpleFs.Blocks.{zero_block, disk_read, disk_write, free_block, position}
use sprocket.SimpleFs.Reliable.{Reliable, words, words_fit, read_sector, write_words}
use sprocket.SimpleFs.FreeList.{
  stored, NotIn, Distinct, flatten, FreeFrom, NotIn-append, NotIn-left, Distinct-append,
  FreeFrom-frame, empty, position-stored, position-stored-none, set-stored,
}
use sprocket.SimpleFs.AllocBlock.{IsFreeList, SameFields}

module _ {D : Type 0} {disk : Disk D} {device : ℕ} (reliable : Reliable disk device) where
  -- The superblock gets a new head.
  set_head :
      (d : D) (b : ℕ)
      → b < 2 ^ 32
      → (d' : D) × (disk_write disk device (from_words (set (words reliable d 0) 4 b)) 0 d
          ≡ ok 512 d')
        × (get_or (words reliable d' 0) 4 0 ≡ b)
        × SameFields reliable d' d
        × ((t : ℕ) → t ≢ 0 → reliable.sector d' t ≡ reliable.sector d t)
  set_head d b fits =
      let (fit, count) = words_fit reliable d 0 in
      let (d', run, here, there) =
        write_words reliable (set (words reliable d 0) 4 b) 0 d
          (length-set (words reliable d 0) 4 b ∙ count)
          (set-AllBelow (2 ^ 32) (words reliable d 0) 4 b fits fit) in
      (
        d',
        run,
        ap (λ ws. get_or ws 4 0) here
            ∙ get_or-set_self (words reliable d 0) 4 b 0 (omega (arith, count)),
        (λ i other.
            ap (λ ws. get_or ws i 0) here
            ∙ get_or-set_ne (words reliable d 0) 4 i b 0 (λ e. other (sym e))),
        there,
      )

  -- The block becomes the head, with no entries.
  new_head :
      (d : D) (b next count : ℕ)
      → b < 2 ^ 32
      → b ≢ 0
      → next < 2 ^ 32
      → count ≡ 127
      → (d' : D) × ((disk_write disk device (from_words (set (words reliable d 0) 4 b)) 0
              >> (disk_write disk device (from_words (next ∷ replicate count 0)) b >> pure tt))
            d
          ≡ ok tt d')
        × (get_or (words reliable d' 0) 4 0 ≡ b)
        × (words reliable d' b ≡ next ∷ stored [] (replicate count 0))
        × SameFields reliable d' d
        × ((t : ℕ) → t ≢ 0 → t ≢ b → reliable.sector d' t ≡ reliable.sector d t)
  unfolding words stored
  new_head d b next count fits b≢0 next_fits h =
      let (d1, run1, here1, fields, there1) = set_head d b fits in
      let (d2, run2, here2, there2) =
        write_words reliable (next ∷ replicate count 0) b d1
          (omega (arith, length-replicate {A = ℕ} count 0))
          (next_fits, replicate-AllBelow (2 ^ 32) count (omega arith)) in
      (
        d2,
        then_ok (disk_write disk device _ 0) _ run1
            (then_ok (disk_write disk device _ b) (pure tt) run2 refl),
        ap (λ bytes. get_or (to_words bytes) 4 0) (there2 0 (λ z. b≢0 (sym z))) ∙ here1,
        here2,
        (λ i other.
            ap (λ bytes. get_or (to_words bytes) i 0) (there2 0 (λ z. b≢0 (sym z)))
            ∙ fields i other),
        λ t t0 tb. there2 t tb ∙ there1 t t0,
      )

  free_block-full :
      (d : D) (b c : ℕ)
      → get_or (words reliable d 0) 4 0 ≡ c
      → c ≢ 0
      → position empty (drop 1 (words reliable d c)) ≡ none
      → free_block disk device b d
        ≡ (disk_write disk device (from_words (set (words reliable d 0) 4 b)) 0
              >> (disk_write disk device
                    (from_words (c ∷ replicate (length (drop 1 (words reliable d c))) 0))
                    b
                  >> pure tt))
            d
  unfolding free_block words
  free_block-full d b c at c≢0 full =
      let in_use : (c == 0) ≡ false = ground arith in
      bind_ok (disk_read disk device zero_block 0) _
        (read_sector reliable zero_block 0 d (length-replicate {A = ℕ} 512 0))
        (rw (at, in_use)
          (bind_ok (disk_read disk device zero_block c) _
            (read_sector reliable zero_block c d (length-replicate {A = ℕ} 512 0))
            (rw (full, at) refl)))

  set_entry :
      (ws : List ℕ) (next b k : ℕ) (es : List ℕ)
      → ws ≡ next ∷ stored es (replicate (suc k) 0)
      → set ws (length es + 1) b ≡ next ∷ stored (b ∷ es) (replicate k 0)
  unfolding stored
  set_entry ws next b k es content =
      let index : length es + 1 ≡ suc (length es + 0) = omega arith in
      rw (content, index) (ap (λ xs. next ∷ xs) (set-stored es (0 ∷ replicate k 0) 0 b))

  free_block-push_groups :
      (d : D) (b : ℕ) (groups : List (ℕ × List ℕ))
      → FreeFrom (words reliable d) (get_or (words reliable d 0) 4 0) groups
      → Distinct (0 ∷ b ∷ flatten groups)
      → b < 2 ^ 32
      → (d' : D) × (free_block disk device b d ≡ ok tt d')
        × IsFreeList reliable d' (b ∷ flatten groups)
        × SameFields reliable d' d
        × ((t : ℕ) → NotIn t (0 ∷ b ∷ flatten groups) → reliable.sector d' t ≡ reliable.sector d t)
  unfolding free_block words
  free_block-push_groups d b [] at dist fits =
      let b≢0 : b ≢ 0 = λ z. dist.0.0 (sym z) in
      let (d', run, head, content, fields, others) =
        new_head d b 0 127 fits b≢0 (omega arith) refl in
      (
        d',
        bind_ok (disk_read disk device zero_block 0) _
            (read_sector reliable zero_block 0 d (length-replicate {A = ℕ} 512 0)) (rw at run),
        record {
          groups = (b, []) ∷ [];
          starts = (head, (127, 0, content, refl));
          lists = refl;
          distinct = dist;
        },
        fields,
        λ t out. others t out.0 out.1.0,
      )
  free_block-push_groups d b ((c, es) ∷ groups) (at, (zero, next, content, rest)) (nz, (nb, dist))
        fits =
      let c≢0 : c ≢ 0 = λ z. (NotIn-append 0 es (c ∷ flatten groups) nz.1).0 (sym z) in
      let b≢0 : b ≢ 0 = λ z. nz.0 (sym z) in
      let c_fits : c < 2 ^ 32 = rw (sym at) (
        get_or-AllBelow (2 ^ 32) (words reliable d 0) 4 (omega arith) (words_fit reliable d 0).0) in
      let full : position empty (drop 1 (words reliable d c)) ≡ none =
        rw content (position-stored-none es [] (NotIn-left 0 es (c ∷ flatten groups) nz.1) refl) in
      let count : length (drop 1 (words reliable d c)) ≡ 127 =
        omega (arith, length-drop 1 (words reliable d c), (words_fit reliable d c).1) in
      let (d', run, head, new, fields, others) =
        new_head d b c (length (drop 1 (words reliable d c))) fits b≢0 c_fits count in
      (
        d',
        free_block-full d b c at c≢0 full ∙ run,
        record {
          groups = (b, []) ∷ (c, es) ∷ groups;
          starts = (
            head,
            (
              length (drop 1 (words reliable d c)),
              c,
              new,
              FreeFrom-frame (words reliable d) (words reliable d') 0 b
                  (λ t t0 tb. ap to_words (others t t0 tb)) c ((c, es) ∷ groups) nz.1 nb
                  (refl, (zero, next, content, rest)),
            ),
          );
          lists = refl;
          distinct = (nz, (nb, dist));
        },
        fields,
        λ t out. others t out.0 out.1.0,
      )
  free_block-push_groups d b ((c, es) ∷ groups) (at, (suc k, next, content, rest)) (nz, (nb, dist))
        fits =
      let c≢0 : c ≢ 0 = λ z. (NotIn-append 0 es (c ∷ flatten groups) nz.1).0 (sym z) in
      let in_use : (c == 0) ≡ false = ground arith in
      let room : position empty (drop 1 (words reliable d c)) ≡ some (length es) = rw content (
        position-stored es (0 ∷ replicate k 0) 0 (NotIn-left 0 es (c ∷ flatten groups) nz.1) refl
        ∙ ap some (omega arith)) in
      let (fit, count) = words_fit reliable d c in
      let (d', run, here, others) =
        write_words reliable (set (words reliable d c) (length es + 1) b) c d
          (length-set (words reliable d c) (length es + 1) b ∙ count)
          (set-AllBelow (2 ^ 32) (words reliable d c) (length es + 1) b fits fit) in
      let new : words reliable d' c ≡ next ∷ stored (b ∷ es) (replicate k 0) =
        here ∙ set_entry (words reliable d c) next b k es content in
      (
        d',
        bind_ok (disk_read disk device zero_block 0) _
            (read_sector reliable zero_block 0 d (length-replicate {A = ℕ} 512 0))
            (rw (at, in_use)
              (bind_ok (disk_read disk device zero_block c) _
                (read_sector reliable zero_block c d (length-replicate {A = ℕ} 512 0))
                (rw (room, at) (then_ok (disk_write disk device _ c) (pure tt) run refl)))),
        record {
          groups = (c, b ∷ es) ∷ groups;
          starts = (
            ap (λ bytes. get_or (to_words bytes) 4 0) (others 0 (λ z. c≢0 (sym z))) ∙ at,
            (
              k,
              next,
              new,
              FreeFrom-frame (words reliable d) (words reliable d') c c
                  (λ t tc tc'. ap to_words (others t tc)) next groups
                  (Distinct-append es (c ∷ flatten groups) dist).0
                  (Distinct-append es (c ∷ flatten groups) dist).0 rest,
            ),
          );
          lists = refl;
          distinct = (nz, (nb, dist));
        },
        (λ i other. ap (λ bytes. get_or (to_words bytes) i 0) (others 0 (λ z. c≢0 (sym z)))),
        λ t out. others t (NotIn-append t es (c ∷ flatten groups) out.1.1).0,
      )

  -- On a disk without faults, free_block puts a block that is neither the superblock nor free on
  -- top of the free list. No sector changes outside of the superblock, the block and the list, and
  -- in the superblock only the start of the free list changes.
  pub free_block-push :
      (d : D) (b : ℕ) (free : List ℕ)
      → IsFreeList reliable d free
      → NotIn b (0 ∷ free)
      → b < 2 ^ 32
      → (d' : D) × (free_block disk device b d ≡ ok tt d')
        × IsFreeList reliable d' (b ∷ free)
        × SameFields reliable d' d
        × ((t : ℕ) → NotIn t (0 ∷ b ∷ free) → reliable.sector d' t ≡ reliable.sector d t)
  free_block-push d b free f out fits =
      let distinct : Distinct (0 ∷ b ∷ free) =
        (((λ z. out.0 (sym z)), f.distinct.0), (out.1, f.distinct.1)) in
      rw (sym f.lists) (free_block-push_groups d b f.groups f.starts (rw f.lists distinct) fits)
