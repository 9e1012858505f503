-- ===== src/SimpleFs/InodeTable.antt =====
-- The list of inodes of lib/simple_fs/src/lib.rs seen as a table: entry i stands in the i-th block
-- from the start of the list.
use sprocket.Base.{
  ℕ, ◌+◌, ◌*◌, ◌/◌, ◌%◌, ◌≤◌, ◌^◌, ◌≡◌, ◌≢◌, refl, ap, ◌∙◌, true, List, [], ◌∷◌, ◌++◌, leb, arith,
  length, get_or, take, drop, take-append, length-append, length-drop, length-replicate,
}
use sprocket.SimpleFs.Types.{
  Disk, Run, ok, err, panic, pure, bind_ok, then_ok, blocksize, Inode, unused_inode,
}
use sprocket.SimpleFs.Layout.{
  to_words, from_words, AllBelow, IsInode, inode_words, words_inode, words_inode-inode_words,
  inode_words_fit, AllBelow-append, AllBelow-drop, to_words-from_words, length-from_words,
  from_words-AllBelow, inode_size,
}
use sprocket.SimpleFs.Blocks.{zero_block, disk_read, disk_write}
use sprocket.SimpleFs.Inodes.{inodes, set_inode, read_inode, update_inode}
use sprocket.SimpleFs.Reliable.{Reliable, words, read_sector, write_sector}

-- The inode's bytes replace the front of its block.
set_inode_front :
    (i : Inode) (block : List ℕ)
    → IsInode i
    → set_inode block 0 i ≡ from_words (inode_words i) ++ drop inode_size block
unfolding set_inode
set_inode_front i block valid =
    let size : 0 * inode_size + length (from_words (inode_words i)) ≡ inode_size =
      omega (arith, length-from_words (inode_words i), (inode_words_fit i valid).1) in
    ap (λ n. from_words (inode_words i) ++ drop n block) size

-- An inode comes back from the block that it was written into.
inodes-set_inode :
    (i : Inode) (block : List ℕ) → IsInode i → inodes 1 (set_inode block 0 i) ≡ i ∷ []
unfolding inodes
inodes-set_inode i block valid =
    let (fit, count) = inode_words_fit i valid in
    let bytes : take inode_size (set_inode block 0 i) ≡ from_words (inode_words i) =
      ap (take inode_size) (set_inode_front i block valid)
      ∙ take-append inode_size (from_words (inode_words i)) (drop inode_size block)
          (omega (arith, length-from_words (inode_words i))) in
    ap (λ bs. words_inode (to_words bs) ∷ []) bytes
    ∙ ap (λ ws. words_inode ws ∷ []) (to_words-from_words (inode_words i) fit)
    ∙ ap (λ inode. inode ∷ []) (words_inode-inode_words i valid)

-- The block stays a block.
set_inode_fits :
    (i : Inode) (block : List ℕ)
    → IsInode i
    → length block ≡ blocksize
    → AllBelow (2 ^ 8) block
    → (length (set_inode block 0 i) ≡ blocksize) × AllBelow (2 ^ 8) (set_inode block 0 i)
set_inode_fits i block valid size b =
    let (fit, count) = inode_words_fit i valid in
    rw (set_inode_front i block valid) (
      omega (
        arith,
        length-append (from_words (inode_words i)) (drop inode_size block),
        length-drop inode_size block,
        length-from_words (inode_words i),
      ),
      AllBelow-append (2 ^ 8) (from_words (inode_words i)) (drop inode_size block)
          (from_words-AllBelow (inode_words i)) (AllBelow-drop (2 ^ 8) inode_size block b),
    )

module _ {D : Type 0} {disk : Disk D} {device : ℕ} (reliable : Reliable disk device) where
  -- The inode that a block holds.
  unfoldable pub inode_in : D → (blockno : ℕ) → Inode
  unfolding inodes
  inode_in d blockno = get_or (inodes 1 (reliable.sector d blockno)) 0 unused_inode

  abbrev pub table_start : D → ℕ
  table_start d = get_or (words reliable d 0) 3 0

  pub write_inode :
      (i : Inode) (s : ℕ) (d : D)
      → IsInode i
      → (d' : D) × (disk_write disk device (set_inode (reliable.sector d s) 0 i) s d
          ≡ ok blocksize d')
        × (inode_in d' s ≡ i)
        × ((t : ℕ) → t ≢ s → reliable.sector d' t ≡ reliable.sector d t)
  unfolding inode_in
  write_inode i s d valid =
      let (size, fit) =
        set_inode_fits i (reliable.sector d s) valid (reliable.sector_length d s)
          (reliable.sector_bytes d s) in
      let (d', run, here, there) =
        write_sector reliable (set_inode (reliable.sector d s) 0 i) s d size fit in
      (
        d',
        run,
        ap (λ block. get_or (inodes 1 block) 0 unused_inode) here
            ∙ ap (λ is. get_or is 0 unused_inode) (inodes-set_inode i (reliable.sector d s) valid),
        there,
      )

  pub read_inode_lem :
      (d : D) (inum : ℕ)
      → inum ≤ 256
      → read_inode disk device inum d ≡ ok (inode_in d (table_start d + inum)) d
  unfolding read_inode words inode_in
  read_inode_lem d inum h =
      let low : leb inum 256 ≡ true = ground arith in
      let here : inum / 1 ≡ inum = omega arith in
      let slot : inum % 1 ≡ 0 = omega arith in
      rw (low, here, slot)
        (bind_ok (disk_read disk device zero_block 0) _
          (read_sector reliable zero_block 0 d (length-replicate {A = ℕ} 512 0))
          (bind_ok (disk_read disk device zero_block (table_start d + inum)) _
            (read_sector reliable zero_block (table_start d + inum) d
              (length-replicate {A = ℕ} 512 0))
            refl))

abbrev returned : {S : Type 0} → Run S Inode → Inode
returned (ok a s) = a
returned (err e s) = unused_inode
returned panic = unused_inode

module _ {D : Type 0} {disk : Disk D} (i : Inode) (reliable : Reliable disk i.device) where
  pub update_inode_lem :
      (d : D) (inum : ℕ)
      → IsInode i
      → (d' : D) × (update_inode disk inum i d ≡ ok tt d')
        × (inode_in reliable d' (table_start reliable d + inum) ≡ i)
        × ((t : ℕ) → t ≢ table_start reliable d + inum → reliable.sector d' t ≡ reliable.sector d t)
  unfolding update_inode words
  update_inode_lem d inum valid =
      let start = table_start reliable d in
      let here : inum / 1 ≡ inum = omega arith in
      let slot : inum % 1 ≡ 0 = omega arith in
      let (d', run, written, others) = write_inode reliable i (start + inum) d valid in
      (
        d',
        rw (here, slot)
            (bind_ok (disk_read disk i.device zero_block 0) _
              (read_sector reliable zero_block 0 d (length-replicate {A = ℕ} 512 0))
              (bind_ok (disk_read disk i.device zero_block (start + inum)) _
                (read_sector reliable zero_block (start + inum) d (length-replicate {A = ℕ} 512 0))
                (then_ok (disk_write disk i.device _ (start + inum)) (pure tt) run refl))),
        written,
        others,
      )
