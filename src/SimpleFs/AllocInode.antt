-- ===== src/SimpleFs/AllocInode.antt =====
-- `alloc_inode` of lib/simple_fs/src/lib.rs on the table of inodes.
use sprocket.Base.{
  ℕ, zero, suc, ◌+◌, ◌-◌, ◌*◌, ◌≤◌, ◌≡◌, ◌≢◌, refl, ap, ◌∙◌, true, false, Option, none, some, inl,
  inr, Bool-cases, List, [], ◌∷◌, arith, length, get_or, set, length-replicate,
}
use sprocket.SimpleFs.Types.{
  Disk, Run, ok, err, exhausted_inodes, ◌>>◌, pure, bind_ok, then_ok, blocksize, Inode,
  unused_inode,
}
use sprocket.SimpleFs.Layout.{IsInode}
use sprocket.SimpleFs.Blocks.{zero_block, disk_read, disk_write, position}
use sprocket.SimpleFs.Inodes.{is_unused, inodes, set_inode, alloc_in_blocks, alloc_inode}
use sprocket.SimpleFs.Reliable.{Reliable, words, read_sector}
use sprocket.SimpleFs.InodeTable.{inode_in, table_start, write_inode}

module _ {D : Type 0} {disk : Disk D} {device : ℕ} (reliable : Reliable disk device) where
  -- The inodes in some blocks, from a block number on.
  unfoldable pub table : (count : ℕ) → (blockno : ℕ) → D → List Inode
  table zero blockno d = []
  table (suc n) blockno d = inode_in reliable d blockno ∷ table n (suc blockno) d

  table_frame :
      (n b : ℕ) (d d' : D)
      → ((t : ℕ) → b ≤ t → reliable.sector d' t ≡ reliable.sector d t)
      → table n b d' ≡ table n b d
  unfolding table inode_in
  table_frame zero b d d' same = refl
  table_frame (suc n) b d d' same =
      ap (λ block. get_or (inodes 1 block) 0 unused_inode ∷ table n (suc b) d')
        (same b (omega arith))
      ∙ ap (λ is. inode_in reliable d b ∷ is)
          (table_frame n (suc b) d d' (λ t h. same t (omega arith)))

  -- What an allocation does to a table: nothing, or the first unused inode is the new one.
  abbrev pub Allocated : Option ℕ → (Run D ℕ) → (count blockno : ℕ) → Inode → D → Type 0
  Allocated none run n b inode d = run ≡ err exhausted_inodes d
  Allocated (some i) run n b inode d =
      (d' : D) × (run ≡ ok (b - table_start reliable d + i) d')
      × (table n b d' ≡ set (table n b d) i inode)
      × ((t : ℕ) → t ≢ b + i → reliable.sector d' t ≡ reliable.sector d t)

  -- One round of the loop, on both branches.
  skip_block :
      (n b start : ℕ) (block : List ℕ) (inode : Inode) (d : D)
      → length block ≡ blocksize
      → is_unused (inode_in reliable d b) ≡ false
      → alloc_in_blocks disk (suc n) device b start block inode d
        ≡ alloc_in_blocks disk n device (suc b) start (reliable.sector d b) inode d
  unfolding alloc_in_blocks inodes inode_in
  skip_block n b start block inode d size taken =
      bind_ok (disk_read disk device block b) _ (read_sector reliable block b d size)
        (rw taken refl)

  use_block :
      (n b start : ℕ) (block : List ℕ) (inode : Inode) (d : D)
      → length block ≡ blocksize
      → is_unused (inode_in reliable d b) ≡ true
      → alloc_in_blocks disk (suc n) device b start block inode d
        ≡ (disk_write disk device (set_inode (reliable.sector d b) 0 inode) b
              >> pure ((b - start) * 1 + 0))
            d
  unfolding alloc_in_blocks inodes inode_in
  use_block n b start block inode d size free =
      bind_ok (disk_read disk device block b) _ (read_sector reliable block b d size) (rw free refl)

  Allocated-later :
      (o : Option ℕ) (run run' : Run D ℕ) (n b : ℕ) (inode : Inode) (d : D)
      → run' ≡ run
      → table_start reliable d ≤ b
      → Allocated o run n (suc b) inode d
      → Allocated (elim o [ none ↦ none | some i ↦ some (suc i) ]) run' (suc n) b inode d
  unfolding table inode_in
  Allocated-later none run run' n b inode d e h was = e ∙ was
  Allocated-later (some i) run run' n b inode d e h (d', result, entries, others) =
      let number : suc b - table_start reliable d + i ≡ b - table_start reliable d + suc i =
        omega arith in
      (
        d',
        e ∙ result ∙ ap (λ k. ok k d') number,
        ap (λ block. get_or (inodes 1 block) 0 unused_inode ∷ table n (suc b) d')
              (others b (λ z. omega arith))
            ∙ ap (λ is. inode_in reliable d b ∷ is) entries,
        λ t apart. others t (λ z. apart (omega arith)),
      )

  alloc_none :
      (b : ℕ) (block : List ℕ) (inode : Inode) (d : D)
      → alloc_in_blocks disk zero device b (table_start reliable d) block inode d
        ≡ err exhausted_inodes d
  unfolding alloc_in_blocks
  alloc_none b block inode d = refl

  alloc_in_blocks_lem :
      (n b : ℕ) (block : List ℕ) (inode : Inode) (d : D)
      → length block ≡ blocksize
      → IsInode inode
      → table_start reliable d ≤ b
      → Allocated
          (position is_unused (table n b d))
          (alloc_in_blocks disk n device b (table_start reliable d) block inode d)
          n
          b
          inode
          d
  unfolding table
  alloc_in_blocks_lem zero b block inode d size valid h = alloc_none b block inode d
  alloc_in_blocks_lem (suc n) b block inode d size valid h =
      let start = table_start reliable d in
      elim (Bool-cases (is_unused (inode_in reliable d b))) [
        | inl free ↦
            let (d', run, written, others) = write_inode reliable inode b d valid in
            let number : (b - start) * 1 + 0 ≡ b - start + 0 = omega arith in
            rw free (
              d',
              use_block n b start block inode d size free
                  ∙ then_ok (disk_write disk device _ b) _ run (ap (λ k. ok k d') number),
              ap (λ i. i ∷ table n (suc b) d') written
                  ∙ ap (λ is. inode ∷ is)
                      (table_frame n (suc b) d d' (λ t above. others t (λ z. omega arith))),
              λ t apart. others t (λ z. apart (omega arith)),
            )
        | inr taken ↦ rw taken (
            Allocated-later (position is_unused (table n (suc b) d))
              (alloc_in_blocks disk n device (suc b) start (reliable.sector d b) inode d)
              (alloc_in_blocks disk (suc n) device b start block inode d) n b inode d
              (skip_block n b start block inode d size taken) h
              (alloc_in_blocks_lem n (suc b) (reliable.sector d b) inode d
                (reliable.sector_length d b) valid (omega arith)))
      ]

  -- On a disk without faults, alloc_inode writes an inode that is in use over the first unused
  -- entry of the table and returns its index, and no other sector changes; if every entry is in
  -- use it reports that and changes nothing.
  pub alloc_inode_lem :
      (inode : Inode) (d : D)
      → IsInode inode
      → is_unused inode ≡ false
      → Allocated
          (position is_unused (table (257 - table_start reliable d) (table_start reliable d) d))
          (alloc_inode disk device inode d)
          (257 - table_start reliable d)
          (table_start reliable d)
          inode
          d
  unfolding alloc_inode words
  alloc_inode_lem inode d valid in_use =
      let start = table_start reliable d in
      let run : alloc_inode disk device inode d
          ≡ alloc_in_blocks disk (257 - start) device start start zero_block inode d =
        rw in_use (
          bind_ok (disk_read disk device zero_block 0) _
            (read_sector reliable zero_block 0 d (length-replicate {A = ℕ} 512 0)) refl) in
      rw run (
        alloc_in_blocks_lem (257 - start) start zero_block inode d (length-replicate {A = ℕ} 512 0)
          valid (omega arith))
