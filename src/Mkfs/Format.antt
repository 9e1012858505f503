-- ===== src/Mkfs/Format.antt =====
-- `mkfs` of lib/simple_fs/src/bin.rs as a whole.
use sprocket.Base.{
  ℕ, zero, suc, ◌+◌, ◌^◌, ◌≤◌, ◌<◌, ◌≡◌, ◌≢◌, ◌⊎◌, inl, inr, refl, sym, ap, ◌∙◌, List, arith,
  get_or,
}
use sprocket.SimpleFs.Types.{Disk, ok, then_ok, unused_inode}
use sprocket.SimpleFs.Layout.{to_words, IsInode, replicate-AllBelow}
use sprocket.SimpleFs.Inodes.{is_unused, inodes, read_inode, update_inode}
use sprocket.SimpleFs.Reliable.{Reliable, words}
use sprocket.SimpleFs.FreeList.{NotIn, FreeFrom-frame}
use sprocket.SimpleFs.AllocBlock.{IsFreeList}
use sprocket.SimpleFs.InodeTable.{inode_in, table_start, update_inode_lem, read_inode_lem}
use sprocket.SimpleFs.Dirs.{dir_lookup}
use sprocket.SimpleFs.DirLookup.{search, found}
use sprocket.Mkfs.{clear_inodes, make_freelist, make_root, mkfs}
use sprocket.Mkfs.FreeList.{blocks, NotIn-blocks, make_freelist_lem}
use sprocket.Mkfs.RootCalls.{root_inode, root_entries}
use sprocket.Mkfs.Root.{make_root_lem}

unused_inode-IsInode : IsInode unused_inode
unused_inode-IsInode = record {
  device_fits = omega arith;
  major_fits = omega arith;
  minor_fits = omega arith;
  size_fits = omega arith;
  blocks_fit = replicate-AllBelow (2 ^ 32) 64 (omega arith);
  all_blocks = refl;
}

first-or-later : (i j : ℕ) → i ≤ j → (i ≡ j) ⊎ (i + 1 ≤ j)
first-or-later i j h = ground arith

module _ {D : Type 0} {disk : Disk D} {device : ℕ} (reliable : Reliable disk device) where
  inode_frame :
      (d d' : D) (s : ℕ)
      → reliable.sector d' s ≡ reliable.sector d s
      → inode_in reliable d' s ≡ inode_in reliable d s
  unfolding inode_in
  inode_frame d d' s e = ap (λ block. get_or (inodes 1 block) 0 unused_inode) e

  start_frame :
      (d d' : D)
      → reliable.sector d' 0 ≡ reliable.sector d 0
      → table_start reliable d' ≡ table_start reliable d
  unfolding words
  start_frame d d' e = ap (λ bytes. get_or (to_words bytes) 3 0) e

module _ {D : Type 0} {disk : Disk D} (r0 : Reliable disk 0) where
  -- The loop over the inodes writes each of them, on a disk whose inodes start in block 1.
  clear_inodes_lem :
      (i left : ℕ) (d : D)
      → table_start r0 d ≡ 1
      → (d' : D) × (clear_inodes disk i left d ≡ ok tt d')
        × ((j : ℕ) → i ≤ j → j < i + left → inode_in r0 d' (1 + j) ≡ unused_inode)
        × ((t : ℕ) → (t < 1 + i) ⊎ (1 + i + left ≤ t) → r0.sector d' t ≡ r0.sector d t)
  unfolding clear_inodes
  clear_inodes_lem i zero d start = (d, refl, (λ j low high. absurd (omega arith)), λ t out. refl)
  clear_inodes_lem i (suc left) d start =
      let (d1, run1, written, others1) =
        update_inode_lem unused_inode r0 d i unused_inode-IsInode in
      let place : table_start r0 d + i ≡ 1 + i = omega arith in
      let frame : (t : ℕ) → t ≢ 1 + i → r0.sector d1 t ≡ r0.sector d t =
        λ t away. others1 t (λ e. away (e ∙ place)) in
      let start1 = start_frame r0 d d1 (frame 0 (λ e. omega arith)) ∙ start in
      let (d2, run2, cleared, others2) = clear_inodes_lem (i + 1) left d1 start1 in
      (
        d2,
        then_ok (update_inode disk i unused_inode) (clear_inodes disk (i + 1) left) run1 run2,
        (λ j low high. elim (first-or-later i j low) [
          | inl here ↦
              ap (λ k. inode_in r0 d2 (1 + k)) (sym here)
              ∙ inode_frame r0 d1 d2 (1 + i) (others2 (1 + i) (inl (omega arith)))
              ∙ ap (inode_in r0 d1) (sym place)
              ∙ written
          | inr later ↦ cleared j later (omega arith)
        ]),
        λ t out. others2 t (ground arith) ∙ frame t (λ e. ground arith),
      )

module _ {D : Type 0} {disk : Disk D} (r0 : Reliable disk 0) (r1 : Reliable disk 1)
    (same : (d : D) (s : ℕ) → r1.sector d s ≡ r0.sector d s) where
  same_inode : (d : D) (s : ℕ) → inode_in r1 d s ≡ inode_in r0 d s
  unfolding inode_in
  same_inode d s = ap (λ block. get_or (inodes 1 block) 0 unused_inode) (same d s)

  same_start : (d : D) → table_start r1 d ≡ table_start r0 d
  unfolding words
  same_start d = ap (λ bytes. get_or (to_words bytes) 3 0) (same d 0)

  -- The free list is the same for both devices.
  same-IsFreeList : (d : D) (free : List ℕ) → IsFreeList r0 d free → IsFreeList r1 d free
  unfolding words
  same-IsFreeList d free list =
      let head : get_or (words r1 d 0) 4 0 ≡ get_or (words r0 d 0) 4 0 =
        ap (λ bytes. get_or (to_words bytes) 4 0) (same d 0) in
      let apart : NotIn 0 _ = rw list.lists (list.distinct.0) in
      record {
        groups = list.groups;
        starts = rw head (
            FreeFrom-frame (words r0 d) (words r1 d) 0 0 (λ t t0 t0'. ap to_words (same d t)) _
              list.groups apart apart list.starts);
        lists = list.lists;
        distinct = list.distinct;
      }

  -- On a disk without faults, whatever its device number, whose inodes start in block 1, mkfs ends
  -- without an error or a failed assertion. Inode 0 is then the root directory, in block 999, where
  -- dir_lookup finds "." and ".." with the number 0 and nothing else; the other inodes are unused;
  -- the free list holds each block from 257 to 998, and no sector behind the file system changes.
  pub mkfs_lem :
      (d : D)
      → table_start r0 d ≡ 1
      → (d' : D) × (mkfs disk d ≡ ok tt d')
        × (read_inode disk 1 0 d' ≡ ok (root_inode 999) d')
        × ((i : ℕ) → 0 < i → i < 256 → read_inode disk 1 i d' ≡ ok unused_inode d')
        × ((name : List ℕ)
            → dir_lookup disk (root_inode 999) name d'
              ≡ found disk (root_inode 999) d' (search root_entries name 0))
        × IsFreeList r1 d' (blocks 257 742)
        × ((t : ℕ) → 1000 ≤ t → r1.sector d' t ≡ r1.sector d t)
  unfolding mkfs blocks
  mkfs_lem d start =
      let (d1, run1, cleared, others1) = clear_inodes_lem r0 0 256 d start in
      let (d2, run2, list2, start2, others2) = make_freelist_lem r0 d1 in
      let kept2 : (j : ℕ) → j < 256 → inode_in r0 d2 (1 + j) ≡ unused_inode = λ j h.
        inode_frame r0 d1 d2 (1 + j) (others2 (1 + j) (omega arith) (inl (omega arith)))
        ∙ cleared j (omega arith) (omega arith) in
      let kept : (j : ℕ) → j < 256 → inode_in r1 d2 (1 + j) ≡ unused_inode =
        λ j h. same_inode d2 (1 + j) ∙ kept2 j h in
      let (d3, run3, back, look, list3, start3, others3) =
        make_root_lem r0 r1 same 999 (blocks 257 742) d2 (same_start d2 ∙ start2)
          (ap is_unused (kept 0 (omega arith))) (omega arith)
          (NotIn-blocks 1 257 743 (inl (omega arith)))
          (same-IsFreeList d2 (blocks 257 743) list2) in
      (
        d3,
        then_ok (clear_inodes disk 0 256) _ run1
            (then_ok (make_freelist disk) (make_root disk) run2 run3),
        back,
        (λ i low high.
            read_inode_lem r1 d3 i (omega arith)
            ∙ ap (λ n. ok (inode_in r1 d3 (n + i)) d3) start3
            ∙ ap (λ a. ok a d3)
                (inode_frame r1 d2 d3 (1 + i) (
                    others3 (1 + i) (
                      (λ e. omega arith),
                      ((λ e. omega arith), NotIn-blocks (1 + i) 257 743 (inl (omega arith))),
                    ))
                  ∙ kept i high)),
        look,
        list3,
        λ t high.
            others3 t
              ((λ e. omega arith), ((λ e. omega arith), NotIn-blocks t 257 743 (inr (omega arith))))
            ∙ same d2 t
            ∙ others2 t (omega arith) (inr (omega arith))
            ∙ others1 t (inr (omega arith))
            ∙ sym (same d t),
      )
