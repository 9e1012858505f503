-- ===== src/Mkfs/Root.antt =====
-- The root directory that `mkfs` of lib/simple_fs/src/bin.rs makes.
use sprocket.Base.{
  ℕ, ◌+◌, ◌-◌, ◌^◌, ◌<◌, ◌≡◌, ◌≢◌, refl, sym, ap, ◌∙◌, true, some, List, [], ◌∷◌, ◌++◌, arith,
  length, get_or, take,
}
use sprocket.SimpleFs.Types.{Disk, ok, unused_inode}
use sprocket.SimpleFs.Layout.{to_words}
use sprocket.SimpleFs.Blocks.{position}
use sprocket.SimpleFs.Inodes.{is_unused, inodes, alloc_inode, read_inode, update_inode}
use sprocket.SimpleFs.Reliable.{Reliable, words}
use sprocket.SimpleFs.FreeList.{NotIn}
use sprocket.SimpleFs.AllocBlock.{IsFreeList}
use sprocket.SimpleFs.InodeTable.{inode_in, table_start, update_inode_lem, read_inode_lem}
use sprocket.SimpleFs.AllocInode.{table, alloc_inode_lem}
use sprocket.SimpleFs.WriteNew.{IsFreeList-frame}
use sprocket.SimpleFs.Dirs.{dirent_size, dirent_bytes, dir_lookup, dir_add}
use sprocket.SimpleFs.DirEntries.{new_entry}
use sprocket.SimpleFs.DirLookup.{search, found, dir_lookup_lem}
use sprocket.SimpleFs.DirAdd.{search-new_entry, search_other, dir_add_first}
use sprocket.SimpleFs.DirSecond.{two-Entries, dir_add_second}
use sprocket.Mkfs.{new_inode, make_root}
use sprocket.Mkfs.RootCalls.{
  dot, dots, root_entries, root_inode, one_entry, new_inode-IsInode, root_inode-IsInode,
  make_root_run,
}

module _ {D : Type 0} {disk : Disk D} (r0 : Reliable disk 0) (r1 : Reliable disk 1)
    (same : (d : D) (s : ℕ) → r1.sector d s ≡ r0.sector d s) where
  start_same : (d : D) → table_start r0 d ≡ table_start r1 d
  unfolding words
  start_same d = ap (λ bytes. get_or (to_words bytes) 3 0) (sym (same d 0))

  start_frame : (d d' : D) → r1.sector d' 0 ≡ r1.sector d 0 → table_start r1 d' ≡ table_start r1 d
  unfolding words
  start_frame d d' e = ap (λ bytes. get_or (to_words bytes) 3 0) e

  first_unused :
      (d : D)
      → table_start r1 d ≡ 1
      → is_unused (inode_in r1 d 1) ≡ true
      → position is_unused (table r0 (257 - table_start r0 d) (table_start r0 d) d) ≡ some 0
  unfolding table inode_in
  first_unused d start unused =
      let unused0 : is_unused (inode_in r0 d 1) ≡ true =
        ap (λ bytes. is_unused (get_or (inodes 1 bytes) 0 unused_inode)) (sym (same d 1))
        ∙ unused in
      let first : position is_unused (table r0 256 1 d) ≡ some 0 = rw unused0 refl in
      ap (λ n. position is_unused (table r0 (257 - n) n d)) (start_same d ∙ start) ∙ first

  -- The first inode is allocated, in sector 1.
  alloc_root :
      (d : D)
      → table_start r1 d ≡ 1
      → is_unused (inode_in r1 d 1) ≡ true
      → (d' : D) × (alloc_inode disk 0 (new_inode true) d ≡ ok 0 d')
        × ((t : ℕ) → t ≢ 1 → r1.sector d' t ≡ r1.sector d t)
  alloc_root d start unused =
      let (d', run, _, others) =
        rw (first_unused d start unused) at
          (alloc_inode_lem r0 (new_inode true) d new_inode-IsInode refl) in
      let index : table_start r0 d - table_start r0 d + 0 ≡ 0 = omega arith in
      let place : table_start r0 d + 0 ≡ 1 = omega (arith, start_same d, start) in
      (
        d',
        run ∙ ap (λ n. ok n d') index,
        λ t apart. same d' t ∙ others t (λ e. apart (e ∙ place)) ∙ sym (same d t),
      )

  -- What the assertions at the end of the function read.
  search-dot : search root_entries dot 0 ≡ some (0, 0)
  search-dot =
      search-new_entry dot 0 (omega arith, omega arith, tt) (omega arith) (omega arith)
        (new_entry dots 0 ∷ []) 0

  search-dots : search root_entries dots 0 ≡ some (0, dirent_size)
  search-dots =
      search_other dot 0 (omega arith, omega arith, tt) (omega arith) (omega arith)
        (new_entry dots 0 ∷ []) 0 dots (λ e. omega (arith, ap length e))
      ∙ search-new_entry dots 0 (omega arith, omega arith, (omega arith, omega arith, tt))
          (omega arith) (omega arith) [] dirent_size

  -- The block of the directory with its two entries.
  abbrev IsRootBlock : List ℕ → Type 0
  IsRootBlock block =
      block ≡ dirent_bytes (new_entry dot 0) ++ take 252 (dirent_bytes (new_entry dots 0))

  add_entries :
      (b : ℕ) (free : List ℕ) (d : D)
      → table_start r1 d ≡ 1
      → IsFreeList r1 d (b ∷ free)
      → (d1 d2 : D) × (dir_add disk dot 0 (new_inode true, d) ≡ ok tt (one_entry b, d1))
        × (dir_add disk dots 0 (one_entry b, d1) ≡ ok tt (root_inode b, d2))
        × IsRootBlock (r1.sector d2 b)
        × IsFreeList r1 d2 free
        × (table_start r1 d2 ≡ 1)
        × ((t : ℕ) → NotIn t (0 ∷ b ∷ free) → r1.sector d2 t ≡ r1.sector d t)
  unfolding words
  add_entries b free d start list =
      let (nz, (out, _)) = list.distinct in
      let b≢0 : b ≢ 0 = λ z. nz.0 (sym z) in
      let (d1, run1, (rest, content1), list1, fields, others1) =
        dir_add_first (new_inode true) r1 dot 0 b free d refl refl (omega arith) refl
          (omega arith, omega arith, tt) (omega arith) list in
      let (d2, run2, content2, others2) =
        dir_add_second (one_entry b) r1 refl refl b≢0 dot dots rest 0 0 d1
          (omega arith, omega arith, tt) (omega arith) (omega arith)
          (omega arith, omega arith, (omega arith, omega arith, tt)) (omega arith) (omega arith)
          (λ e. omega (arith, ap length e)) content1 in
      (
        d1,
        d2,
        run1,
        run2,
        content2,
        IsFreeList-frame r1 d1 d2 b free list1 b≢0 out others2,
        ap (λ bytes. get_or (to_words bytes) 3 0) (others2 0 (λ z. b≢0 (sym z)))
            ∙ fields 3 (λ z. omega arith)
            ∙ start,
        λ t away. others2 t away.1.0 ∙ others1 t away,
      )

  -- The inode is written and read back, and the entries are found.
  store_root :
      (b : ℕ) (d : D)
      → b < 2 ^ 32
      → b ≢ 0
      → b ≢ 1
      → table_start r1 d ≡ 1
      → IsRootBlock (r1.sector d b)
      → (d' : D) × (update_inode disk 0 (root_inode b) d ≡ ok tt d')
        × (read_inode disk 1 0 d' ≡ ok (root_inode b) d')
        × ((name : List ℕ)
            → dir_lookup disk (root_inode b) name d'
              ≡ found disk (root_inode b) d' (search root_entries name 0))
        × (table_start r1 d' ≡ 1)
        × ((t : ℕ) → t ≢ 1 → r1.sector d' t ≡ r1.sector d t)
  unfolding words
  store_root b d word b≢0 b≢1 start block =
      let (d', run, written, others) =
        update_inode_lem (root_inode b) r1 d 0 (root_inode-IsInode b word) in
      let place : table_start r1 d + 0 ≡ 1 = omega arith in
      let frame : (t : ℕ) → t ≢ 1 → r1.sector d' t ≡ r1.sector d t =
        λ t away. others t (λ e. away (e ∙ place)) in
      let start' : table_start r1 d' ≡ table_start r1 d =
        ap (λ bytes. get_or (to_words bytes) 3 0) (frame 0 (λ z. omega arith)) in
      let entries =
        two-Entries (root_inode b) r1 refl b≢0 dot dots 0 0 d' refl (omega arith, omega arith, tt)
          (omega arith) (omega arith) (omega arith, omega arith, (omega arith, omega arith, tt))
          (omega arith) (omega arith) (frame b b≢1 ∙ block) in
      (
        d',
        run,
        read_inode_lem r1 d' 0 (omega arith)
            ∙ ap (λ n. ok (inode_in r1 d' (n + 0)) d') start'
            ∙ ap (λ i. ok i d') written,
        (λ name.
            dir_lookup_lem disk (root_inode b) d' root_entries name refl (omega arith) entries),
        start' ∙ start,
        frame,
      )

  -- On a disk without faults, whatever its device number, whose first inode is unused and which has
  -- a free block, mkfs makes the root directory without an error or a failed assertion: inode 0 is
  -- then a directory of that one block, and its entries are "." and "..", both with the number 0,
  -- as dir_lookup finds them, and no other name. The other blocks of the free list stay free,
  -- and no other sector changes but the superblock, where the inodes still start in block 1.
  pub make_root_lem :
      (b : ℕ) (free : List ℕ) (d : D)
      → table_start r1 d ≡ 1
      → is_unused (inode_in r1 d 1) ≡ true
      → b < 2 ^ 32
      → NotIn 1 (b ∷ free)
      → IsFreeList r1 d (b ∷ free)
      → (d' : D) × (make_root disk d ≡ ok tt d')
        × (read_inode disk 1 0 d' ≡ ok (root_inode b) d')
        × ((name : List ℕ)
            → dir_lookup disk (root_inode b) name d'
              ≡ found disk (root_inode b) d' (search root_entries name 0))
        × IsFreeList r1 d' free
        × (table_start r1 d' ≡ 1)
        × ((t : ℕ) → NotIn t (0 ∷ 1 ∷ b ∷ free) → r1.sector d' t ≡ r1.sector d t)
  unfolding make_root
  make_root_lem b free d start unused word apart list =
      let (nz, _) = list.distinct in
      let (d1, run1, others1) = alloc_root d start unused in
      let list1 = IsFreeList-frame r1 d d1 1 (b ∷ free) list (λ z. omega arith) apart others1 in
      let (d2, d3, run2, run3, block, list3, start3, others3) =
        add_entries b free d1 (start_frame d d1 (others1 0 (λ z. omega arith)) ∙ start) list1 in
      let (d4, run4, back, look, start4, others4) =
        store_root b d3 word (λ z. nz.0 (sym z)) (λ z. apart.0 (sym z)) start3 block in
      (
        d4,
        make_root_run disk b d d1 d2 d3 d4 run1 run2 run3 run4 back
            (look dot ∙ ap (found disk (root_inode b) d4) search-dot)
            (look dots ∙ ap (found disk (root_inode b) d4) search-dots),
        back,
        look,
        IsFreeList-frame r1 d3 d4 1 free list3 (λ z. omega arith) apart.1 others4,
        start4,
        λ t away. others4 t away.1.0 ∙ others3 t (away.0, away.1.1) ∙ others1 t away.1.0,
      )
