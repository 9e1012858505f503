-- ===== src/SimpleFs/Examples.antt =====
-- The theorems of the free list and of the inodes at a disk in memory.
use sprocket.Base.{
  ℕ, ◌^◌, ◌≡◌, ◌≢◌, refl, some, List, [], ◌∷◌, ◌++◌, ◌==◌, if◌then◌else◌, arith, replicate,
}
use sprocket.SimpleFs.Types.{ok, err, directory, entry_exists, not_found, ◌>>◌, Inode, file}
use sprocket.SimpleFs.Layout.{IsInode, replicate-AllBelow, to_words}
use sprocket.SimpleFs.Blocks.{zero_block, alloc_block, free_block}
use sprocket.SimpleFs.Reliable.{words}
use sprocket.SimpleFs.FreeList.{NotIn, stored}
use sprocket.SimpleFs.AllocBlock.{IsFreeList, SameFields, alloc_block-pop}
use sprocket.SimpleFs.FreeBlock.{free_block-push}
use sprocket.SimpleFs.Inodes.{alloc_inode}
use sprocket.SimpleFs.InodeTable.{inode_in}
use sprocket.SimpleFs.AllocInode.{Allocated, table, alloc_inode_lem}
use sprocket.SimpleFs.RoundTrip.{free_block-alloc_block}
use sprocket.SimpleFs.Dirs.{dir_add, dir_lookup}
use sprocket.SimpleFs.DirAdd.{dir_add-dir_lookup}
use sprocket.SimpleFs.MemoryDisk.{Store, memory_disk, memory_reliable, stored_sector}

-- Block 3 is the head of the free list, and 5 and 7 are its entries.
abbrev three_free : Store
three_free s =
    if s == 0
    then replicate 16 0 ++ 3 ∷ []
    else if s == 3
    then replicate 4 0 ++ 5 ∷ 0 ∷ 0 ∷ 0 ∷ 7 ∷ []
    else []

three_free-IsFreeList : IsFreeList memory_reliable three_free (7 ∷ 5 ∷ 3 ∷ [])
unfolding words to_words stored
three_free-IsFreeList = record {
  groups = (3, 7 ∷ 5 ∷ []) ∷ [];
  starts = (refl, (125, 0, refl, refl));
  lists = refl;
  distinct = ground arith;
}

none-IsFreeList : IsFreeList memory_reliable (λ s. []) []
unfolding words to_words
none-IsFreeList = record { groups = []; starts = refl; lists = refl; distinct = (tt, tt) }

alloc_block-pop_example :
    (d' : Store) × (alloc_block memory_disk 1 three_free ≡ ok 7 d')
    × (stored_sector d' 7 ≡ zero_block)
    × IsFreeList memory_reliable d' (5 ∷ 3 ∷ [])
    × SameFields memory_reliable d' three_free
    × ((t : ℕ) → NotIn t (0 ∷ 7 ∷ 5 ∷ 3 ∷ []) → stored_sector d' t ≡ stored_sector three_free t)
alloc_block-pop_example =
    alloc_block-pop memory_reliable three_free 7 (5 ∷ 3 ∷ []) three_free-IsFreeList

free_block-push_example :
    (d' : Store) × (free_block memory_disk 1 9 three_free ≡ ok tt d')
    × IsFreeList memory_reliable d' (9 ∷ 7 ∷ 5 ∷ 3 ∷ [])
    × SameFields memory_reliable d' three_free
    × ((t : ℕ) → NotIn t (0 ∷ 9 ∷ 7 ∷ 5 ∷ 3 ∷ []) → stored_sector d' t ≡ stored_sector three_free t)
free_block-push_example =
    free_block-push memory_reliable three_free 9 (7 ∷ 5 ∷ 3 ∷ []) three_free-IsFreeList
      (ground arith) (omega arith)

free_block-alloc_block_example :
    (d' : Store) × ((free_block memory_disk 1 9 >> alloc_block memory_disk 1) three_free ≡ ok 9 d')
    × (stored_sector d' 9 ≡ zero_block)
    × IsFreeList memory_reliable d' (7 ∷ 5 ∷ 3 ∷ [])
    × ((t : ℕ) → NotIn t (0 ∷ 9 ∷ 7 ∷ 5 ∷ 3 ∷ []) → stored_sector d' t ≡ stored_sector three_free t)
free_block-alloc_block_example =
    free_block-alloc_block memory_reliable three_free 9 (7 ∷ 5 ∷ 3 ∷ []) three_free-IsFreeList
      (ground arith) (omega arith)

abbrev new_dir : Inode
new_dir = record {
  type_ = directory;
  device = 1;
  major = 0;
  minor = 0;
  size = 0;
  blocks = replicate 64 0;
}

abbrev one_entry : Inode
one_entry = record new_dir { size = 260; blocks = 7 ∷ replicate 63 0 }

dir_add-dir_lookup_example :
    (d' : Store) × (dir_add memory_disk (b'a' ∷ b'b' ∷ []) 5 (new_dir, three_free)
      ≡ ok tt (one_entry, d'))
    × (dir_lookup memory_disk one_entry (b'a' ∷ b'b' ∷ []) d' ≡ ok (5, 0) d')
    × ((other : List ℕ)
        → other ≢ b'a' ∷ b'b' ∷ []
        → dir_lookup memory_disk one_entry other d' ≡ err not_found d')
    × ((again : ℕ)
        → dir_add memory_disk (b'a' ∷ b'b' ∷ []) again (one_entry, d')
          ≡ err entry_exists (one_entry, d'))
    × IsFreeList memory_reliable d' (5 ∷ 3 ∷ [])
    × ((t : ℕ) → NotIn t (0 ∷ 7 ∷ 5 ∷ 3 ∷ []) → stored_sector d' t ≡ stored_sector three_free t)
dir_add-dir_lookup_example =
    dir_add-dir_lookup new_dir memory_reliable (b'a' ∷ b'b' ∷ []) 5 7 (5 ∷ 3 ∷ []) three_free refl
      refl (omega arith) refl (omega arith, omega arith, (omega arith, omega arith, tt))
      (omega arith) (omega arith) three_free-IsFreeList

-- The table of inodes starts in block 1, and no inode is in use.
abbrev no_inodes : Store
no_inodes s = if s == 0 then replicate 12 0 ++ 1 ∷ [] else []

abbrev small_file : Inode
small_file = record {
  type_ = file;
  device = 1;
  major = 0;
  minor = 0;
  size = 100;
  blocks = 90 ∷ replicate 63 0;
}

small_file-IsInode : IsInode small_file
small_file-IsInode = record {
  device_fits = omega arith;
  major_fits = omega arith;
  minor_fits = omega arith;
  size_fits = omega arith;
  blocks_fit = (omega arith, replicate-AllBelow (2 ^ 32) 63 (omega arith));
  all_blocks = refl;
}

alloc_inode_lem_example :
    Allocated memory_reliable
      (some 0)
      (alloc_inode memory_disk 1 small_file no_inodes)
      256
      1
      small_file
      no_inodes
unfolding table inode_in words to_words
alloc_inode_lem_example =
    alloc_inode_lem memory_reliable small_file no_inodes small_file-IsInode refl
