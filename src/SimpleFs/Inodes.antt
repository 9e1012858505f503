-- ===== src/SimpleFs/Inodes.antt =====
-- The list of inodes of lib/simple_fs/src/lib.rs: `alloc_inode`, `read_inode`, `update_inode`.
use sprocket.Base.{
  ℕ, zero, suc, ◌+◌, ◌-◌, ◌*◌, ◌/◌, ◌%◌, Bool, true, false, not, none, some, List, [], ◌∷◌, leb,
  get_or, take, drop,
}
use sprocket.SimpleFs.Types.{
  Disk, Fs, exhausted_inodes, pure, raise, assert, ◌>>=◌, ◌>>◌, superblock_addr, num_inodes, Inode,
  unused, file, directory, unused_inode,
}
use sprocket.SimpleFs.Layout.{
  to_words, from_words, splice, inode_size, inodes_per_block, inode_words, words_inode,
}
use sprocket.SimpleFs.Blocks.{zero_block, inode_start_word, position, disk_read, disk_write}

abbrev pub is_unused : Inode → Bool
is_unused i = elim i.type_ [ unused ↦ true | file ↦ false | directory ↦ false ]

-- The first `count` inodes of a block, as the cast to `&mut [Inode]` shows them.
unfoldable pub inodes : (count : ℕ) → List ℕ → List Inode
unfolding to_words words_inode
inodes zero block = []
inodes (suc n) block =
    words_inode (to_words (take inode_size block)) ∷ inodes n (drop inode_size block)

unfoldable pub set_inode : List ℕ → ℕ → Inode → List ℕ
unfolding from_words inode_words
set_inode block index inode = splice (index * inode_size) (from_words (inode_words inode)) block

-- `IBLOCK!`
abbrev pub inode_block : (inum inode_start : ℕ) → ℕ
inode_block inum inode_start = inode_start + inum / inodes_per_block

module _ {D : Type 0} (disk : Disk D) where
  -- the loop of `alloc_inode` over the blocks from `blockno` on
  unfoldable pub alloc_in_blocks :
      (count : ℕ) (device blockno inode_start : ℕ) (block : List ℕ) → Inode → Fs D ℕ
  unfolding inodes set_inode
  alloc_in_blocks zero device blockno inode_start block inode = raise exhausted_inodes
  alloc_in_blocks (suc n) device blockno inode_start block inode = do
    filled ← disk_read disk device block blockno
    elim (position is_unused (inodes inodes_per_block filled)) [
      | some i ↦ (do
        disk_write disk device (set_inode filled i inode) blockno
        pure ((blockno - inode_start) * inodes_per_block + i))
      | none ↦ alloc_in_blocks n device (suc blockno) inode_start filled inode
    ]

  unfoldable pub alloc_inode : (device : ℕ) → Inode → Fs D ℕ
  unfolding to_words alloc_in_blocks
  alloc_inode device inode = do
    assert (not (is_unused inode))
    sb_buf ← disk_read disk device zero_block superblock_addr
    let inode_start = get_or (to_words sb_buf) inode_start_word 0
    alloc_in_blocks (num_inodes / inodes_per_block + 1 - inode_start) device inode_start inode_start
        zero_block inode

  unfoldable pub read_inode : (device inum : ℕ) → Fs D Inode
  unfolding to_words inodes
  read_inode device inum = do
    assert (leb inum num_inodes)
    sb_buf ← disk_read disk device zero_block superblock_addr
    let inode_start = get_or (to_words sb_buf) inode_start_word 0
    buf ← disk_read disk device zero_block (inode_block inum inode_start)
    pure (get_or (inodes inodes_per_block buf) (inum % inodes_per_block) unused_inode)

  unfoldable pub update_inode : (inum : ℕ) → Inode → Fs D (Unit {0})
  unfolding to_words set_inode
  update_inode inum inode = do
    sb_buf ← disk_read disk inode.device zero_block superblock_addr
    let inode_start = get_or (to_words sb_buf) inode_start_word 0
    buf ← disk_read disk inode.device zero_block (inode_block inum inode_start)
    disk_write disk inode.device (set_inode buf (inum % inodes_per_block) inode)
        (inode_block inum inode_start)
    pure tt
