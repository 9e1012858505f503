-- ===== src/SimpleFs/Blocks.antt =====
-- The free list of lib/simple_fs/src/lib.rs: `alloc_block` and `free_block`. Word 4 of sector 0 is
-- the head; a block of the list holds the next block in word 0 and free blocks in the others.
use sprocket.Base.{
  ℕ, suc, ◌+◌, Bool, not, Option, none, some, List, [], ◌∷◌, ◌==◌, if◌then◌else◌, get_or, set, drop,
  replicate, length,
}
use sprocket.SimpleFs.Types.{
  Disk, Fs, exhausted_blocks, from_disk, pure, raise, ◌>>=◌, ◌>>◌, superblock_addr,
  unused_blockaddr, blocksize,
}
use sprocket.SimpleFs.Layout.{to_words, from_words}

-- `[0; 512]`
abbrev pub zero_block : List ℕ
zero_block = replicate blocksize 0

-- `struct SuperBlock`: the places of its fields among the words of sector 0
abbrev pub inode_start_word : ℕ
inode_start_word = 3

abbrev pub freelist_start_word : ℕ
freelist_start_word = 4

abbrev pub position : {A : Type 0} → (A → Bool) → List A → Option ℕ
position p [] = none
position p (x ∷ xs) =
    if p x then some 0 else elim (position p xs) [ none ↦ none | some i ↦ some (suc i) ]

abbrev pub rposition : (ℕ → Bool) → List ℕ → Option ℕ
rposition p [] = none
rposition p (x ∷ xs) = elim (rposition p xs) [
  | some i ↦ some (suc i)
  | none ↦ if p x then some 0 else none
]

module _ {D : Type 0} (disk : Disk D) (device : ℕ) where
  abbrev pub disk_read : List ℕ → ℕ → Fs D (List ℕ)
  disk_read buffer sector d = from_disk (disk.read buffer device sector d)

  abbrev pub disk_write : List ℕ → ℕ → Fs D ℕ
  disk_write buffer sector d = from_disk (disk.write buffer device sector d)

  -- the two arms of `alloc_block`
  unfoldable pub take_entry : (block : List ℕ) (head_addr index : ℕ) → Fs D ℕ
  unfolding to_words from_words
  take_entry block head_addr index =
      let freelist = to_words block in
      let new_blockno = get_or freelist (index + 1) 0 in
      do
        disk_write (from_words (set freelist (index + 1) unused_blockaddr)) head_addr
        disk_write zero_block new_blockno
        pure new_blockno

  unfoldable pub take_head : (block : List ℕ) (head_addr : ℕ) → Fs D ℕ
  unfolding to_words from_words
  take_head block head_addr =
      let new_head = get_or (to_words block) 0 0 in
      do
        sb_buf ← disk_read zero_block superblock_addr
        disk_write zero_block head_addr
        disk_write (from_words (set (to_words sb_buf) freelist_start_word new_head)) superblock_addr
        pure head_addr

  -- `match free_idx`
  unfoldable pub take_free : (block : List ℕ) (head_addr : ℕ) → Option ℕ → Fs D ℕ
  unfolding take_entry take_head
  take_free block head_addr (some index) = take_entry block head_addr index
  take_free block head_addr none = take_head block head_addr

  unfoldable pub alloc_block : Fs D ℕ
  unfolding to_words take_free
  alloc_block = do
    sb_buf ← disk_read zero_block superblock_addr
    let head_addr = get_or (to_words sb_buf) freelist_start_word 0
    if head_addr == unused_blockaddr then raise exhausted_blocks else (do
      block ← disk_read sb_buf head_addr
      take_free block head_addr
          (rposition (λ x. not (x == unused_blockaddr)) (drop 1 (to_words block))))

  unfoldable pub free_block : (blockno : ℕ) → Fs D (Unit {0})
  unfolding to_words from_words
  free_block blockno = do
    sb_buf ← disk_read zero_block superblock_addr
    let head_addr = get_or (to_words sb_buf) freelist_start_word 0
    let new_sb = from_words (set (to_words sb_buf) freelist_start_word blockno)
    if head_addr == unused_blockaddr
        then (do
          disk_write new_sb superblock_addr
          disk_write (from_words (replicate (length (to_words zero_block)) unused_blockaddr))
              blockno
          pure tt)
        else (do
          buffer ← disk_read zero_block head_addr
          let freeblock = to_words buffer
          elim (position (λ x. x == unused_blockaddr) (drop 1 freeblock)) [
            | some p ↦ (do
              disk_write (from_words (set freeblock (p + 1) blockno)) head_addr
              pure tt)
            | none ↦ (do
              disk_write new_sb superblock_addr
              disk_write
                  (from_words (head_addr ∷ replicate (length (drop 1 freeblock)) unused_blockaddr))
                  blockno
              pure tt)
          ])
