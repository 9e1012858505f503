-- ===== src/Mkfs.antt =====
-- lib/simple_fs/src/bin.rs: the program that formats a disk and copies files to it. The file on the
-- host that holds the disk is a disk of the interface; the bytes of a file that is copied are given.
pub mod FreeList
pub mod RootCalls
pub mod Root
pub mod Format
pub mod DiskFile
mod Examples
use sprocket.Base.{
  ℕ, zero, suc, ◌+◌, ◌-◌, ◌*◌, ◌/◌, ◌^◌, Bool, true, false, not, ◌&&◌, List, [], ◌∷◌, ◌++◌, ◌==◌,
  length, get_or, take, drop, replicate, if◌then◌else◌,
}
use sprocket.SimpleFs.Types.{
  ok, err, panic, Disk, Fs, pure, assert, ◌>>=◌, ◌>>◌, blocksize, num_inodes, superblock_addr,
  unused_blockaddr, root_dev, root_inum, dirname_size, ndirect, Inode, unused, file, directory,
  unused_inode,
}
use sprocket.SimpleFs.Layout.{from_words, to_words, inode_size}
use sprocket.SimpleFs.Blocks.{zero_block, free_block, disk_read, disk_write}
use sprocket.SimpleFs.Inodes.{alloc_inode, read_inode, update_inode}
use sprocket.SimpleFs.Files.{read, write}
use sprocket.SimpleFs.Dirs.{dir_add, dir_lookup, dirent_size}

-- size in blocks
abbrev pub fs_size : ℕ
fs_size = 1000

abbrev pub datablocks_start : ℕ
datablocks_start = 1 + num_inodes / (blocksize / inode_size)

-- the fields of `tmp_sb`, in the order of `struct SuperBlock`
abbrev pub tmp_sb : List ℕ
tmp_sb = 0 ∷ fs_size ∷ num_inodes ∷ 1 ∷ unused_blockaddr ∷ []

-- `buf` with the superblock at its start
unfoldable pub sb_block : List ℕ
unfolding from_words
sb_block = from_words tmp_sb ++ drop (4 * length tmp_sb) zero_block

-- the derived equality of superblocks
unfoldable pub same_words : List ℕ → List ℕ → Bool
same_words [] [] = true
same_words (x ∷ xs) (y ∷ ys) = (x == y) && same_words xs ys
same_words _ _ = false

-- the inode of a new file or directory
abbrev pub new_inode : Bool → Inode
new_inode is_dir = record {
  type_ = if is_dir then directory else file;
  device = root_dev;
  major = 0;
  minor = 0;
  size = 0;
  blocks = replicate ndirect 0;
}

abbrev pub same_type : Inode → Inode → Bool
same_type i j = elim i.type_ [
  | unused ↦ elim j.type_ [ unused ↦ true | _ ↦ false ]
  | file ↦ elim j.type_ [ file ↦ true | _ ↦ false ]
  | directory ↦ elim j.type_ [ directory ↦ true | _ ↦ false ]
]

module _ {D : Type 0} where
  -- `Result::unwrap`
  abbrev pub unwrap : {A : Type 0} → Fs D A → Fs D A
  unwrap m d = elim (m d) [ ok a d' ↦ ok a d' | err e d' ↦ panic | panic ↦ panic ]

  -- a call that changes an inode of its caller, which is returned
  abbrev pub with_inode : {A : Type 0} → Inode → Fs (Inode × D) A → Fs D Inode
  with_inode inode m d = elim (m (inode, d)) [
    | ok a (inode', d') ↦ ok inode' d'
    | err e (inode', d') ↦ err e d'
    | panic ↦ panic
  ]

module _ {D : Type 0} (disk : Disk D) where
  -- the first loop of `mkfs`, from the inode `i` on
  unfoldable pub clear_inodes : (i left : ℕ) → Fs D (Unit {0})
  unfolding update_inode
  clear_inodes i zero = pure tt
  clear_inodes i (suc left) = do update_inode disk i unused_inode; clear_inodes (i + 1) left

  -- `sb2` is copied out of the buffer before the superblock is read back into it.
  unfoldable pub write_superblock : Fs D (Unit {0})
  unfolding sb_block to_words same_words
  write_superblock = do
    disk_write disk 0 sb_block superblock_addr
    let sb2 = to_words (take (4 * length tmp_sb) sb_block)
    disk_read disk 0 sb_block superblock_addr
    assert (same_words sb2 tmp_sb)

  -- the loop of `mkfs` over the data blocks, from `blockno` on
  unfoldable pub free_blocks : (blockno left : ℕ) → Fs D (Unit {0})
  unfolding free_block
  free_blocks blockno zero = pure tt
  free_blocks blockno (suc left) = do
    unwrap (free_block disk 0 blockno)
    free_blocks (blockno + 1) left

  -- the superblock and the free list
  unfoldable pub make_freelist : Fs D (Unit {0})
  unfolding write_superblock free_blocks
  make_freelist = do write_superblock; free_blocks datablocks_start (fs_size - datablocks_start)

  -- the root directory
  unfoldable pub make_root : Fs D (Unit {0})
  unfolding alloc_inode dir_add dir_lookup update_inode read_inode
  make_root = do
    inum ← alloc_inode disk 0 (new_inode true)
    assert (inum == root_inum)
    inode1 ← with_inode (new_inode true) (dir_add disk (b'.' ∷ []) root_inum)
    assert (inode1.size == dirent_size)
    inode ← with_inode inode1 (dir_add disk (b'.' ∷ b'.' ∷ []) root_inum)
    assert (inode.size == 2 * dirent_size)
    update_inode disk root_inum inode
    inum2 ← read_inode disk root_dev root_inum
    assert (same_type inode inum2)
    assert (inode.size == inum2.size)
    assert (get_or inode.blocks 0 0 == get_or inum2.blocks 0 0)
    (inumber1, offset1) ← unwrap (dir_lookup disk inode (b'.' ∷ []))
    assert ((inumber1 == 0) && (offset1 == 0))
    (inumber2, offset2) ← unwrap (dir_lookup disk inode (b'.' ∷ b'.' ∷ []))
    assert ((inumber2 == 0) && (offset2 == dirent_size))

  unfoldable pub mkfs : Fs D (Unit {0})
  unfolding clear_inodes make_freelist make_root
  mkfs = do clear_inodes 0 num_inodes; make_freelist; make_root

  -- the loop of `write_file` over the bytes, from the offset `i` on
  unfoldable pub check_bytes : Inode → (bytes : List ℕ) → (i : ℕ) → Fs D (Unit {0})
  unfolding read
  check_bytes inode [] i = pure tt
  check_bytes inode (b ∷ bytes) i = do
    (b2, count) ← unwrap (read disk inode (0 ∷ []) i)
    assert (get_or b2 0 0 == b)
    check_bytes inode bytes (i + 1)

  -- `buf` is what the file on the host holds, and `path` its name in bytes. The vector `buf2` has a
  -- capacity, but its length is zero.
  unfoldable pub write_file : (path buf : List ℕ) → Fs D (Unit {0})
  unfolding alloc_inode write update_inode read_inode check_bytes dir_add
  write_file path buf = do
    inum ← unwrap (alloc_inode disk root_dev (new_inode false))
    assert (not (inum == root_inum))
    inode ← unwrap (with_inode (new_inode false) (write disk buf 0))
    unwrap (update_inode disk inum inode)
    stored ← unwrap (read_inode disk root_dev inum)
    unwrap (read disk stored [] 0)
    assert (length buf == stored.size)
    check_bytes stored buf 0
    root ← unwrap (read_inode disk root_dev root_inum)
    root' ← unwrap (with_inode root (dir_add disk (take dirname_size path) inum))
    update_inode disk root_inum root'
