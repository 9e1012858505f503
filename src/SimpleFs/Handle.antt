-- ===== src/SimpleFs/Handle.antt =====
-- src/file.rs: handles of open files over the file system. The shared file system is the disk.
use sprocket.Base.{ℕ, ◌+◌, List, length, u32}
use sprocket.SimpleFs.Types.{ok, err, panic, Disk, Fs, pure, ◌>>=◌, root_dev, Inode}
use sprocket.SimpleFs.Inodes.{read_inode}
use sprocket.SimpleFs.Files.{read}
use sprocket.SimpleFs.Dirs.{namex}

-- `struct SimpleFile`, less its reference to the file system
pub record SimpleFile : Type 0 where
  pub inum : ℕ
  pub inode : Inode
  pub offset : ℕ

-- `Result::unwrap`
abbrev pub unwrap : {D A : Type 0} → Fs D A → Fs D A
unwrap m d = elim (m d) [ ok a d' ↦ ok a d' | err e d' ↦ panic | panic ↦ panic ]

module _ {D : Type 0} (disk : Disk D) where
  unfoldable pub open_file : (path name : List ℕ) → Fs D SimpleFile
  unfolding namex read_inode
  open_file path name = do
    inum ← unwrap (namex disk path name)
    inode ← unwrap (read_inode disk root_dev inum)
    pure (record { inum = inum; inode = inode; offset = 0 })

  -- the filled buffer and the moved handle
  unfoldable pub read_file : SimpleFile → (buffer : List ℕ) → Fs D (List ℕ × SimpleFile)
  unfolding read
  read_file f buffer = do
    (filled, count) ← unwrap (read disk f.inode buffer (u32 f.offset))
    pure (filled, record f { offset = u32 (f.offset + length buffer) })

  -- not implemented in the source
  unfoldable pub write_file : SimpleFile → (buffer : List ℕ) → Fs D SimpleFile
  write_file f buffer = λ _. panic

abbrev pub seek_absolute : SimpleFile → (offset : ℕ) → SimpleFile
seek_absolute f offset = record f { offset = offset }

abbrev pub size : SimpleFile → ℕ
size f = f.inode.size
