-- ===== src/Service/Whole.antt =====
-- A file that src/service/mod.rs reads whole, through src/file.rs and lib/simple_fs/src/lib.rs.
use sprocket.Base.{
  ℕ, ◌+◌, ◌*◌, ◌^◌, ◌≤◌, ◌<◌, ◌≡◌, refl, ap, ◌∙◌, some, List, [], ◌∷◌, ◌++◌, arith, length, take,
  drop, replicate, drop_past, length-replicate, false,
}
use mathlib.Core.List.{append-nil}
use sprocket.SimpleFs.Types.{Disk, Fs, ok, bind_ok, Inode, directory}
use sprocket.SimpleFs.Inodes.{is_unused, read_inode}
use sprocket.SimpleFs.Files.{read}
use sprocket.SimpleFs.Reliable.{Reliable}
use sprocket.SimpleFs.InodeTable.{inode_in, table_start, read_inode_lem}
use sprocket.SimpleFs.ReadFile.{contents, Mapped}
use sprocket.SimpleFs.ReadResults.{read_start}
use sprocket.SimpleFs.Dirs.{DirEntry, dirent_size, dir_lookup, namex}
use sprocket.SimpleFs.DirLookup.{Entries, search, found, dir_lookup_lem}
use sprocket.SimpleFs.Handle.{unwrap, open_file, read_file}
use sprocket.Service.Files.{read_whole}

unwrap_lem : {D A : Type 0} (m : Fs D A) {a : A} {d d' : D} → m d ≡ ok a d' → unwrap m d ≡ ok a d'
unwrap_lem m e = rw (unwrap, e) refl

module _ {D : Type 0} {disk : Disk D} (r : Reliable disk 1) (d : D) (root : Inode) where
  -- A name is looked up in the root directory.
  namex_lem :
      (es : List DirEntry) (name : List ℕ) (inum offset : ℕ)
      → inode_in r d (table_start r d + 0) ≡ root
      → root.type_ ≡ directory
      → root.size ≡ dirent_size * length es
      → Entries disk root d 0 es
      → search es name 0 ≡ some (inum, offset)
      → namex disk (b'/' ∷ []) name d ≡ ok inum d
  unfolding namex
  namex_lem es name inum offset stored kind size entries hit =
      bind_ok (read_inode disk 1 0) _ (read_inode_lem r d 0 (omega arith) ∙ ap (λ i. ok i d) stored)
        (bind_ok (dir_lookup disk root name) _
          (dir_lookup_lem disk root d es name kind size entries ∙ ap (found disk root d) hit) refl)

  -- The handle of a file that the root directory names.
  open_file_lem :
      (es : List DirEntry) (name : List ℕ) (inum offset : ℕ) (file : Inode)
      → inode_in r d (table_start r d + 0) ≡ root
      → root.type_ ≡ directory
      → root.size ≡ dirent_size * length es
      → Entries disk root d 0 es
      → search es name 0 ≡ some (inum, offset)
      → inum ≤ 256
      → inode_in r d (table_start r d + inum) ≡ file
      → open_file disk (b'/' ∷ []) name d ≡ ok (record { inum = inum; inode = file; offset = 0 }) d
  unfolding open_file
  open_file_lem es name inum offset file stored kind size entries hit low here =
      bind_ok (unwrap (namex disk (b'/' ∷ []) name)) _
        (unwrap_lem (namex disk (b'/' ∷ []) name)
          (namex_lem es name inum offset stored kind size entries hit))
        (bind_ok (unwrap (read_inode disk 1 inum)) _
          (unwrap_lem (read_inode disk 1 inum)
            (read_inode_lem r d inum low ∙ ap (λ i. ok i d) here))
          refl)

  -- On a disk without faults, a file that an entry of the root directory names is read whole: the
  -- bytes of its blocks in order, as many as its size says. The entries of the directory can be
  -- read, the file is not empty, and its blocks are mapped.
  pub read_whole-contents :
      (es : List DirEntry) (name : List ℕ) (inum offset : ℕ) (file : Inode)
      (reliable : Reliable disk file.device)
      → inode_in r d (table_start r d + 0) ≡ root
      → root.type_ ≡ directory
      → root.size ≡ dirent_size * length es
      → Entries disk root d 0 es
      → search es name 0 ≡ some (inum, offset)
      → inum ≤ 256
      → inode_in r d (table_start r d + inum) ≡ file
      → is_unused file ≡ false
      → 0 < file.size
      → file.size < 2 ^ 32
      → Mapped file reliable 0 file.size
      → read_whole disk name d ≡ ok (take file.size (contents file reliable d file.blocks)) d
  unfolding read_whole read_file
  read_whole-contents es name inum offset file reliable stored kind size entries hit low here typed
        pos word mapped =
      let buffer : List ℕ = replicate file.size 0 in
      let len : length buffer ≡ file.size = length-replicate {A = ℕ} file.size 0 in
      let bytes = take file.size (contents file reliable d file.blocks) in
      let full : bytes ++ drop file.size buffer ≡ bytes =
        ap (λ ys. bytes ++ ys) (drop_past file.size buffer (omega arith)) ∙ append-nil bytes in
      bind_ok (open_file disk (b'/' ∷ []) name) _
        (open_file_lem es name inum offset file stored kind size entries hit low here)
        (bind_ok (read_file disk (record { inum = inum; inode = file; offset = 0 }) buffer) _
          (bind_ok (unwrap (read disk file buffer 0)) _
            (unwrap_lem (read disk file buffer 0) (
              read_start file reliable buffer file.size d typed (omega arith) (omega arith) pos
                mapped))
            refl)
          (ap (λ xs. ok xs d) full))
