-- ===== src/SimpleFs/Files.antt =====
-- The contents of files in lib/simple_fs/src/lib.rs: `bmap`, `bmap_or_alloc`, `read`, `write`.
-- An inode that the code borrows mutably is part of the state.
use sprocket.Base.{
  ℕ, zero, suc, ◌+◌, ◌-◌, ◌*◌, ◌/◌, ◌%◌, ◌||◌, List, [], ◌∷◌, ◌++◌, ◌==◌, leb, ltb, if◌then◌else◌,
  get_or, set, take, drop, length, u32, min,
}
use sprocket.SimpleFs.Types.{
  ok, err, panic, Disk, Fs, block_not_mapped, read_too_large, write_too_large, type_mismatch, pure,
  raise, assert, ◌>>=◌, ◌>>◌, blocksize, unused_blockaddr, maxfile, Inode,
}
use sprocket.SimpleFs.Blocks.{zero_block, disk_read, disk_write, alloc_block}
use sprocket.SimpleFs.Inodes.{is_unused}

-- `for (to, from) in buffer.iter_mut().zip(bytes) { *to = *from; }`
unfoldable pub overwrite : (buffer bytes : List ℕ) → List ℕ
overwrite [] bytes = []
overwrite (b ∷ buffer) [] = b ∷ buffer
overwrite (b ∷ buffer) (x ∷ bytes) = x ∷ overwrite buffer bytes

-- `bytes.chunks(BLOCKSIZE)`, of as many chunks as the first argument allows
unfoldable pub chunks : ℕ → List ℕ → List (List ℕ)
chunks zero bytes = []
chunks (suc n) [] = []
chunks (suc n) (b ∷ bytes) = take blocksize (b ∷ bytes) ∷ chunks n (drop blocksize (b ∷ bytes))

abbrev pub block_chunks : List ℕ → List (List ℕ)
block_chunks bytes = chunks (length bytes) bytes

module _ {D : Type 0} (disk : Disk D) where
  unfoldable pub bmap : Inode → (blockno : ℕ) → Fs D ℕ
  bmap inode blockno = do
    assert (ltb blockno (length inode.blocks))
    let addr = get_or inode.blocks blockno 0
    if addr == unused_blockaddr then raise (block_not_mapped blockno) else pure addr

  -- the loop over the blocks after the first one
  unfoldable pub read_chunks : Inode → List (List ℕ) → (offset : ℕ) → Fs D (List ℕ)
  unfolding bmap
  read_chunks inode [] offset = pure []
  read_chunks inode (chunk ∷ rest) offset = do
    blockaddr ← bmap inode (offset / blocksize)
    filled ← disk_read disk inode.device chunk blockaddr
    others ← read_chunks inode rest (offset + length chunk)
    pure (filled ++ others)

  -- `read` from its early return on: the first block is copied, and `next` is the offset after it.
  unfoldable pub read_rest : Inode → (short_buf untouched : List ℕ) → (next : ℕ) → Fs D (List ℕ × ℕ)
  unfolding chunks read_chunks
  read_rest inode short_buf untouched next =
      let start = blocksize + next % blocksize in
      if leb (length short_buf) next then pure (short_buf ++ untouched, length short_buf) else (do
        assert (leb start (length short_buf))
        others ← read_chunks inode (block_chunks (drop start short_buf)) next
        pure (take start short_buf ++ others ++ untouched, length short_buf))

  -- The buffer comes back with the number of bytes.
  unfoldable pub read : Inode → (dst_buf : List ℕ) → (offset : ℕ) → Fs D (List ℕ × ℕ)
  unfolding bmap overwrite read_rest
  read inode dst_buf offset =
      let full = u32 (length dst_buf) in
      let len = if ltb inode.size (offset + full) then inode.size - offset else full in
      let short_buf = take len dst_buf in
      let skipped = offset % blocksize in
      if is_unused inode
      then raise type_mismatch
      else if ltb inode.size offset || ltb (u32 (offset + full)) offset
      then raise read_too_large
      else (do
        blockaddr ← bmap inode (offset / blocksize)
        tmp_buf ← disk_read disk inode.device zero_block blockaddr
        let bytes = drop skipped tmp_buf
        read_rest inode (overwrite short_buf bytes) (drop len dst_buf) (offset + length bytes))

  -- code that does not touch the borrowed inode
  abbrev pub on_disk : {A : Type 0} → Fs D A → Fs (Inode × D) A
  on_disk m (inode, d) = elim (m d) [
    | ok a d' ↦ ok a (inode, d')
    | err e d' ↦ err e (inode, d')
    | panic ↦ panic
  ]

  abbrev pub get_inode : Fs (Inode × D) Inode
  get_inode (inode, d) = ok inode (inode, d)

  abbrev pub put_inode : Inode → Fs (Inode × D) (Unit {0})
  put_inode inode (_, d) = ok tt (inode, d)

  unfoldable pub bmap_or_alloc : (blockno : ℕ) → Fs (Inode × D) ℕ
  unfolding alloc_block
  bmap_or_alloc blockno = do
    inode ← get_inode
    assert (ltb blockno (length inode.blocks))
    let addr = get_or inode.blocks blockno 0
    if addr == unused_blockaddr
        then (do
          new ← on_disk (alloc_block disk inode.device)
          put_inode (record inode { blocks = set inode.blocks blockno new })
          pure new)
        else pure addr

  unfoldable pub write_chunks : List (List ℕ) → (offset : ℕ) → Fs (Inode × D) ℕ
  unfolding bmap_or_alloc
  write_chunks [] offset = pure offset
  write_chunks (chunk ∷ rest) offset = do
    blockaddr ← bmap_or_alloc (offset / blocksize)
    inode ← get_inode
    written ← on_disk (disk_write disk inode.device chunk blockaddr)
    write_chunks rest (offset + written)

  -- the first block, kept outside of what is written: how many bytes the disk took
  unfoldable pub write_first : (src_buf : List ℕ) (offset blockaddr : ℕ) → Inode → Fs D ℕ
  unfolding overwrite
  write_first src_buf offset blockaddr inode =
      let start = offset % blocksize in
      if start == 0
      then disk_write disk inode.device (take (min blocksize (length src_buf)) src_buf) blockaddr
      else (do
        tmp_buf ← disk_read disk inode.device zero_block blockaddr
        disk_write disk inode.device (take start tmp_buf ++ overwrite (drop start tmp_buf) src_buf)
            blockaddr)

  -- `write` from its early return on: `next` is the offset after the first block.
  unfoldable pub write_rest : (src_buf : List ℕ) → (len next : ℕ) → Fs (Inode × D) ℕ
  unfolding chunks write_chunks
  write_rest src_buf len next = do
    mapped ← get_inode
    if leb (length src_buf) next
        then (do
          put_inode (
              if ltb mapped.size next
              then record mapped { size = mapped.size + length src_buf }
              else mapped)
          pure (length src_buf))
        else (do
          end ← write_chunks (block_chunks (drop next src_buf)) next
          grown ← get_inode
          put_inode (if ltb grown.size end then record grown { size = end } else grown)
          pure len)

  unfoldable pub write : (src_buf : List ℕ) → (offset : ℕ) → Fs (Inode × D) ℕ
  unfolding bmap_or_alloc write_first write_rest
  write src_buf offset = do
    inode ← get_inode
    let len = u32 (length src_buf)
    if is_unused inode
        then raise type_mismatch
        else if ltb (u32 (offset + len)) offset || ltb inode.size offset
        then raise write_too_large
        else if ltb (maxfile * blocksize) (len + offset)
        then raise write_too_large
        else (do
          blockaddr ← bmap_or_alloc (offset / blocksize)
          mapped ← get_inode
          written ← on_disk (write_first src_buf offset blockaddr mapped)
          write_rest src_buf len (offset + written))
