-- ===== src/SimpleFs/DirAdd.antt =====
-- `dir_add` and then `dir_lookup` of lib/simple_fs/src/lib.rs, in a directory without entries.
use sprocket.Base.{
  ℕ, ◌+◌, ◌^◌, ◌≤◌, ◌<◌, ◌≡◌, ◌≢◌, refl, sym, ap, ◌∙◌, some, List, [], ◌∷◌, ◌++◌, ◌==◌, arith,
  length, get_or, drop, replicate, set, get_or-set_self, false,
}
use sprocket.SimpleFs.Types.{
  Disk, ok, err, not_found, entry_exists, then_ok, pure, dirname_size, unused_inum, Inode,
  directory,
}
use sprocket.SimpleFs.Layout.{AllBelow, to_words}
use sprocket.SimpleFs.Inodes.{is_unused}
use sprocket.SimpleFs.Files.{read, write}
use sprocket.SimpleFs.Reliable.{Reliable, words}
use sprocket.SimpleFs.WriteFile.{grown, write-one_block}
use sprocket.SimpleFs.FreeList.{NotIn}
use sprocket.SimpleFs.AllocBlock.{IsFreeList, SameFields, alloc_block-pop}
use sprocket.SimpleFs.WriteNew.{IsFreeList-frame, with_first, write_new}
use sprocket.SimpleFs.WriteRead.{read_back}
use sprocket.SimpleFs.Dirs.{DirEntry, dirent_size, dirent_bytes, dir_lookup, dir_add}
use sprocket.SimpleFs.DirEntries.{
  IsName, new_entry, is_named_self, is_named_other, length-dirent_bytes, dirent_bytes-AllBelow,
  bytes_dirent-dirent_bytes,
}
use sprocket.SimpleFs.DirLookup.{
  search, slot, Entries, found, dir_lookup_lem, dir_add_lem, dir_add_refused,
}

-- A new entry is the first one with its name, and is passed over for every other name.
module _ (name : List ℕ) (target : ℕ) (legal : IsName name) (fits : length name ≤ dirname_size)
    (small : target < unused_inum) (es : List DirEntry) (offset : ℕ) where
  pub in_use : (target == unused_inum) ≡ false
  in_use = ground (arith, small)

  pub search-new_entry : search (new_entry name target ∷ es) name offset ≡ some (target, offset)
  unfolding search
  search-new_entry = rw (in_use, is_named_self name target legal fits) refl

  pub search_other :
      (other : List ℕ)
      → other ≢ name
      → search (new_entry name target ∷ es) other offset ≡ search es other (offset + dirent_size)
  unfolding search
  search_other other differ = rw (in_use, is_named_other name target legal fits other differ) refl

module _ {D : Type 0} {disk : Disk D} (dir : Inode) (reliable : Reliable disk dir.device)
    (kind : dir.type_ ≡ directory) (mapped : get_or dir.blocks 0 0 ≢ 0) where
  pub typed : is_unused dir ≡ false
  typed = rw kind refl

  -- The entry at the start of the first block is what is read at offset 0.
  pub read_first_entry :
      (bytes rest : List ℕ) (d : D)
      → length bytes ≡ dirent_size
      → dirent_size ≤ dir.size
      → reliable.sector d (get_or dir.blocks 0 0) ≡ bytes ++ rest
      → read disk dir (replicate dirent_size 0) 0 d ≡ ok (bytes, dirent_size) d
  read_first_entry bytes rest d size enough block =
      read_back dir reliable bytes (replicate dirent_size 0) rest dir.size d typed (omega arith)
        (omega arith) (omega arith) (sym size) mapped block
      ∙ ap (λ n. ok (bytes, n) d) size

  -- The first entry of a directory whose first block is mapped.
  write_entry :
      (bytes : List ℕ) (d : D)
      → dir.size ≡ 0
      → length bytes ≡ dirent_size
      → AllBelow (2 ^ 8) bytes
      → (d' : D) × (write disk bytes 0 (dir, d)
          ≡ ok dirent_size (record dir { size = dirent_size }, d'))
        × (reliable.sector d' (get_or dir.blocks 0 0)
            ≡ bytes ++ drop (0 + length bytes) (reliable.sector d (get_or dir.blocks 0 0)))
        × ((t : ℕ) → t ≢ get_or dir.blocks 0 0 → reliable.sector d' t ≡ reliable.sector d t)
  write_entry bytes d empty size below =
      let (d', run, here, there) =
        write-one_block dir reliable bytes 0 d typed below (omega arith) (omega arith) (omega arith)
          mapped in
      let new_size : grown dir reliable 0 (length bytes) ≡ record dir { size = dirent_size } =
        rw (empty, size) refl in
      (
        d',
        run
            ∙ ap (λ i. ok (length bytes) (i, d')) new_size
            ∙ ap (λ n. ok n (record dir { size = dirent_size }, d')) size,
        here,
        there,
      )

module _ {D : Type 0} {disk : Disk D} (dir : Inode) (reliable : Reliable disk dir.device) where
  -- The directory after its first entry, which lies in this block.
  abbrev pub with_first_entry : (b : ℕ) → Inode
  with_first_entry b = record dir { size = dirent_size; blocks = set dir.blocks 0 b }

  -- `dir_add` in a directory without entries and blocks.
  pub dir_add_first :
      (name : List ℕ) (target b : ℕ) (free : List ℕ) (d : D)
      → dir.type_ ≡ directory
      → dir.size ≡ 0
      → 0 < length dir.blocks
      → get_or dir.blocks 0 0 ≡ 0
      → IsName name
      → length name ≤ dirname_size
      → IsFreeList reliable d (b ∷ free)
      → (d' : D) × (dir_add disk name target (dir, d) ≡ ok tt (with_first_entry b, d'))
        × ((rest : List ℕ) × (reliable.sector d' b ≡ dirent_bytes (new_entry name target) ++ rest))
        × IsFreeList reliable d' free
        × SameFields reliable d' d
        × ((t : ℕ) → NotIn t (0 ∷ b ∷ free) → reliable.sector d' t ≡ reliable.sector d t)
  unfolding search slot words
  dir_add_first name target b free d kind empty some_blocks unmapped legal fits list =
      let dir1 = with_first dir reliable b in
      let bytes = dirent_bytes (new_entry name target) in
      let (nz, (out, _)) = list.distinct in
      let b≢0 : b ≢ 0 = λ z. nz.0 (sym z) in
      let here : get_or (set dir.blocks 0 b) 0 0 ≡ b =
        get_or-set_self dir.blocks 0 b 0 some_blocks in
      let mapped : get_or dir1.blocks 0 0 ≢ 0 = λ z. b≢0 (sym here ∙ z) in
      let size = length-dirent_bytes name target legal fits in
      let (d1, alloc, zeroed, list1, fields, others) = alloc_block-pop reliable d b free list in
      let (d', written, content, there) =
        write_entry dir1 reliable kind mapped bytes d1 empty size
          (dirent_bytes-AllBelow name target legal fits) in
      let kept : (t : ℕ) → t ≢ b → reliable.sector d' t ≡ reliable.sector d1 t =
        λ t tb. there t (λ e. tb (e ∙ here)) in
      (
        d',
        dir_add_lem disk dir d [] name target kind (omega arith) fits tt
            ∙ then_ok (write disk bytes 0) (pure tt)
                (write_new dir reliable bytes b d d1 (rw kind refl) (omega arith) some_blocks
                    unmapped b≢0 alloc
                  ∙ written)
                refl,
        (_, ap (reliable.sector d') (sym here) ∙ content),
        IsFreeList-frame reliable d1 d' b free list1 b≢0 out kept,
        (λ i other.
            ap (λ bytes. get_or (to_words bytes) i 0) (kept 0 (λ z. b≢0 (sym z))) ∙ fields i other),
        λ t apart. kept t apart.1.0 ∙ others t apart,
      )

  -- In a directory without entries and blocks, on a disk without faults that has a free block,
  -- `dir_add` of a name that fits and has no zero byte takes the top block of the free list and
  -- makes the directory one entry long. From then on `dir_lookup` finds this name, with its inode
  -- number and at offset 0, and no other name, and `dir_add` refuses the name as one that exists.
  -- The free list has lost just that block, and the sectors outside of it are as before.
  pub dir_add-dir_lookup :
      (name : List ℕ) (target b : ℕ) (free : List ℕ) (d : D)
      → dir.type_ ≡ directory
      → dir.size ≡ 0
      → 0 < length dir.blocks
      → get_or dir.blocks 0 0 ≡ 0
      → IsName name
      → length name ≤ dirname_size
      → target < unused_inum
      → IsFreeList reliable d (b ∷ free)
      → (d' : D) × (dir_add disk name target (dir, d) ≡ ok tt (with_first_entry b, d'))
        × (dir_lookup disk (with_first_entry b) name d' ≡ ok (target, 0) d')
        × ((other : List ℕ)
            → other ≢ name
            → dir_lookup disk (with_first_entry b) other d' ≡ err not_found d')
        × ((again : ℕ)
            → dir_add disk name again (with_first_entry b, d')
              ≡ err entry_exists (with_first_entry b, d'))
        × IsFreeList reliable d' free
        × ((t : ℕ) → NotIn t (0 ∷ b ∷ free) → reliable.sector d' t ≡ reliable.sector d t)
  unfolding search
  dir_add-dir_lookup name target b free d kind empty some_blocks unmapped legal fits small list =
      let dir' = with_first_entry b in
      let e = new_entry name target in
      let (nz, _) = list.distinct in
      let here : get_or (set dir.blocks 0 b) 0 0 ≡ b =
        get_or-set_self dir.blocks 0 b 0 some_blocks in
      let (d', run, (rest, content), list', _, others) =
        dir_add_first name target b free d kind empty some_blocks unmapped legal fits list in
      let back =
        read_first_entry dir' reliable kind (λ z. nz.0 (sym (sym here ∙ z))) (dirent_bytes e) rest
          d' (length-dirent_bytes name target legal fits) (omega arith)
          (ap (reliable.sector d') here ∙ content) in
      let entries : Entries disk dir' d' 0 (e ∷ []) =
        ((_, back, bytes_dirent-dirent_bytes name target legal fits (omega arith)), tt) in
      (
        d',
        run,
        dir_lookup_lem disk dir' d' (e ∷ []) name kind (omega arith) entries
            ∙ ap (found disk dir' d') (search-new_entry name target legal fits small [] 0),
        (λ other differ.
            dir_lookup_lem disk dir' d' (e ∷ []) other kind (omega arith) entries
            ∙ ap (found disk dir' d')
                (search_other name target legal fits small [] 0 other differ)),
        (λ again.
            dir_add_refused disk dir' d' (e ∷ []) name again (target, 0) kind (omega arith) fits
              entries (search-new_entry name target legal fits small [] 0)),
        list',
        others,
      )
