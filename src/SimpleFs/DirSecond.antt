-- ===== src/SimpleFs/DirSecond.antt =====
-- `dir_add` of lib/simple_fs/src/lib.rs for the second entry of a directory, which goes over the
-- end of the first block.
use sprocket.Base.{
  ℕ, zero, suc, ◌+◌, ◌-◌, ◌*◌, ◌≤◌, ◌<◌, ◌≡◌, ◌≢◌, refl, sym, ap, ◌∙◌, List, [], ◌∷◌, ◌++◌, arith,
  length, get_or, take, drop, replicate, take-append, drop-append, take_past, length-append,
  length-replicate, length-take,
}
use mathlib.Core.List.{append_assoc}
use sprocket.SimpleFs.Types.{
  Disk, ok, then_ok, pure, ◌>>◌, dirname_size, unused_inum, Inode, directory,
}
use sprocket.SimpleFs.Layout.{from_words}
use sprocket.SimpleFs.Files.{read, write}
use sprocket.SimpleFs.Reliable.{Reliable}
use sprocket.SimpleFs.ReadResults.{read_first_only}
use sprocket.SimpleFs.WriteOver.{write_over}
use sprocket.SimpleFs.Dirs.{dirent_size, dirent_bytes, dir_add}
use sprocket.SimpleFs.DirEntries.{
  IsName, new_entry, length-dirent_bytes, dirent_bytes-AllBelow, bytes_dirent-dirent_bytes,
}
use sprocket.SimpleFs.DirLookup.{search, slot, Entries, unless_found, dir_add_lem}
use sprocket.SimpleFs.DirAdd.{in_use, search_other, typed, read_first_entry}

pub replicate_add :
    (m n : ℕ) → replicate {A = ℕ} (m + n) 0 ≡ replicate {A = ℕ} m 0 ++ replicate {A = ℕ} n 0
replicate_add zero n = ap (λ k. replicate {A = ℕ} k 0) (omega arith)
replicate_add (suc m) n =
    let more : suc m + n ≡ suc (m + n) = omega arith in
    ap (λ k. replicate {A = ℕ} k 0) more ∙ ap (λ xs. 0 ∷ xs) (replicate_add m n)

-- The entry of a name of at most 248 bytes ends in eight zeros.
short_entry :
    (name : List ℕ) (target : ℕ)
    → length name ≤ 248
    → take 252 (dirent_bytes (new_entry name target)) ++ replicate 8 0
      ≡ dirent_bytes (new_entry name target)
unfolding dirent_bytes from_words
short_entry name target short =
    let padding : List ℕ = replicate (248 - length name) 0 in
    let front : List ℕ = from_words (target ∷ []) ++ (name ++ padding) in
    let total : dirname_size - length name ≡ 248 - length name + 6 = omega arith in
    let split : replicate (dirname_size - length name) 0 ≡ padding ++ replicate 6 0 =
      ap (λ k. replicate {A = ℕ} k 0) total ∙ replicate_add (248 - length name) 6 in
    let tail : (name ++ replicate (dirname_size - length name) 0) ++ replicate 2 0
        ≡ (name ++ padding) ++ replicate 8 0 =
      ap (λ ys. (name ++ ys) ++ replicate 2 0) split
      ∙ append_assoc name (padding ++ replicate 6 0) (replicate 2 0)
      ∙ ap (λ ys. name ++ ys) (append_assoc padding (replicate 6 0) (replicate 2 0))
      ∙ sym (append_assoc name padding (replicate 8 0)) in
    let whole : dirent_bytes (new_entry name target) ≡ front ++ replicate 8 0 =
      ap (λ ys. from_words (target ∷ []) ++ ys) tail in
    let size : length front ≡ 252 =
      omega (arith, length-append name padding, length-replicate {A = ℕ} (248 - length name) 0) in
    ap (λ xs. take 252 xs ++ replicate 8 0) whole
    ∙ ap (λ xs. xs ++ replicate 8 0) (take-append 252 front (replicate 8 0) size)
    ∙ sym whole

module _ {D : Type 0} {disk : Disk D} (dir : Inode) (reliable : Reliable disk dir.device)
    (kind : dir.type_ ≡ directory) (mapped : get_or dir.blocks 0 0 ≢ 0) where
  -- What is read at offset 260 of a directory of two entries: the bytes of the first block, and
  -- zeros.
  read_second_entry :
      (front bytes : List ℕ) (d : D)
      → dir.size ≡ 2 * dirent_size
      → length front ≡ dirent_size
      → length bytes ≡ 252
      → reliable.sector d (get_or dir.blocks 0 0) ≡ front ++ bytes
      → read disk dir (replicate dirent_size 0) dirent_size d
        ≡ ok (bytes ++ replicate 8 0, dirent_size) d
  read_second_entry front bytes d size fsize bsize block =
      let behind : take 252 (drop 260 (reliable.sector d (get_or dir.blocks 0 0))) ≡ bytes =
        ap (λ xs. take 252 (drop 260 xs)) block
        ∙ ap (take 252) (drop-append 260 front bytes fsize)
        ∙ take_past 252 bytes (omega arith) in
      read_first_only dir reliable (replicate dirent_size 0) 260 260 d
        (typed dir reliable kind mapped) (omega arith) (omega arith) (omega arith) mapped
        (omega arith)
      ∙ ap (λ xs. ok (xs ++ replicate 8 0, dirent_size) d) behind

  -- A first block with the bytes of two entries, as far as it has room for the second one.
  pub two-Entries :
      (name1 name2 : List ℕ) (target1 target2 : ℕ) (d : D)
      → dir.size ≡ 2 * dirent_size
      → IsName name1
      → length name1 ≤ dirname_size
      → target1 < unused_inum
      → IsName name2
      → length name2 ≤ 248
      → target2 < unused_inum
      → reliable.sector d (get_or dir.blocks 0 0)
        ≡ dirent_bytes (new_entry name1 target1)
          ++ take 252 (dirent_bytes (new_entry name2 target2))
      → Entries disk dir d 0 (new_entry name1 target1 ∷ new_entry name2 target2 ∷ [])
  two-Entries name1 name2 target1 target2 d size legal1 fits1 small1 legal2 short small2 block =
      let bytes1 = dirent_bytes (new_entry name1 target1) in
      let bytes2 = dirent_bytes (new_entry name2 target2) in
      let size1 = length-dirent_bytes name1 target1 legal1 fits1 in
      let size2 = length-dirent_bytes name2 target2 legal2 (omega arith) in
      (
        (
          _,
          read_first_entry dir reliable kind mapped bytes1 (take 252 bytes2) d size1 (omega arith)
              block,
          bytes_dirent-dirent_bytes name1 target1 legal1 fits1 (omega arith),
        ),
        (
          (
            _,
            read_second_entry bytes1 (take 252 bytes2) d size size1
                  (length-take 252 bytes2 ∙ omega (arith, size2)) block
                ∙ ap (λ xs. ok (xs, dirent_size) d) (short_entry name2 target2 short),
            bytes_dirent-dirent_bytes name2 target2 legal2 (omega arith) (omega arith),
          ),
          tt,
        ),
      )

module _ {D : Type 0} {disk : Disk D} (dir : Inode) (reliable : Reliable disk dir.device)
    (kind : dir.type_ ≡ directory) (size : dir.size ≡ dirent_size)
    (mapped : get_or dir.blocks 0 0 ≢ 0) where
  -- In a directory with one entry, `dir_add` of another name of at most 248 bytes fills
  -- its first block with the start of that entry.
  pub dir_add_second :
      (name1 name2 rest : List ℕ) (target1 target2 : ℕ) (d : D)
      → IsName name1
      → length name1 ≤ dirname_size
      → target1 < unused_inum
      → IsName name2
      → length name2 ≤ 248
      → target2 < unused_inum
      → name2 ≢ name1
      → reliable.sector d (get_or dir.blocks 0 0) ≡ dirent_bytes (new_entry name1 target1) ++ rest
      → (d' : D) × (dir_add disk name2 target2 (dir, d)
          ≡ ok tt (record dir { size = 2 * dirent_size }, d'))
        × (reliable.sector d' (get_or dir.blocks 0 0)
            ≡ dirent_bytes (new_entry name1 target1)
              ++ take 252 (dirent_bytes (new_entry name2 target2)))
        × ((t : ℕ) → t ≢ get_or dir.blocks 0 0 → reliable.sector d' t ≡ reliable.sector d t)
  unfolding search slot
  dir_add_second name1 name2 rest target1 target2 d legal1 fits1 small1 legal2 short small2 differ
        content =
      let b = get_or dir.blocks 0 0 in
      let e1 = new_entry name1 target1 in
      let e2 = new_entry name2 target2 in
      let bytes1 = dirent_bytes e1 in
      let bytes2 = dirent_bytes e2 in
      let size1 = length-dirent_bytes name1 target1 legal1 fits1 in
      let size2 = length-dirent_bytes name2 target2 legal2 (omega arith) in
      let (d', run, here, there) =
        write_over dir reliable bytes2 dirent_size d (typed dir reliable kind mapped)
          (dirent_bytes-AllBelow name2 target2 legal2 (omega arith)) (omega arith) (omega arith)
          (sym size) (omega arith) (omega arith) mapped in
      let block : reliable.sector d' b ≡ bytes1 ++ take 252 bytes2 =
        here
        ∙ ap (λ xs. take 260 xs ++ take 252 bytes2) content
        ∙ ap (λ xs. xs ++ take 252 bytes2) (take-append 260 bytes1 rest size1) in
      let before : Entries disk dir d 0 (e1 ∷ []) = (
        (
          _,
          read_first_entry dir reliable kind mapped bytes1 rest d size1 (omega arith) content,
          bytes_dirent-dirent_bytes name1 target1 legal1 fits1 (omega arith),
        ),
        tt,
      ) in
      let new_size : dir.size + length bytes2 ≡ 2 * dirent_size = omega arith in
      let place : slot (e1 ∷ []) 0 ≡ dirent_size =
        rw (in_use name1 target1 legal1 fits1 small1 [] 0) refl in
      (
        d',
        dir_add_lem disk dir d (e1 ∷ []) name2 target2 kind (omega arith) (omega arith) before
            ∙ ap
                (λ o.
                  unless_found disk dir d o
                    ((write disk bytes2 (slot (e1 ∷ []) 0) >> pure tt) (dir, d)))
                (search_other name1 target1 legal1 fits1 small1 [] 0 name2 differ)
            ∙ ap (λ o. (write disk bytes2 o >> pure tt) (dir, d)) place
            ∙ then_ok (write disk bytes2 dirent_size) (pure tt) run refl
            ∙ ap (λ n. ok tt (record dir { size = n }, d')) new_size,
        block,
        there,
      )
