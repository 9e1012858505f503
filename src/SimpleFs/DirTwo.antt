-- ===== src/SimpleFs/DirTwo.antt =====
-- `dir_add` of lib/simple_fs/src/lib.rs in a directory with one entry, and lookups after it.
use sprocket.Base.{
  ℕ, ◌*◌, ◌≤◌, ◌<◌, ◌≡◌, ◌≢◌, ap, ◌∙◌, some, List, [], ◌∷◌, ◌++◌, arith, get_or, length,
}
use sprocket.SimpleFs.Types.{
  Disk, ok, err, not_found, entry_exists, dirname_size, unused_inum, Inode, directory,
}
use sprocket.SimpleFs.Reliable.{Reliable}
use sprocket.SimpleFs.Dirs.{DirEntry, dirent_size, dir_lookup, dir_add}
use sprocket.SimpleFs.DirEntries.{IsName, new_entry}
use sprocket.SimpleFs.DirLookup.{search, Entries, found, dir_lookup_lem, dir_add_refused}
use sprocket.SimpleFs.DirAdd.{search-new_entry, search_other}
use sprocket.SimpleFs.DirSecond.{two-Entries, dir_add_second}
use sprocket.SimpleFs.EntryBytes.{entry_bytes, entry_bytes_lem}

module _ {D : Type 0} {disk : Disk D} (dir : Inode) (reliable : Reliable disk dir.device)
    (kind : dir.type_ ≡ directory) (size : dir.size ≡ 260)
    (mapped : get_or dir.blocks 0 0 ≢ 0) where
  abbrev pub with_two_entries : Inode
  with_two_entries = record dir { size = 2 * dirent_size }

  -- In a directory of 260 bytes, whose block has the bytes of one entry in use, on a disk without
  -- faults, `dir_add` of another name of at most 248 bytes, none of them zero, makes the directory
  -- two entries long. From then on `dir_lookup` finds the old name at offset 0 and the new one at
  -- offset 260, each with its inode number, and no other name, and `dir_add` refuses the new name as
  -- one that exists. Only the directory's block changes on the disk.
  pub dir_add-dir_lookup_second :
      (name1 name2 rest : List ℕ) (target1 target2 : ℕ) (d : D)
      → IsName name1
      → length name1 ≤ dirname_size
      → target1 < unused_inum
      → IsName name2
      → length name2 ≤ 248
      → target2 < unused_inum
      → name2 ≢ name1
      → reliable.sector d (get_or dir.blocks 0 0) ≡ entry_bytes (target1, name1) ++ rest
      → (d' : D) × (dir_add disk name2 target2 (dir, d) ≡ ok tt (with_two_entries, d'))
        × (dir_lookup disk with_two_entries name1 d' ≡ ok (target1, 0) d')
        × (dir_lookup disk with_two_entries name2 d' ≡ ok (target2, 260) d')
        × ((other : List ℕ)
            → other ≢ name1
            → other ≢ name2
            → dir_lookup disk with_two_entries other d' ≡ err not_found d')
        × ((again : ℕ)
            → dir_add disk name2 again (with_two_entries, d')
              ≡ err entry_exists (with_two_entries, d'))
        × ((t : ℕ) → t ≢ get_or dir.blocks 0 0 → reliable.sector d' t ≡ reliable.sector d t)
  unfolding search
  dir_add-dir_lookup_second name1 name2 rest target1 target2 d legal1 fits1 small1 legal2 short
        small2 differ content =
      let dir' = with_two_entries in
      let e1 = new_entry name1 target1 in
      let e2 = new_entry name2 target2 in
      let es : List DirEntry = e1 ∷ e2 ∷ [] in
      let fits2 : length name2 ≤ dirname_size = omega (arith, short) in
      let (d', run, block, there) =
        dir_add_second dir reliable kind size mapped name1 name2 rest target1 target2 d legal1 fits1
          small1 legal2 short small2 differ
          (content ∙ ap (λ bytes. bytes ++ rest) (entry_bytes_lem name1 target1 fits1)) in
      let entries : Entries disk dir' d' 0 es =
        two-Entries dir' reliable kind mapped name1 name2 target1 target2 d' (omega arith) legal1
          fits1 small1 legal2 short small2 block in
      let passed = search_other name1 target1 legal1 fits1 small1 (e2 ∷ []) 0 in
      let second : search es name2 0 ≡ some (target2, 260) =
        passed name2 differ ∙ search-new_entry name2 target2 legal2 fits2 small2 [] 260 in
      (
        d',
        run,
        dir_lookup_lem disk dir' d' es name1 kind (omega arith) entries
            ∙ ap (found disk dir' d')
                (search-new_entry name1 target1 legal1 fits1 small1 (e2 ∷ []) 0),
        dir_lookup_lem disk dir' d' es name2 kind (omega arith) entries
            ∙ ap (found disk dir' d') second,
        (λ other apart1 apart2.
            dir_lookup_lem disk dir' d' es other kind (omega arith) entries
            ∙ ap (found disk dir' d') (
                passed other apart1
                ∙ search_other name2 target2 legal2 fits2 small2 [] 260 other apart2)),
        (λ again.
            dir_add_refused disk dir' d' es name2 again (target2, 260) kind (omega arith) fits2
              entries second),
        there,
      )
