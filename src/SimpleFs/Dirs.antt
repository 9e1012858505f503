-- ===== src/SimpleFs/Dirs.antt =====
-- Directories in lib/simple_fs/src/lib.rs: `dir_lookup`, `dir_add`, `namex`.
use sprocket.Base.{
  ℕ, zero, suc, ◌+◌, ◌-◌, ◌/◌, Bool, true, false, ◌&&◌, none, some, List, [], ◌∷◌, ◌++◌, ◌==◌, leb,
  if◌then◌else◌, get_or, take, drop, length, replicate,
}
use sprocket.SimpleFs.Types.{
  ok, err, panic, Disk, Fs, not_found, entry_exists, pure, raise, assert, ◌>>=◌, ◌>>◌, unused_inum,
  dirname_size, root_dev, root_inum, Inode, unused, file, directory,
}
use sprocket.SimpleFs.Layout.{to_words, from_words}
use sprocket.SimpleFs.Blocks.{position}
use sprocket.SimpleFs.Inodes.{read_inode}
use sprocket.SimpleFs.Files.{read, write, on_disk, get_inode}

-- `size_of::<DirEntry>()`: a word and 254 bytes, padded to whole words
abbrev pub dirent_size : ℕ
dirent_size = 260

-- `struct DirEntry`
pub record DirEntry : Type 0 where
  pub inumber : ℕ
  pub name : List ℕ

unfoldable pub dirent_bytes : DirEntry → List ℕ
unfolding from_words
dirent_bytes e = from_words (e.inumber ∷ []) ++ e.name ++ replicate 2 0

unfoldable pub bytes_dirent : List ℕ → DirEntry
unfolding to_words
bytes_dirent bytes = record {
  inumber = get_or (to_words (take 4 bytes)) 0 0;
  name = take dirname_size (drop 4 bytes);
}

-- `xs.iter().zip(ys).all(|(x, y)| *x == *y)`
unfoldable pub agree : List ℕ → List ℕ → Bool
agree [] ys = true
agree (x ∷ xs) [] = true
agree (x ∷ xs) (y ∷ ys) = (x == y) && agree xs ys

abbrev pub entry_len : DirEntry → ℕ
entry_len e = elim (position (λ x. x == 0) e.name) [ some n ↦ n | none ↦ dirname_size ]

-- Does the entry have this name?
unfoldable pub is_named : DirEntry → List ℕ → Bool
unfolding agree
is_named e name = (entry_len e == length name) && agree (take (entry_len e) e.name) name

abbrev pub is_directory : Inode → Bool
is_directory i = elim i.type_ [ unused ↦ false | file ↦ false | directory ↦ true ]

-- how many steps of `dirent_size` the range `0..size` has
abbrev pub entry_count : (size : ℕ) → ℕ
entry_count size = (size + dirent_size - 1) / dirent_size

module _ {D : Type 0} (disk : Disk D) where
  -- the loop of `dir_lookup` from `offset` on
  unfoldable pub lookup_from : (count : ℕ) → Inode → (name : List ℕ) → (offset : ℕ) → Fs D (ℕ × ℕ)
  unfolding read bytes_dirent is_named
  lookup_from zero dir name offset = raise not_found
  lookup_from (suc n) dir name offset =
      let rest = lookup_from n dir name (offset + dirent_size) in
      do
        (buf, _) ← read disk dir (replicate dirent_size 0) offset
        let entry = bytes_dirent buf
        if entry.inumber == unused_inum
            then rest
            else if is_named entry name
            then pure (entry.inumber, offset)
            else rest

  unfoldable pub dir_lookup : Inode → (name : List ℕ) → Fs D (ℕ × ℕ)
  unfolding lookup_from
  dir_lookup dir name = do assert (is_directory dir); lookup_from (entry_count dir.size) dir name 0

  -- `.is_ok()`, whatever the error was
  abbrev pub is_ok : {A : Type 0} → Fs D A → Fs D Bool
  is_ok m d = elim (m d) [ ok a d' ↦ ok true d' | err e d' ↦ ok false d' | panic ↦ panic ]

  -- the loop of `dir_add` over the slots from `offset` on, and the entry after the last one
  unfoldable pub add_from :
      (count : ℕ) → (entry : List ℕ) → (offset : ℕ) → Fs (Inode × D) (Unit {0})
  unfolding read write bytes_dirent
  add_from zero entry offset = do dir ← get_inode disk; write disk entry dir.size; pure tt
  add_from (suc n) entry offset =
      let rest = add_from n entry (offset + dirent_size) in
      do
        dir ← get_inode disk
        (tmp_buf, count) ← on_disk disk (read disk dir (replicate dirent_size 0) offset)
        assert (count == dirent_size)
        if (bytes_dirent tmp_buf).inumber == unused_inum
            then (do write disk entry offset; pure tt)
            else rest

  unfoldable pub dir_add : (name : List ℕ) → (target : ℕ) → Fs (Inode × D) (Unit {0})
  unfolding dir_lookup add_from dirent_bytes
  dir_add name target = do
    dir ← get_inode disk
    present ← on_disk disk (is_ok (dir_lookup dir name))
    if present then raise entry_exists else (do
      assert (leb (length name) dirname_size)
      let padded = name ++ replicate (dirname_size - length name) 0
      add_from (entry_count dir.size) (dirent_bytes (record { inumber = target; name = padded })) 0)

  unfoldable pub namex : (path name : List ℕ) → Fs D ℕ
  unfolding read_inode dir_lookup
  namex path name =
      if elim path [ c ∷ [] ↦ c == b'/' | _ ↦ false ]
      then (do
        inode ← read_inode disk root_dev root_inum
        (inum, _) ← dir_lookup inode name
        pure inum)
      else raise not_found
