-- ===== src/SimpleFs/DirLookup.antt =====
-- `dir_lookup` and `dir_add` of lib/simple_fs/src/lib.rs on a directory seen as a list of entries.
use sprocket.Base.{
  ℕ, ◌+◌, ◌*◌, ◌≤◌, ◌≡◌, refl, ap, ◌∙◌, Bool, true, false, Option, none, some, List, [], ◌∷◌, ◌==◌,
  arith, length, replicate, leb, if◌then◌else◌,
}
use sprocket.SimpleFs.Types.{
  Disk, Fs, Run, ok, err, pure, not_found, entry_exists, assert, ◌>>◌, bind_ok, then_ok,
  dirname_size, unused_inum, Inode, directory,
}
use sprocket.SimpleFs.Files.{read, write, on_disk}
use sprocket.SimpleFs.Dirs.{
  DirEntry, dirent_size, dirent_bytes, bytes_dirent, is_named, is_directory, is_ok, entry_count,
  lookup_from, dir_lookup, add_from, dir_add,
}
use sprocket.SimpleFs.DirEntries.{new_entry}

-- The number and the offset of the first entry with this name.
unfoldable pub search : List DirEntry → (name : List ℕ) → (offset : ℕ) → Option (ℕ × ℕ)
search [] name offset = none
search (e ∷ es) name offset =
    if e.inumber == unused_inum
    then search es name (offset + dirent_size)
    else if is_named e name
    then some (e.inumber, offset)
    else search es name (offset + dirent_size)

-- The offset of the first free entry, or that behind the last one.
unfoldable pub slot : List DirEntry → (offset : ℕ) → ℕ
slot [] offset = offset
slot (e ∷ es) offset = if e.inumber == unused_inum then offset else slot es (offset + dirent_size)

module _ {D : Type 0} (disk : Disk D) (dir : Inode) (d : D) where
  -- From this offset on, the directory is read as these entries.
  abbrev pub Entries : (offset : ℕ) → List DirEntry → Type 0
  Entries offset [] = Unit
  Entries offset (e ∷ es) =
      ((bytes : List ℕ) × (read disk dir (replicate dirent_size 0) offset d
          ≡ ok (bytes, dirent_size) d)
        × (bytes_dirent bytes ≡ e))
      × Entries (offset + dirent_size) es

  abbrev pub found : Option (ℕ × ℕ) → Run D (ℕ × ℕ)
  found none = err not_found d
  found (some r) = ok r d

  -- An error for a name that was found, and otherwise this run.
  abbrev pub unless_found : Option (ℕ × ℕ) → Run (Inode × D) (Unit {0}) → Run (Inode × D) (Unit {0})
  unless_found none m = m
  unless_found (some r) m = err entry_exists (dir, d)

  choose :
      (free named : Bool) (r : ℕ × ℕ) (rest : Fs D (ℕ × ℕ)) (o : Option (ℕ × ℕ))
      → rest d ≡ found o
      → (if free then rest else if named then pure r else rest) d
        ≡ found (if free then o else if named then some r else o)
  choose true named r rest o e = e
  choose false true r rest o e = refl
  choose false false r rest o e = e

  lookup_from_lem :
      (es : List DirEntry) (name : List ℕ) (offset : ℕ)
      → Entries offset es
      → lookup_from disk (length es) dir name offset d ≡ found (search es name offset)
  unfolding lookup_from search
  lookup_from_lem [] name offset h = refl
  lookup_from_lem (e ∷ es) name offset ((bytes, filled, entry), h) =
      let rest : Fs D (ℕ × ℕ) = lookup_from disk (length es) dir name (offset + dirent_size) in
      let visit : DirEntry → Run D (ℕ × ℕ) = λ x.
        (if x.inumber == unused_inum
            then rest
            else if is_named x name
            then pure (x.inumber, offset)
            else rest)
          d in
      bind_ok (read disk dir (replicate dirent_size 0) offset) _ filled (
        ap visit entry
        ∙ choose (e.inumber == unused_inum) (is_named e name) (e.inumber, offset) rest
            (search es name (offset + dirent_size))
            (lookup_from_lem es name (offset + dirent_size) h))

  count_lem : (n : ℕ) → dir.size ≡ dirent_size * n → entry_count dir.size ≡ n
  count_lem n size = omega arith

  -- On a directory whose entries are read without an error, dir_lookup returns the first entry in
  -- use that has the name, with its offset, and otherwise reports that there is none.
  pub dir_lookup_lem :
      (es : List DirEntry) (name : List ℕ)
      → dir.type_ ≡ directory
      → dir.size ≡ dirent_size * length es
      → Entries 0 es
      → dir_lookup disk dir name d ≡ found (search es name 0)
  unfolding dir_lookup
  dir_lookup_lem es name kind size entries =
      then_ok (assert (is_directory dir)) (lookup_from disk (entry_count dir.size) dir name 0)
        (rw kind refl)
        (ap (λ n. lookup_from disk n dir name 0 d) (count_lem (length es) size)
          ∙ lookup_from_lem es name 0 entries)

  pick :
      (free : Bool) (entry : List ℕ) (here later : ℕ) (rest : Fs (Inode × D) (Unit {0}))
      → rest (dir, d) ≡ (write disk entry later >> pure tt) (dir, d)
      → (if free then write disk entry here >> pure tt else rest) (dir, d)
        ≡ (write disk entry (if free then here else later) >> pure tt) (dir, d)
  pick true entry here later rest e = refl
  pick false entry here later rest e = e

  add_from_lem :
      (es : List DirEntry) (entry : List ℕ) (offset : ℕ)
      → offset + dirent_size * length es ≡ dir.size
      → Entries offset es
      → add_from disk (length es) entry offset (dir, d)
        ≡ (write disk entry (slot es offset) >> pure tt) (dir, d)
  unfolding add_from slot
  add_from_lem [] entry offset end h =
      let behind : dir.size ≡ offset = omega arith in
      ap (λ o. (write disk entry o >> pure tt) (dir, d)) behind
  add_from_lem (e ∷ es) entry offset end ((bytes, filled, same), h) =
      let rest : Fs (Inode × D) (Unit {0}) =
        add_from disk (length es) entry (offset + dirent_size) in
      let visit : DirEntry → Run (Inode × D) (Unit {0}) = λ x.
        (if x.inumber == unused_inum then write disk entry offset >> pure tt else rest) (dir, d) in
      let taken : on_disk disk (read disk dir (replicate dirent_size 0) offset) (dir, d)
          ≡ ok (bytes, dirent_size) (dir, d) =
        rw (on_disk, filled) refl in
      bind_ok (on_disk disk (read disk dir (replicate dirent_size 0) offset)) _ taken (
        ap visit same
        ∙ pick (e.inumber == unused_inum) entry offset (slot es (offset + dirent_size)) rest
            (add_from_lem es entry (offset + dirent_size) (omega arith) h))

  add_unless :
      (o : Option (ℕ × ℕ)) (name : List ℕ) (target : ℕ)
      → length name ≤ dirname_size
      → dir_lookup disk dir name d ≡ found o
      → dir_add disk name target (dir, d)
        ≡ unless_found o
            (add_from disk (entry_count dir.size) (dirent_bytes (new_entry name target)) 0 (dir, d))
  unfolding dir_add
  add_unless (some r) name target fits e =
      let present : on_disk disk (is_ok disk (dir_lookup disk dir name)) (dir, d)
          ≡ ok true (dir, d) =
        rw (on_disk, is_ok, e) refl in
      bind_ok (on_disk disk (is_ok disk (dir_lookup disk dir name))) _ present refl
  add_unless none name target fits e =
      let short : leb (length name) dirname_size ≡ true = ground arith in
      let absent : on_disk disk (is_ok disk (dir_lookup disk dir name)) (dir, d)
          ≡ ok false (dir, d) =
        rw (on_disk, is_ok, e) refl in
      bind_ok (on_disk disk (is_ok disk (dir_lookup disk dir name))) _ absent (rw short refl)

  -- dir_add on such a directory: a name that it has is refused and nothing changes; otherwise the
  -- entry is written to the first free place, which is behind the last entry if all are in use.
  pub dir_add_lem :
      (es : List DirEntry) (name : List ℕ) (target : ℕ)
      → dir.type_ ≡ directory
      → dir.size ≡ dirent_size * length es
      → length name ≤ dirname_size
      → Entries 0 es
      → dir_add disk name target (dir, d)
        ≡ unless_found
            (search es name 0)
            ((write disk (dirent_bytes (new_entry name target)) (slot es 0) >> pure tt) (dir, d))
  dir_add_lem es name target kind size fits entries =
      let entry = dirent_bytes (new_entry name target) in
      add_unless (search es name 0) name target fits (dir_lookup_lem es name kind size entries)
      ∙ ap (unless_found (search es name 0)) (
          ap (λ n. add_from disk n entry 0 (dir, d)) (count_lem (length es) size)
          ∙ add_from_lem es entry 0 (omega arith) entries)

  -- A name that is found is refused.
  pub dir_add_refused :
      (es : List DirEntry) (name : List ℕ) (target : ℕ) (r : ℕ × ℕ)
      → dir.type_ ≡ directory
      → dir.size ≡ dirent_size * length es
      → length name ≤ dirname_size
      → Entries 0 es
      → search es name 0 ≡ some r
      → dir_add disk name target (dir, d) ≡ err entry_exists (dir, d)
  dir_add_refused es name target r kind size fits entries e =
      add_unless (some r) name target fits (dir_lookup_lem es name kind size entries ∙ ap found e)
