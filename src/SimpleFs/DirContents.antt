-- ===== src/SimpleFs/DirContents.antt =====
-- `dir_lookup` of lib/simple_fs/src/lib.rs on the bytes of the disk: entries of 260 bytes, of which
-- `read` takes what lies in the block where the entry starts.
use sprocket.Base.{
  ℕ, zero, suc, ◌+◌, ◌-◌, ◌*◌, ◌/◌, ◌%◌, ◌^◌, ◌≤◌, ◌<◌, ◌≡◌, ◌≢◌, ◌⊎◌, inl, inr, refl, sym, ap, ◌∙◌,
  false, Bool-cases, none, some, List, [], ◌∷◌, ◌++◌, ◌==◌, ==_iff, arith, length, get_or, min,
  take, drop, replicate, length-replicate,
}
use sprocket.SimpleFs.Types.{Disk, ok, err, not_found, dirname_size, unused_inum, Inode, directory}
use sprocket.SimpleFs.Inodes.{is_unused}
use sprocket.SimpleFs.Files.{read}
use sprocket.SimpleFs.Reliable.{Reliable}
use sprocket.SimpleFs.ReadResults.{read_first_only}
use sprocket.SimpleFs.Dirs.{DirEntry, dirent_size, dirent_bytes, is_named, dir_lookup}
use sprocket.SimpleFs.DirEntries.{
  IsName, new_entry, is_named_self, is_named_only, bytes_dirent-dirent_bytes,
}
use sprocket.SimpleFs.DirLookup.{search, Entries, found, dir_lookup_lem}
use sprocket.SimpleFs.EntryBytes.{entry_bytes, entry_bytes_lem, padded_prefix}

-- What a directory lists: inode numbers and names.
abbrev pub Listing : Type 0
Listing = List (ℕ × List ℕ)

-- `dir_lookup` passes over an entry that is unused or has another name.
abbrev pub Passed : (name : List ℕ) → ℕ × List ℕ → Type 0
Passed name (target, n) = (target ≡ unused_inum) ⊎ (n ≢ name)

-- The first entry in use with this name has this index and this number.
abbrev pub FirstAt : Listing → (name : List ℕ) → (index target : ℕ) → Type 0
FirstAt es name i target =
    (i < length es)
    × (get_or es i (0, []) ≡ (target, name))
    × (target ≢ unused_inum)
    × ((j : ℕ) → j < i → Passed name (get_or es j (0, [])))

all-Passed :
    (e : ℕ × List ℕ) (es : Listing) (name : List ℕ) (n : ℕ)
    → Passed name e
    → ((j : ℕ) → j < n → Passed name (get_or es j (0, [])))
    → (j : ℕ) → j < suc n
    → Passed name (get_or (e ∷ es) j (0, []))
all-Passed e es name n first rest zero h = first
all-Passed e es name n first rest (suc j) h = rest j (omega arith)

abbrev entries : Listing → List DirEntry
entries [] = []
entries ((target, name) ∷ es) = new_entry name target ∷ entries es

length-entries : (es : Listing) → length (entries es) ≡ length es
length-entries [] = refl
length-entries ((target, name) ∷ es) = ap suc (length-entries es)

module _ {D : Type 0} {disk : Disk D} (dir : Inode) (reliable : Reliable disk dir.device)
    (d : D) where
  -- An entry at an offset of the directory. Its name has no zero byte and lies in the block where the
  -- entry starts. This block is mapped, and has the bytes of the entry up to its end.
  pub record Stored (offset : ℕ) (e : ℕ × List ℕ) : Type 0 where
    pub small : e.0 < 2 ^ 32
    pub legal : IsName e.1
    pub fits : length e.1 ≤ dirname_size
    pub room : offset % 512 + 4 + length e.1 ≤ 512
    pub mapped : get_or dir.blocks (offset / 512) 0 ≢ 0
    pub bytes :
        take
          (min 260 (512 - offset % 512))
          (drop (offset % 512) (reliable.sector d (get_or dir.blocks (offset / 512) 0)))
        ≡ take (min 260 (512 - offset % 512)) (entry_bytes e)

  -- The directory has these entries, from this offset on.
  abbrev pub OnDisk : (offset : ℕ) → Listing → Type 0
  OnDisk offset [] = Unit
  OnDisk offset (e ∷ es) = Stored offset e × OnDisk (offset + 260) es

  Stored-read :
      (offset target : ℕ) (name : List ℕ)
      → is_unused dir ≡ false
      → dir.size < 2 ^ 32
      → offset % 260 ≡ 0
      → offset + 260 ≤ dir.size
      → Stored offset (target, name)
      → read disk dir (replicate dirent_size 0) offset d
        ≡ ok (dirent_bytes (new_entry name target), dirent_size) d
  Stored-read offset target name typed bound multiple inside s =
      let count = min 260 (512 - offset % 512) in
      let e : ℕ × List ℕ = (target, name) in
      let blanks : List ℕ = drop count (replicate 260 0) in
      let size = length-replicate {A = ℕ} 260 0 in
      read_first_only dir reliable (replicate dirent_size 0) offset 260 d typed (omega arith)
        (omega arith) (omega arith) s.mapped (omega arith)
      ∙ ap (λ bytes. ok (bytes ++ blanks, dirent_size) d) s.bytes
      ∙ ap (λ bytes. ok (bytes, dirent_size) d)
          (padded_prefix (take 4 (entry_bytes e) ++ name) (256 - length name) count 260
              (omega (arith, s.room, s.fits)) (omega (arith, s.fits))
            ∙ entry_bytes_lem name target s.fits)

  OnDisk-Entries :
      (es : Listing) (offset : ℕ)
      → is_unused dir ≡ false
      → dir.size < 2 ^ 32
      → offset % 260 ≡ 0
      → offset + 260 * length es ≡ dir.size
      → OnDisk offset es
      → Entries disk dir d offset (entries es)
  OnDisk-Entries [] offset typed bound multiple end h = tt
  OnDisk-Entries ((target, name) ∷ es) offset typed bound multiple end (s, h) = (
    (
      dirent_bytes (new_entry name target),
      Stored-read offset target name typed bound multiple (omega arith) s,
      bytes_dirent-dirent_bytes name target s.legal s.fits s.small,
    ),
    OnDisk-Entries es (offset + 260) typed bound (omega arith) (omega arith) h,
  )

  -- The search for a name from this offset on.
  abbrev Searched : Listing → (name : List ℕ) → (offset : ℕ) → Type 0
  Searched es name offset =
      ((i : ℕ) × (target : ℕ) × FirstAt es name i target
        × (search (entries es) name offset ≡ some (target, offset + 260 * i)))
      ⊎ (((j : ℕ) → j < length es → Passed name (get_or es j (0, [])))
          × (search (entries es) name offset ≡ none))

  search-Passed :
      (e : ℕ × List ℕ) (es : Listing) (name : List ℕ) (offset : ℕ)
      → Passed name e
      → search (entries (e ∷ es)) name offset ≡ search (entries es) name (offset + 260)
      → Searched es name (offset + 260)
      → Searched (e ∷ es) name offset
  search-Passed e es name offset passed same (inr (all, nowhere)) =
      inr (all-Passed e es name (length es) passed all, same ∙ nowhere)
  search-Passed e es name offset passed same (inl (i, target, (below, here, used, before), at)) =
      let place : offset + 260 + 260 * i ≡ offset + 260 * suc i = omega arith in
      inl (
        suc i,
        target,
        (omega arith, here, used, all-Passed e es name i passed before),
        same ∙ at ∙ ap (λ o. some (target, o)) place,
      )

  search_first :
      (es : Listing) (name : List ℕ) (offset : ℕ) → OnDisk offset es → Searched es name offset
  unfolding search
  search_first [] name offset h = inr ((λ j below. absurd (omega arith)), refl)
  search_first ((target, n) ∷ es) name offset (s, h) =
      let rest = search_first es name (offset + 260) h in
      elim (Bool-cases (target == unused_inum)) [
        | inl free ↦
            search-Passed (target, n) es name offset (inl ((==_iff target unused_inum).0 free))
              (rw free refl) rest
        | inr used ↦ elim (Bool-cases (is_named (new_entry n target) name)) [
          | inr unnamed ↦
              search-Passed (target, n) es name offset
                (inr (λ same. cc (unnamed, is_named_self n target s.legal s.fits, same)))
                (rw (used, unnamed) refl) rest
          | inl named ↦
              let same : name ≡ n = is_named_only n target s.legal s.fits name named in
              let place : offset ≡ offset + 260 * 0 = omega arith in
              inl (
                0,
                target,
                (
                  omega arith,
                  ap (λ m. (target, m)) (sym same),
                  (λ e. cc (used, (==_iff target unused_inum).1 e)),
                  (λ j below. absurd (omega arith)),
                ),
                rw (used, named) (ap (λ o. some (target, o)) place),
              )
        ]
      ]

  -- On a disk without faults, in a directory whose bytes are those of the listed entries, where each
  -- name lies in the block in which its entry starts: if an entry in use has exactly the name,
  -- dir_lookup returns the number of the first such entry and its offset, 260 times its index. If
  -- none has it, dir_lookup reports that the name is not found.
  pub dir_lookup-listing :
      (es : Listing) (name : List ℕ)
      → dir.type_ ≡ directory
      → dir.size ≡ 260 * length es
      → dir.size < 2 ^ 32
      → OnDisk 0 es
      → ((i : ℕ) × (target : ℕ) × FirstAt es name i target
          × (dir_lookup disk dir name d ≡ ok (target, 260 * i) d))
        ⊎ (((j : ℕ) → j < length es → Passed name (get_or es j (0, [])))
            × (dir_lookup disk dir name d ≡ err not_found d))
  dir_lookup-listing es name kind size bound h =
      let all = OnDisk-Entries es 0 (rw kind refl) bound (omega arith) (omega arith) h in
      let run =
        dir_lookup_lem disk dir d (entries es) name kind (omega (arith, length-entries es)) all in
      elim (search_first es name 0 h) [
        | inl (i, target, first, at) ↦ inl (
          i,
          target,
          first,
          run ∙ ap (found disk dir d) at ∙ ap (λ o. ok (target, o) d) (omega arith),
        )
        | inr (nowhere, missing) ↦ inr (nowhere, run ∙ ap (found disk dir d) missing)
      ]
