-- ===== src/SimpleFs/DirEntries.antt =====
-- Names and entries of directories in lib/simple_fs/src/lib.rs: what `read` returns for an entry,
-- and which names it has.
use sprocket.Base.{
  ℕ, zero, suc, ◌+◌, ◌-◌, ◌^◌, ◌≤◌, ◌<◌, ◌≡◌, ◌≢◌, refl, sym, ap, ◌∙◌, inl, inr, Bool, true, false,
  ◌&&◌, Bool-cases, u8, ◌>>>◌, ◌*◌, none, some, List, [], ◌∷◌, ◌++◌, ◌==◌, ==_iff, arith, length,
  replicate, take-append, length-append, length-replicate,
}
use mathlib.Core.List.{append-nil}
use sprocket.SimpleFs.Types.{dirname_size}
use sprocket.SimpleFs.Layout.{
  to_words, from_words, AllBelow, AllBelow-append, from_words-AllBelow, replicate-AllBelow,
}
use sprocket.SimpleFs.Blocks.{position}
use sprocket.SimpleFs.Dirs.{
  DirEntry, dirent_bytes, bytes_dirent, dirent_size, agree, entry_len, is_named,
}

-- Bytes that a name may have: none is zero.
abbrev pub IsName : List ℕ → Type 0
IsName [] = Unit
IsName (c ∷ cs) = (0 < c) × (c < 2 ^ 8) × IsName cs

-- The entry that `dir_add` writes.
abbrev pub new_entry : (name : List ℕ) (target : ℕ) → DirEntry
new_entry name target = record {
  inumber = target;
  name = name ++ replicate (dirname_size - length name) 0;
}

IsName-AllBelow : (name : List ℕ) → IsName name → AllBelow (2 ^ 8) name
IsName-AllBelow [] h = tt
IsName-AllBelow (c ∷ cs) h = (h.1, IsName-AllBelow cs h.2)

abbrev is_nul : ℕ → Bool
is_nul x = x == 0

position_name : (name : List ℕ) → IsName name → position is_nul name ≡ none
position_name [] h = refl
position_name (c ∷ cs) h =
    let letter : (c == 0) ≡ false = ground (arith, h.0) in rw (letter, position_name cs h.2) refl

position_padded :
    (name rest : List ℕ) → IsName name → position is_nul (name ++ 0 ∷ rest) ≡ some (length name)
position_padded [] rest h = refl
position_padded (c ∷ cs) rest h =
    let letter : (c == 0) ≡ false = ground (arith, h.0) in
    rw (letter, position_padded cs rest h.2) refl

padded_len :
    (name : List ℕ) (more target : ℕ)
    → IsName name
    → length name + more ≡ dirname_size
    → entry_len (record { inumber = target; name = name ++ replicate more 0 }) ≡ length name
padded_len name zero target h total =
    let bare : entry_len (record { inumber = target; name = name }) ≡ length name =
      rw (entry_len, position_name name h) (omega arith) in
    ap (λ n. entry_len (record { inumber = target; name = n })) (append-nil name) ∙ bare
padded_len name (suc more) target h total =
    rw (entry_len, position_padded name (replicate more 0) h) refl

agree_same : (name : List ℕ) → agree name name ≡ true
unfolding agree
agree_same [] = refl
agree_same (c ∷ cs) = rw ((==_iff c c).1 refl, agree_same cs) refl

both : (a b : Bool) → (a && b) ≡ true → (a ≡ true) × (b ≡ true)
both true b h = (refl, h)
both false b h = absurd (cc h)

agree_lem : (xs ys : List ℕ) → length xs ≡ length ys → agree xs ys ≡ true → xs ≡ ys
unfolding agree
agree_lem [] [] h e = refl
agree_lem [] (y ∷ ys) h e = absurd (omega arith)
agree_lem (x ∷ xs) [] h e = absurd (omega arith)
agree_lem (x ∷ xs) (y ∷ ys) h e =
    let (same, rest) = both (x == y) (agree xs ys) e in
    let heads = (==_iff x y).0 same in
    ap (λ z. z ∷ xs) heads ∙ ap (λ zs. y ∷ zs) (agree_lem xs ys (omega arith) rest)

module _ (name : List ℕ) (target : ℕ) (legal : IsName name)
    (fits : length name ≤ dirname_size) where
  new_entry-is_named :
      (other : List ℕ)
      → is_named (new_entry name target) other ≡ ((length name == length other) && agree name other)
  unfolding is_named
  new_entry-is_named other =
      let more = dirname_size - length name in
      rw
        (
          padded_len name more target legal (omega arith),
          take-append (length name) name (replicate more 0) refl,
        )
        refl

  -- The entry has the name it was made with, and no other one.
  pub is_named_self : is_named (new_entry name target) name ≡ true
  is_named_self =
      new_entry-is_named name
      ∙ rw ((==_iff (length name) (length name)).1 refl, agree_same name) refl

  pub is_named_only :
      (other : List ℕ) → is_named (new_entry name target) other ≡ true → other ≡ name
  is_named_only other named =
      let (lengths, same) =
        both (length name == length other) (agree name other)
          (sym (new_entry-is_named other) ∙ named) in
      sym (agree_lem name other ((==_iff (length name) (length other)).0 lengths) same)

  pub is_named_other :
      (other : List ℕ) → other ≢ name → is_named (new_entry name target) other ≡ false
  is_named_other other differ = elim (Bool-cases (is_named (new_entry name target) other)) [
    | inl named ↦ absurd (differ (is_named_only other named))
    | inr unnamed ↦ unnamed
  ]

  -- The entry's bytes are as many as an entry has, and read as the entry.
  pub length-dirent_bytes : length (dirent_bytes (new_entry name target)) ≡ dirent_size
  unfolding dirent_bytes from_words
  length-dirent_bytes =
      let more = dirname_size - length name in
      omega (
        arith,
        length-append (name ++ replicate more 0) (replicate 2 0),
        length-append name (replicate more 0),
        length-replicate {A = ℕ} more 0,
      )

  pub dirent_bytes-AllBelow : AllBelow (2 ^ 8) (dirent_bytes (new_entry name target))
  unfolding dirent_bytes
  dirent_bytes-AllBelow =
      let more = dirname_size - length name in
      AllBelow-append (2 ^ 8) (from_words (target ∷ [])) _ (from_words-AllBelow (target ∷ [])) (
        AllBelow-append (2 ^ 8) (name ++ replicate more 0) (replicate 2 0)
          (AllBelow-append (2 ^ 8) name (replicate more 0) (IsName-AllBelow name legal)
            (replicate-AllBelow (2 ^ 8) more (omega arith)))
          (replicate-AllBelow (2 ^ 8) 2 (omega arith)))

  pub bytes_dirent-dirent_bytes :
      target < 2 ^ 32 → bytes_dirent (dirent_bytes (new_entry name target)) ≡ new_entry name target
  unfolding dirent_bytes bytes_dirent from_words to_words
  bytes_dirent-dirent_bytes small =
      let more = dirname_size - length name in
      let padded = name ++ replicate more 0 in
      let size : length padded ≡ dirname_size =
        omega (arith, length-append name (replicate more 0), length-replicate {A = ℕ} more 0) in
      let number : u8 target
            + u8 (target >>> 8) * 2 ^ 8
            + u8 (target >>> 16) * 2 ^ 16
            + u8 (target >>> 24) * 2 ^ 24
          ≡ target =
        omega arith in
      rw (number, take-append dirname_size padded (replicate 2 0) size) refl
