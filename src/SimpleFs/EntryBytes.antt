-- ===== src/SimpleFs/EntryBytes.antt =====
-- The bytes of an entry of a directory of lib/simple_fs/src/lib.rs, and what is left of them where the
-- end of a block is read as zeros.
use sprocket.Base.{
  ℕ, zero, suc, ◌+◌, ◌-◌, ◌/◌, ◌%◌, ◌^◌, ◌≤◌, ◌≡◌, refl, sym, ap, ◌∙◌, List, [], ◌∷◌, ◌++◌, arith,
  length, take, drop, replicate,
}
use mathlib.Core.List.{append_assoc}
use sprocket.SimpleFs.Types.{dirname_size}
use sprocket.SimpleFs.Layout.{from_words}
use sprocket.SimpleFs.Dirs.{dirent_bytes}
use sprocket.SimpleFs.DirEntries.{new_entry}
use sprocket.SimpleFs.DirSecond.{replicate_add}

-- The 260 bytes of an entry: the number, its lowest byte first, the name, and zeros.
abbrev pub entry_bytes : ℕ × List ℕ → List ℕ
entry_bytes (target, name) =
    target % 2 ^ 8
      ∷ target / 2 ^ 8 % 2 ^ 8
      ∷ target / 2 ^ 16 % 2 ^ 8
      ∷ target / 2 ^ 24 % 2 ^ 8
      ∷ name
    ++ replicate (256 - length name) 0

pub entry_bytes_lem :
    (name : List ℕ) (target : ℕ)
    → length name ≤ dirname_size
    → entry_bytes (target, name) ≡ dirent_bytes (new_entry name target)
unfolding dirent_bytes from_words
entry_bytes_lem name target fits =
    let blanks : List ℕ = replicate (dirname_size - length name) 0 in
    let count : 256 - length name ≡ dirname_size - length name + 2 = omega arith in
    ap (λ bytes. from_words (target ∷ []) ++ bytes)
      (ap (λ k. name ++ replicate k 0) count
        ∙ ap (λ bytes. name ++ bytes) (replicate_add (dirname_size - length name) 2)
        ∙ sym (append_assoc name blanks (replicate 2 0)))

take-append_drop : (n : ℕ) (xs : List ℕ) → take n xs ++ drop n xs ≡ xs
take-append_drop zero xs = refl
take-append_drop (suc n) [] = refl
take-append_drop (suc n) (x ∷ xs) = ap (λ ys. x ∷ ys) (take-append_drop n xs)

-- A list that ends in zeros is its own prefix on zeros, if that prefix covers the rest of it.
pub padded_prefix :
    (front : List ℕ) (blanks n total : ℕ)
    → length front ≤ n
    → total ≡ length front + blanks
    → take n (front ++ replicate blanks 0) ++ drop n (replicate total 0)
      ≡ front ++ replicate blanks 0
padded_prefix [] blanks n total h e =
    let same : total ≡ blanks = omega arith in
    ap (λ k. take n (replicate blanks 0) ++ drop n (replicate k 0)) same
    ∙ take-append_drop n (replicate blanks 0)
padded_prefix (c ∷ front) blanks zero total h e = absurd (omega arith)
padded_prefix (c ∷ front) blanks (suc n) zero h e = absurd (omega arith)
padded_prefix (c ∷ front) blanks (suc n) (suc total) h e =
    ap (λ bytes. c ∷ bytes) (padded_prefix front blanks n total (omega arith) (omega arith))
