-- ===== src/SimpleFs/Layout.antt =====
-- Bytes seen as 32-bit words, least significant byte first: what the casts of `slice_cast` and of
-- `buffer_to_sb` mean on this machine. Writing through such a view changes the bytes.
use sprocket.Base.{
  ℕ, zero, suc, ◌+◌, ◌*◌, ◌/◌, ◌^◌, ◌<◌, ◌≡◌, refl, ap, List, [], ◌∷◌, arith, length, u8, u16,
  ◌>>>◌, get_or, set, replicate, take, take_all, drop, ◌++◌, ◌==◌, if◌then◌else◌,
}
use sprocket.SimpleFs.Types.{blocksize, ndirect, InodeType, unused, file, directory, Inode}

unfoldable pub to_words : List ℕ → List ℕ
to_words (a ∷ b ∷ c ∷ d ∷ bytes) = (a + b * 2 ^ 8 + c * 2 ^ 16 + d * 2 ^ 24) ∷ to_words bytes
to_words _ = []

unfoldable pub from_words : List ℕ → List ℕ
from_words [] = []
from_words (w ∷ ws) = u8 w ∷ u8 (w >>> 8) ∷ u8 (w >>> 16) ∷ u8 (w >>> 24) ∷ from_words ws

-- Every number of the list is below the bound.
abbrev pub AllBelow : ℕ → List ℕ → Type 0
AllBelow bound [] = Unit
AllBelow bound (x ∷ xs) = (x < bound) × AllBelow bound xs

pub to_words-from_words : (ws : List ℕ) → AllBelow (2 ^ 32) ws → to_words (from_words ws) ≡ ws
unfolding to_words from_words
to_words-from_words [] h = refl
to_words-from_words (w ∷ ws) h = ground (arith, to_words-from_words ws h.1)

pub length-from_words : (ws : List ℕ) → length (from_words ws) ≡ 4 * length ws
unfolding from_words
length-from_words [] = refl
length-from_words (w ∷ ws) = omega (arith, length-from_words ws)

pub from_words-AllBelow : (ws : List ℕ) → AllBelow (2 ^ 8) (from_words ws)
unfolding from_words
from_words-AllBelow [] = tt
from_words-AllBelow (w ∷ ws) =
    (omega arith, (omega arith, (omega arith, (omega arith, from_words-AllBelow ws))))

-- Every list of whole words, read and written back, is the same list of bytes.
pub from_words-to_words :
    (n : ℕ) (bytes : List ℕ)
    → length bytes ≡ 4 * n
    → AllBelow (2 ^ 8) bytes
    → from_words (to_words bytes) ≡ bytes
unfolding to_words from_words
from_words-to_words zero [] h b = refl
from_words-to_words zero (x ∷ xs) h b = absurd (omega arith)
from_words-to_words (suc n) [] h b = absurd (omega arith)
from_words-to_words (suc n) (x ∷ []) h b = absurd (omega arith)
from_words-to_words (suc n) (x ∷ y ∷ []) h b = absurd (omega arith)
from_words-to_words (suc n) (x ∷ y ∷ z ∷ []) h b = absurd (omega arith)
from_words-to_words (suc n) (x ∷ y ∷ z ∷ w ∷ bytes) h b =
    let (bx, (by, (bz, (bw, below)))) = b in
    ground (arith, from_words-to_words n bytes (omega arith) below, bx, by, bz, bw)

-- The bytes of a buffer with some of them replaced, from an index on.
abbrev pub splice : ℕ → List ℕ → List ℕ → List ℕ
splice start bytes buffer = take start buffer ++ bytes ++ drop (start + length bytes) buffer

-- `struct Inode`, laid out in the order of its fields with two bytes of padding after `type_`
abbrev pub inode_size : ℕ
inode_size = 272

abbrev pub inodes_per_block : ℕ
inodes_per_block = blocksize / inode_size

type_number : InodeType → ℕ
type_number unused = 0
type_number file = 1
type_number directory = 2

type_named : ℕ → InodeType
type_named n = if n == 1 then file else if n == 2 then directory else unused

unfoldable pub inode_words : Inode → List ℕ
unfolding type_number
inode_words i = type_number i.type_ ∷ i.device ∷ (i.major + i.minor * 2 ^ 16) ∷ i.size ∷ i.blocks

unfoldable pub words_inode : List ℕ → Inode
unfolding type_named
words_inode ws = record {
  type_ = type_named (u16 (get_or ws 0 0));
  device = get_or ws 1 0;
  major = u16 (get_or ws 2 0);
  minor = get_or ws 2 0 >>> 16;
  size = get_or ws 3 0;
  blocks = take ndirect (drop 4 ws);
}

pub record IsInode (i : Inode) : Type 0 where
  pub device_fits : i.device < 2 ^ 32
  pub major_fits : i.major < 2 ^ 16
  pub minor_fits : i.minor < 2 ^ 16
  pub size_fits : i.size < 2 ^ 32
  pub blocks_fit : AllBelow (2 ^ 32) i.blocks
  pub all_blocks : length i.blocks ≡ ndirect

pub to_words-AllBelow :
    (n : ℕ) (bytes : List ℕ)
    → length bytes ≡ 4 * n
    → AllBelow (2 ^ 8) bytes
    → AllBelow (2 ^ 32) (to_words bytes) × (length (to_words bytes) ≡ n)
unfolding to_words
to_words-AllBelow zero [] h b = (tt, refl)
to_words-AllBelow zero (x ∷ xs) h b = absurd (omega arith)
to_words-AllBelow (suc n) [] h b = absurd (omega arith)
to_words-AllBelow (suc n) (x ∷ []) h b = absurd (omega arith)
to_words-AllBelow (suc n) (x ∷ y ∷ []) h b = absurd (omega arith)
to_words-AllBelow (suc n) (x ∷ y ∷ z ∷ []) h b = absurd (omega arith)
to_words-AllBelow (suc n) (x ∷ y ∷ z ∷ w ∷ bytes) h b =
    let (bx, (by, (bz, (bw, below)))) = b in
    let (words_below, count) = to_words-AllBelow n bytes (omega arith) below in
    ((omega arith, words_below), ap suc count)

pub set-AllBelow :
    (bound : ℕ) (xs : List ℕ) (i v : ℕ)
    → v < bound
    → AllBelow bound xs
    → AllBelow bound (set xs i v)
set-AllBelow bound [] i v h b = tt
set-AllBelow bound (x ∷ xs) zero v h b = (h, b.1)
set-AllBelow bound (x ∷ xs) (suc i) v h b = (b.0, set-AllBelow bound xs i v h b.1)

pub replicate-AllBelow : (bound n : ℕ) → 0 < bound → AllBelow bound (replicate n 0)
replicate-AllBelow bound zero h = tt
replicate-AllBelow bound (suc n) h = (h, replicate-AllBelow bound n h)

pub get_or-AllBelow :
    (bound : ℕ) (xs : List ℕ) (i : ℕ) → 0 < bound → AllBelow bound xs → get_or xs i 0 < bound
get_or-AllBelow bound [] i h b = h
get_or-AllBelow bound (x ∷ xs) zero h b = b.0
get_or-AllBelow bound (x ∷ xs) (suc i) h b = get_or-AllBelow bound xs i h b.1

type_named-type_number : (t : InodeType) → type_named (u16 (type_number t)) ≡ t
unfolding type_named type_number
type_named-type_number unused = refl
type_named-type_number file = refl
type_named-type_number directory = refl

-- An inode comes back from its words.
pub words_inode-inode_words : (i : Inode) → IsInode i → words_inode (inode_words i) ≡ i
unfolding words_inode inode_words
words_inode-inode_words i valid =
    let major : u16 (i.major + i.minor * 2 ^ 16) ≡ i.major = omega arith in
    let minor : ((i.major + i.minor * 2 ^ 16) >>> 16) ≡ i.minor = omega arith in
    rw (type_named-type_number i.type_, major, minor, take_all ndirect i.blocks valid.all_blocks)
      refl

pub inode_words_fit :
    (i : Inode) → IsInode i → AllBelow (2 ^ 32) (inode_words i) × (length (inode_words i) ≡ 68)
unfolding inode_words type_number
inode_words_fit i valid =
    let number : type_number i.type_ < 2 ^ 32 = elim i.type_ as (λ t. type_number t < 2 ^ 32) [
      | unused ↦ omega arith
      | file ↦ omega arith
      | directory ↦ omega arith
    ] in
    (
      (number, (valid.device_fits, (omega arith, (valid.size_fits, valid.blocks_fit)))),
      omega (arith, valid.all_blocks),
    )

pub AllBelow-append :
    (bound : ℕ) (xs ys : List ℕ) → AllBelow bound xs → AllBelow bound ys → AllBelow bound (xs ++ ys)
AllBelow-append bound [] ys hx hy = hy
AllBelow-append bound (x ∷ xs) ys hx hy = (hx.0, AllBelow-append bound xs ys hx.1 hy)

pub AllBelow-drop : (bound n : ℕ) (xs : List ℕ) → AllBelow bound xs → AllBelow bound (drop n xs)
AllBelow-drop bound zero xs h = h
AllBelow-drop bound (suc n) [] h = tt
AllBelow-drop bound (suc n) (x ∷ xs) h = AllBelow-drop bound n xs h.1
