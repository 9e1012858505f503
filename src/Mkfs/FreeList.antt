-- ===== src/Mkfs/FreeList.antt =====
-- lib/simple_fs/src/bin.rs: the free list of a disk that was formatted.
use sprocket.Base.{
  ℕ, zero, suc, ◌+◌, ◌^◌, ◌≤◌, ◌<◌, ◌≡◌, ◌≢◌, ◌⊎◌, inr, refl, sym, ap, ◌∙◌, arith, List, [], ◌∷◌,
  ◌++◌, length, get_or, replicate,
}
use sprocket.SimpleFs.Types.{Disk, Fs, ok, ◌>>◌, then_ok, blocksize}
use sprocket.SimpleFs.Layout.{from_words, AllBelow, AllBelow-append, replicate-AllBelow}
use sprocket.SimpleFs.Blocks.{free_block, disk_read, disk_write}
use sprocket.SimpleFs.Reliable.{Reliable, words, write_words, read_sector}
use sprocket.SimpleFs.FreeList.{NotIn}
use sprocket.SimpleFs.AllocBlock.{IsFreeList, SameFields}
use sprocket.SimpleFs.InodeTable.{table_start}
use sprocket.SimpleFs.FreeBlock.{free_block-push}
use sprocket.Mkfs.{tmp_sb, sb_block, unwrap, write_superblock, free_blocks, make_freelist}

-- The blocks from `start` on, `count` of them, the last one first.
unfoldable pub blocks : (start count : ℕ) → List ℕ
blocks start zero = []
blocks start (suc n) = (start + n) ∷ blocks start n

pub NotIn-blocks : (x start n : ℕ) → (x < start) ⊎ (start + n ≤ x) → NotIn x (blocks start n)
unfolding blocks
NotIn-blocks x start zero out = tt
NotIn-blocks x start (suc n) out = ((λ e. ground arith), NotIn-blocks x start n (ground arith))

sb_block_lem : sb_block ≡ from_words (tmp_sb ++ replicate 123 0)
unfolding sb_block from_words
sb_block_lem = refl

sb_words_fit : AllBelow (2 ^ 32) (tmp_sb ++ replicate 123 0)
sb_words_fit =
    AllBelow-append (2 ^ 32) tmp_sb (replicate 123 0)
      (omega arith, (omega arith, (omega arith, (omega arith, (omega arith, tt)))))
      (replicate-AllBelow (2 ^ 32) 123 (omega arith))

sb_block_length : length sb_block ≡ blocksize
unfolding sb_block from_words
sb_block_length = refl

module _ {D A : Type 0} where
  pub unwrap-ok : (m : Fs D A) {d d' : D} {a : A} → m d ≡ ok a d' → unwrap m d ≡ ok a d'
  unwrap-ok m e = rw (e, unwrap) refl

module _ {D : Type 0} {disk : Disk D} (reliable : Reliable disk 0) where
  write_superblock_lem :
      (d : D)
      → (d' : D) × (write_superblock disk d ≡ ok tt d')
        × (words reliable d' 0 ≡ tmp_sb ++ replicate 123 0)
        × ((t : ℕ) → t ≢ 0 → reliable.sector d' t ≡ reliable.sector d t)
  unfolding write_superblock
  write_superblock_lem d =
      let (d', run, content, others) =
        write_words reliable (tmp_sb ++ replicate 123 0) 0 d refl sb_words_fit in
      (
        d',
        then_ok (disk_write disk 0 sb_block 0) _
            (ap (λ b. disk_write disk 0 b 0 d) sb_block_lem ∙ run)
            (then_ok (disk_read disk 0 sb_block 0) _
              (read_sector reliable sb_block 0 d' sb_block_length) refl),
        content,
        others,
      )

  free_blocks_lem :
      (start n left : ℕ) (d : D)
      → 0 < start
      → start + n + left ≤ 2 ^ 32
      → IsFreeList reliable d (blocks start n)
      → (d' : D) × (free_blocks disk (start + n) left d ≡ ok tt d')
        × IsFreeList reliable d' (blocks start (n + left))
        × SameFields reliable d' d
        × ((t : ℕ)
            → 0 < t
            → (t < start) ⊎ (start + n + left ≤ t)
            → reliable.sector d' t ≡ reliable.sector d t)
  unfolding free_blocks blocks
  free_blocks_lem start n zero d pos word f =
      let all : n + 0 ≡ n = omega arith in
      (d, refl, rw all f, (λ i other. refl), λ t pos' out. refl)
  free_blocks_lem start n (suc left) d pos word f =
      let b = start + n in
      let (d1, run1, f1, fields1, others1) =
        free_block-push reliable d b (blocks start n) f
          ((λ e. omega arith), NotIn-blocks b start n (inr (omega arith))) (omega arith) in
      let (d2, run2, f2, fields2, others2) =
        free_blocks_lem start (suc n) left d1 pos (omega arith) f1 in
      let next : b + 1 ≡ start + suc n = omega arith in
      let all : n + suc left ≡ suc n + left = omega arith in
      (
        d2,
        then_ok (unwrap (free_block disk 0 b)) (free_blocks disk (b + 1) left)
            (unwrap-ok (free_block disk 0 b) run1) (rw next run2),
        rw all f2,
        (λ i other. fields2 i other ∙ fields1 i other),
        λ t pos' out.
            others2 t pos' (ground arith)
            ∙ others1 t
                ((λ e. omega arith), ((λ e. ground arith), NotIn-blocks t start n (ground arith))),
      )

  no_blocks :
      (d : D) (start : ℕ)
      → words reliable d 0 ≡ tmp_sb ++ replicate 123 0
      → IsFreeList reliable d (blocks start 0)
  unfolding blocks
  no_blocks d start content = record {
    groups = [];
    starts = ap (λ ws. get_or ws 4 0) content;
    lists = refl;
    distinct = (tt, tt);
  }

  write_superblock-free_blocks :
      (start count : ℕ) (d : D)
      → 0 < start
      → start + count ≤ 2 ^ 32
      → (d' : D) × ((write_superblock disk >> free_blocks disk start count) d ≡ ok tt d')
        × IsFreeList reliable d' (blocks start count)
        × (get_or (words reliable d' 0) 3 0 ≡ 1)
        × ((t : ℕ)
            → 0 < t
            → (t < start) ⊎ (start + count ≤ t)
            → reliable.sector d' t ≡ reliable.sector d t)
  write_superblock-free_blocks start count d pos word =
      let (d1, run1, content, others1) = write_superblock_lem d in
      let (d2, run2, f2, fields, others2) =
        free_blocks_lem start 0 count d1 pos (omega arith) (no_blocks d1 start content) in
      let first : start + 0 ≡ start = omega arith in
      let all : 0 + count ≡ count = omega arith in
      (
        d2,
        then_ok (write_superblock disk) (free_blocks disk start count) run1
            (ap (λ b. free_blocks disk b count d1) (sym first) ∙ run2),
        rw (sym all) f2,
        fields 3 (λ e. omega arith) ∙ ap (λ ws. get_or ws 3 0) content,
        λ t pos' out. others2 t pos' (ground arith) ∙ others1 t (λ e. omega arith),
      )

  -- On a disk without faults and whatever it holds, writing the superblock and freeing the data
  -- blocks, as mkfs does, ends without an error or a failed assertion. The free list then holds each
  -- block from 257 to 999 once, the last one on top, and the blocks of the inodes and those behind
  -- the file system are as before; the list of inodes starts in block 1.
  pub make_freelist_lem :
      (d : D)
      → (d' : D) × (make_freelist disk d ≡ ok tt d')
        × IsFreeList reliable d' (blocks 257 743)
        × (table_start reliable d' ≡ 1)
        × ((t : ℕ) → 0 < t → (t < 257) ⊎ (1000 ≤ t) → reliable.sector d' t ≡ reliable.sector d t)
  unfolding make_freelist
  make_freelist_lem d = write_superblock-free_blocks 257 743 d (omega arith) (omega arith)
