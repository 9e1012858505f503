-- ===== src/SimpleFs/Reliable.antt =====
-- What the file system relies on of a disk without faults: the trait `Disk` of
-- lib/simple_fs/src/lib.rs, whose implementations read and write the prefix of a sector that a
-- buffer covers. The disk is seen as its sectors of 512 bytes.
use sprocket.Base.{
  ℕ, ◌^◌, ◌≤◌, ◌≡◌, ◌≢◌, sym, ap, ◌∙◌, List, ◌++◌, arith, length, take, drop, take_all, drop_all,
  length-replicate,
}
use mathlib.Core.List.{append-nil}
use sprocket.SimpleFs.Types.{Disk, DiskRun, ok, blocksize}
use sprocket.SimpleFs.Layout.{
  AllBelow, to_words, from_words, to_words-AllBelow, to_words-from_words, length-from_words,
  from_words-AllBelow, replicate-AllBelow,
}
use sprocket.SimpleFs.Blocks.{zero_block, disk_read, disk_write}

module _ {D : Type 0} where
  pub record Reliable (disk : Disk D) (device : ℕ) : Type 0 where
    pub sector : D → ℕ → List ℕ
    pub sector_length : (d : D) (s : ℕ) → length (sector d s) ≡ blocksize
    pub sector_bytes : (d : D) (s : ℕ) → AllBelow (2 ^ 8) (sector d s)
    pub reads :
        (buffer : List ℕ) (s : ℕ) (d : D)
        → length buffer ≤ blocksize
        → disk.read buffer device s d ≡ DiskRun.ok (take (length buffer) (sector d s)) d
    pub writes :
        (buffer : List ℕ) (s : ℕ) (d : D)
        → length buffer ≤ blocksize
        → AllBelow (2 ^ 8) buffer
        → (d' : D) × (disk.write buffer device s d ≡ DiskRun.ok (length buffer) d')
          × (sector d' s ≡ buffer ++ drop (length buffer) (sector d s))
          × ((t : ℕ) → t ≢ s → sector d' t ≡ sector d t)

module _ {D : Type 0} {disk : Disk D} {device : ℕ} (reliable : Reliable disk device) where
  unfoldable pub words : D → ℕ → List ℕ
  unfolding to_words
  words d s = to_words (reliable.sector d s)

  pub words_fit : (d : D) (s : ℕ) → AllBelow (2 ^ 32) (words d s) × (length (words d s) ≡ 128)
  unfolding words
  words_fit d s =
      to_words-AllBelow 128 (reliable.sector d s) (reliable.sector_length d s)
        (reliable.sector_bytes d s)

  pub read_sector :
      (buffer : List ℕ) (s : ℕ) (d : D)
      → length buffer ≡ blocksize
      → disk_read disk device buffer s d ≡ ok (reliable.sector d s) d
  read_sector buffer s d h = rw (reliable.reads buffer s d (omega arith)) (
      ap (λ b. ok b d)
        (take_all (length buffer) (reliable.sector d s) (reliable.sector_length d s ∙ sym h)))

  pub write_sector :
      (buffer : List ℕ) (s : ℕ) (d : D)
      → length buffer ≡ blocksize
      → AllBelow (2 ^ 8) buffer
      → (d' : D) × (disk_write disk device buffer s d ≡ ok blocksize d')
        × (reliable.sector d' s ≡ buffer)
        × ((t : ℕ) → t ≢ s → reliable.sector d' t ≡ reliable.sector d t)
  write_sector buffer s d h bytes =
      let (d', run, here, elsewhere) = reliable.writes buffer s d (omega arith) bytes in
      (
        d',
        rw run (ap (λ n. ok n d') h),
        here
            ∙ rw
                (drop_all (length buffer) (reliable.sector d s)
                  (reliable.sector_length d s ∙ sym h))
                (append-nil buffer),
        elsewhere,
      )

  pub write_words :
      (ws : List ℕ) (s : ℕ) (d : D)
      → length ws ≡ 128
      → AllBelow (2 ^ 32) ws
      → (d' : D) × (disk_write disk device (from_words ws) s d ≡ ok blocksize d')
        × (words d' s ≡ ws)
        × ((t : ℕ) → t ≢ s → reliable.sector d' t ≡ reliable.sector d t)
  unfolding words
  write_words ws s d h fit =
      let (d', run, here, elsewhere) =
        write_sector (from_words ws) s d (omega (arith, length-from_words ws))
          (from_words-AllBelow ws) in
      (d', run, ap to_words here ∙ to_words-from_words ws fit, elsewhere)

  pub write_zero :
      (s : ℕ) (d : D)
      → (d' : D) × (disk_write disk device zero_block s d ≡ ok blocksize d')
        × (reliable.sector d' s ≡ zero_block)
        × ((t : ℕ) → t ≢ s → reliable.sector d' t ≡ reliable.sector d t)
  write_zero s d =
      write_sector zero_block s d (length-replicate {A = ℕ} blocksize 0)
        (replicate-AllBelow (2 ^ 8) blocksize (omega arith))
