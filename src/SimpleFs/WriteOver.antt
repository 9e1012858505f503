-- ===== src/SimpleFs/WriteOver.antt =====
-- `write` of lib/simple_fs/src/lib.rs behind the start of the first block and over its end.
use sprocket.Base.{
  ℕ, ◌+◌, ◌-◌, ◌/◌, ◌%◌, ◌^◌, ◌≤◌, ◌<◌, ◌≡◌, ◌≢◌, refl, ap, ◌∙◌, true, false, ◌||◌, List, ◌++◌,
  ◌==◌, ltb, leb, arith, length, get_or, take, drop, u32, drop_past, length-take, length-drop,
  length-append, length-replicate,
}
use mathlib.Core.List.{append-nil}
use sprocket.SimpleFs.Types.{Disk, Fs, ok, ◌>>=◌, bind_ok, blocksize, Inode}
use sprocket.SimpleFs.Layout.{AllBelow, AllBelow-append}
use sprocket.SimpleFs.Blocks.{zero_block, disk_read, disk_write}
use sprocket.SimpleFs.Inodes.{is_unused}
use sprocket.SimpleFs.Files.{
  overwrite, bmap_or_alloc, on_disk, get_inode, write_first, write_rest, write,
}
use sprocket.SimpleFs.Reliable.{Reliable, read_sector, write_sector}
use sprocket.SimpleFs.ReadFile.{overwrite_lem}
use sprocket.SimpleFs.WriteFile.{AllBelow-take, bmap_or_alloc-mapped, on_disk-ok}

-- The block after a write from `start` on that goes over its end.
abbrev pub filled_up : (start : ℕ) (bytes block : List ℕ) → List ℕ
filled_up start bytes block = take start block ++ take (blocksize - start) bytes

filled_up-overwrite :
    (start : ℕ) (bytes block : List ℕ)
    → length block ≡ blocksize
    → blocksize - start ≤ length bytes
    → take start block ++ overwrite (drop start block) bytes ≡ filled_up start bytes block
filled_up-overwrite start bytes block size over =
    let left : length (drop start block) ≡ blocksize - start =
      length-drop start block ∙ omega arith in
    ap (λ ys. take start block ++ ys)
      (overwrite_lem (drop start block) bytes
        ∙ ap (λ n. take n bytes ++ drop (length bytes) (drop start block)) left
        ∙ ap (λ ys. take (blocksize - start) bytes ++ ys)
            (drop_past (length bytes) (drop start block) (omega (arith, left)))
        ∙ append-nil (take (blocksize - start) bytes))

length-filled_up :
    (start : ℕ) (bytes block : List ℕ)
    → length block ≡ blocksize
    → start ≤ blocksize
    → blocksize - start ≤ length bytes
    → length (filled_up start bytes block) ≡ blocksize
length-filled_up start bytes block size inside over = omega (
  arith,
  length-append (take start block) (take (blocksize - start) bytes),
  length-take start block,
  length-take (blocksize - start) bytes,
)

module _ {D : Type 0} {disk : Disk D} (inode : Inode) (reliable : Reliable disk inode.device) where
  write_first_over :
      (src : List ℕ) (offset b : ℕ) (d : D)
      → AllBelow (2 ^ 8) src
      → 0 < offset
      → offset < blocksize
      → blocksize - offset ≤ length src
      → (d' : D) × (write_first disk src offset b inode d ≡ ok blocksize d')
        × (reliable.sector d' b ≡ filled_up offset src (reliable.sector d b))
        × ((t : ℕ) → t ≢ b → reliable.sector d' t ≡ reliable.sector d t)
  unfolding write_first
  write_first_over src offset b d bytes pos inside over =
      let block = reliable.sector d b in
      let new = filled_up-overwrite offset src block (reliable.sector_length d b) over in
      let fits : offset ≤ blocksize = omega arith in
      let total = length-filled_up offset src block (reliable.sector_length d b) fits over in
      let fit =
        AllBelow-append (2 ^ 8) (take offset block) (take (blocksize - offset) src)
          (AllBelow-take (2 ^ 8) offset block (reliable.sector_bytes d b))
          (AllBelow-take (2 ^ 8) (blocksize - offset) src bytes) in
      let (d', run, here, there) =
        write_sector reliable (filled_up offset src block) b d total fit in
      let within : (offset % blocksize == 0) ≡ false = ground arith in
      let start : offset % blocksize ≡ offset = omega arith in
      (
        d',
        rw (within, start)
            (bind_ok (disk_read disk inode.device zero_block b)
              (λ tmp.
                disk_write disk inode.device (take offset tmp ++ overwrite (drop offset tmp) src) b)
              (read_sector reliable zero_block b d (length-replicate {A = ℕ} 512 0))
              (ap (λ bs. disk_write disk inode.device bs b d) new ∙ run)),
        here,
        there,
      )

  -- A write that goes over the end of the first block, with at most a block of bytes in all, puts
  -- there the bytes that fit and drops the others; the size grows by all of them.
  pub write_over :
      (src : List ℕ) (offset : ℕ) (d : D)
      → is_unused inode ≡ false
      → AllBelow (2 ^ 8) src
      → 0 < offset
      → offset < blocksize
      → offset ≡ inode.size
      → blocksize - offset ≤ length src
      → length src ≤ blocksize
      → get_or inode.blocks 0 0 ≢ 0
      → (d' : D) × (write disk src offset (inode, d)
          ≡ ok (length src) (record inode { size = inode.size + length src }, d'))
        × (reliable.sector d' (get_or inode.blocks 0 0)
            ≡ filled_up offset src (reliable.sector d (get_or inode.blocks 0 0)))
        × ((t : ℕ) → t ≢ get_or inode.blocks 0 0 → reliable.sector d' t ≡ reliable.sector d t)
  unfolding write write_rest
  write_over src offset d typed bytes pos inside at over small mapped =
      let b = get_or inode.blocks 0 0 in
      let len = length src in
      let (d', run, here, there) = write_first_over src offset b d bytes pos inside over in
      let full : u32 len ≡ len = omega arith in
      let block : offset / blocksize ≡ 0 = omega arith in
      let legal : (ltb (u32 (offset + len)) offset || ltb inode.size offset) ≡ false =
        ground arith in
      let fits_file : ltb (2 ^ 15) (len + offset) ≡ false = ground arith in
      let early : leb len (offset + blocksize) ≡ true = ground arith in
      let longer : ltb inode.size (offset + blocksize) ≡ true = ground arith in
      let rest : ℕ → Fs (Inode × D) ℕ = λ written. write_rest disk src len (offset + written) in
      let grows : rest blocksize (inode, d')
          ≡ ok len (record inode { size = inode.size + len }, d') =
        rw (early, longer) refl in
      (
        d',
        rw (typed, full, legal, fits_file, block)
            (bind_ok (bmap_or_alloc disk 0)
              (λ blockaddr. get_inode disk >>= λ mapped'.
                on_disk disk (write_first disk src offset blockaddr mapped') >>= rest)
              {s = (inode, d)} (bmap_or_alloc-mapped inode reliable 0 d mapped)
              (bind_ok (on_disk disk (write_first disk src offset b inode)) rest
                (on_disk-ok inode reliable (write_first disk src offset b inode) run) grows)),
        here,
        there,
      )
