-- ===== src/SimpleFs/WriteFile.antt =====
-- `write` of lib/simple_fs/src/lib.rs inside one block that is mapped, on a disk without faults.
use sprocket.Base.{
  drop-drop, ℕ, zero, suc, ◌+◌, ◌/◌, ◌%◌, ◌^◌, ◌≤◌, ◌≡◌, ◌≢◌, refl, sym, ap, ◌∙◌, inl, inr, true,
  false, ◌||◌, Bool-cases, List, [], ◌∷◌, ◌++◌, ◌==◌, ltb, leb, lt→ltb, if◌then◌else◌, arith,
  length, get_or, take, drop, min, u32, lt-get_or, take_past, length-take, length-drop,
  length-append, length-replicate, ==_iff,
}
use sprocket.SimpleFs.Types.{Disk, ok, Fs, ◌>>=◌, bind_ok, blocksize, from_disk, Inode}
use sprocket.SimpleFs.Layout.{AllBelow, AllBelow-append, AllBelow-drop}
use sprocket.SimpleFs.Blocks.{zero_block, disk_read, disk_write}
use sprocket.SimpleFs.Inodes.{is_unused}
use sprocket.SimpleFs.Files.{
  overwrite, bmap_or_alloc, on_disk, get_inode, write_first, write_rest, write,
}
use sprocket.SimpleFs.Reliable.{Reliable, read_sector, write_sector}
use sprocket.SimpleFs.ReadFile.{overwrite_lem}

pub AllBelow-take : (bound n : ℕ) (xs : List ℕ) → AllBelow bound xs → AllBelow bound (take n xs)
AllBelow-take bound zero xs h = tt
AllBelow-take bound (suc n) [] h = tt
AllBelow-take bound (suc n) (x ∷ xs) h = (h.0, AllBelow-take bound n xs h.1)

-- A block with some bytes replaced, from a place on.
abbrev pub patched : (start : ℕ) → (bytes block : List ℕ) → List ℕ
patched start bytes block = take start block ++ (bytes ++ drop (start + length bytes) block)

patched-overwrite :
    (start : ℕ) (bytes block : List ℕ)
    → start + length bytes ≤ length block
    → take start block ++ overwrite (drop start block) bytes ≡ patched start bytes block
patched-overwrite start bytes block fits =
    ap (λ ys. take start block ++ ys)
      (overwrite_lem (drop start block) bytes
        ∙ ap (λ xs. xs ++ drop (length bytes) (drop start block))
            (take_past (length (drop start block)) bytes (omega (arith, length-drop start block)))
        ∙ ap (λ ys. bytes ++ ys) (drop-drop (length bytes) start block))

patched_fits :
    (start : ℕ) (bytes block : List ℕ)
    → start + length bytes ≤ length block
    → AllBelow (2 ^ 8) bytes
    → AllBelow (2 ^ 8) block
    → (length (patched start bytes block) ≡ length block)
      × AllBelow (2 ^ 8) (patched start bytes block)
patched_fits start bytes block fits hb hs =
    let back = drop (start + length bytes) block in
    (
      omega (
        arith,
        length-append (take start block) (bytes ++ back),
        length-append bytes back,
        length-take start block,
        length-drop (start + length bytes) block,
      ),
      AllBelow-append (2 ^ 8) (take start block) (bytes ++ back)
          (AllBelow-take (2 ^ 8) start block hs)
          (AllBelow-append (2 ^ 8) bytes back hb
            (AllBelow-drop (2 ^ 8) (start + length bytes) block hs)),
    )

module _ {D : Type 0} {disk : Disk D} (inode : Inode) (reliable : Reliable disk inode.device) where
  -- How many bytes of the disk `write` writes for the first block.
  abbrev pub first_count : (offset len : ℕ) → ℕ
  first_count offset len = if offset % blocksize == 0 then len else blocksize

  write_first_lem :
      (src : List ℕ) (offset b : ℕ) (d : D)
      → AllBelow (2 ^ 8) src
      → offset % blocksize + length src ≤ blocksize
      → (d' : D) × (write_first disk src offset b inode d ≡ ok (first_count offset (length src)) d')
        × (reliable.sector d' b ≡ patched (offset % blocksize) src (reliable.sector d b))
        × ((t : ℕ) → t ≢ b → reliable.sector d' t ≡ reliable.sector d t)
  unfolding write_first
  write_first_lem src offset b d bytes fits = elim (Bool-cases (offset % blocksize == 0)) [
    | inl aligned ↦
        let start : offset % blocksize ≡ 0 = (==_iff (offset % blocksize) 0).0 aligned in
        let count : min blocksize (length src) ≡ length src = omega arith in
        let (d', run, here, there) = reliable.writes src b d (omega arith) bytes in
        let whole : take (min blocksize (length src)) src ≡ src =
          take_past (min blocksize (length src)) src (omega arith) in
        let ahead : length src ≡ 0 + length src = omega arith in
        (
          d',
          rw (aligned, whole) (ap from_disk run),
          here
              ∙ ap (λ k. src ++ drop k (reliable.sector d b)) ahead
              ∙ ap (λ k. patched k src (reliable.sector d b)) (sym start),
          there,
        )
    | inr within ↦
        let block = reliable.sector d b in
        let size = reliable.sector_length d b in
        let new = patched-overwrite (offset % blocksize) src block (omega arith) in
        let (total, new_bytes) =
          patched_fits (offset % blocksize) src block (omega arith) bytes
            (reliable.sector_bytes d b) in
        let (d', run, here, there) =
          write_sector reliable (patched (offset % blocksize) src block) b d (total ∙ size)
            new_bytes in
        (
          d',
          rw within (
              bind_ok (disk_read disk inode.device zero_block b) _
                (read_sector reliable zero_block b d (length-replicate {A = ℕ} 512 0))
                (ap (λ bs. disk_write disk inode.device bs b d) new ∙ run)),
          here,
          there,
        )
  ]

  pub bmap_or_alloc-mapped :
      (j : ℕ) (d : D)
      → get_or inode.blocks j 0 ≢ 0
      → bmap_or_alloc disk j (inode, d) ≡ ok (get_or inode.blocks j 0) (inode, d)
  unfolding bmap_or_alloc
  bmap_or_alloc-mapped j d mapped =
      let inside : ltb j (length inode.blocks) ≡ true =
        lt→ltb j (length inode.blocks) (lt-get_or inode.blocks j mapped) in
      let used : (get_or inode.blocks j 0 == 0) ≡ false = ground arith in rw (inside, used) refl

  -- The inode after a write inside one block: its size grows by the whole length of the buffer as
  -- soon as the offset after the first block is behind the end of the file.
  abbrev pub grown : (offset len : ℕ) → Inode
  grown offset len =
      if ltb inode.size (offset + first_count offset len)
      then record inode { size = inode.size + len }
      else inode

  pub on_disk-ok :
      {A : Type 0} (m : Fs D A) {a : A} {d d' : D}
      → m d ≡ ok a d'
      → on_disk disk m (inode, d) ≡ ok a (inode, d')
  on_disk-ok m e = rw (on_disk, e) refl

  write_rest-early :
      (src : List ℕ) (offset : ℕ) (d : D)
      → offset % blocksize + length src ≤ blocksize
      → write_rest disk src (length src) (offset + first_count offset (length src)) (inode, d)
        ≡ ok (length src) (grown offset (length src), d)
  unfolding write_rest
  write_rest-early src offset d fits =
      let early : leb (length src) (offset + first_count offset (length src)) ≡ true =
        ground arith in
      rw early refl

  -- On a disk without faults, a write that stays inside one mapped block replaces just the bytes of
  -- the buffer there, changes no other sector, and leaves the inode `grown`.
  pub write-one_block :
      (src : List ℕ) (offset : ℕ) (d : D)
      → is_unused inode ≡ false
      → AllBelow (2 ^ 8) src
      → offset ≤ inode.size
      → offset + length src ≤ 2 ^ 15
      → offset % blocksize + length src ≤ blocksize
      → get_or inode.blocks (offset / blocksize) 0 ≢ 0
      → (d' : D) × (write disk src offset (inode, d)
          ≡ ok (length src) (grown offset (length src), d'))
        × (reliable.sector d' (get_or inode.blocks (offset / blocksize) 0)
            ≡ patched
                (offset % blocksize)
                src
                (reliable.sector d (get_or inode.blocks (offset / blocksize) 0)))
        × ((t : ℕ)
            → t ≢ get_or inode.blocks (offset / blocksize) 0
            → reliable.sector d' t ≡ reliable.sector d t)
  unfolding write
  write-one_block src offset d typed bytes inside small fits mapped =
      let b = get_or inode.blocks (offset / blocksize) 0 in
      let len = length src in
      let (d', run, here, there) = write_first_lem src offset b d bytes fits in
      let full : u32 len ≡ len = omega arith in
      let legal : (ltb (u32 (offset + len)) offset || ltb inode.size offset) ≡ false =
        ground arith in
      let fits_file : ltb (2 ^ 15) (len + offset) ≡ false = ground arith in
      let rest : ℕ → Fs (Inode × D) ℕ = λ written. write_rest disk src len (offset + written) in
      (
        d',
        rw (typed, full, legal, fits_file)
            (bind_ok (bmap_or_alloc disk (offset / blocksize))
              (λ blockaddr. get_inode disk >>= λ mapped'.
                on_disk disk (write_first disk src offset blockaddr mapped') >>= rest)
              (bmap_or_alloc-mapped (offset / blocksize) d mapped)
              (bind_ok (on_disk disk (write_first disk src offset b inode)) rest
                (on_disk-ok (write_first disk src offset b inode) run)
                (write_rest-early src offset d' fits))),
        here,
        there,
      )
