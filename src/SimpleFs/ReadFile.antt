-- ===== src/SimpleFs/ReadFile.antt =====
-- `read` of lib/simple_fs/src/lib.rs on a disk without faults.
use sprocket.Base.{
  ℕ, zero, suc, ◌+◌, ◌-◌, ◌*◌, ◌/◌, ◌%◌, ◌^◌, ◌≤◌, ◌<◌, ◌≡◌, ◌≢◌, refl, sym, ap, ◌∙◌, ◌⊎◌, inl, inr,
  true, false, ◌||◌, List, [], ◌∷◌, ◌++◌, ◌==◌, ltb, lt→ltb, if◌then◌else◌, arith, length, get_or,
  take, drop, min, u32, drop-get_or, lt-get_or, take_past, drop_past, take_append_le, length-take,
  length-drop, length-replicate,
}
use sprocket.SimpleFs.Types.{Disk, ok, bind_ok, from_disk, blocksize, Inode}
use sprocket.SimpleFs.Blocks.{zero_block, disk_read}
use sprocket.SimpleFs.Inodes.{is_unused}
use sprocket.SimpleFs.Files.{overwrite, chunks, bmap, read_chunks, read_rest, read}
use sprocket.SimpleFs.Reliable.{Reliable, read_sector}

pub le-or-gt : (a b : ℕ) → (a ≤ b) ⊎ (b < a)
le-or-gt a b = ground arith

pub overwrite_lem :
    (buffer bytes : List ℕ)
    → overwrite buffer bytes ≡ take (length buffer) bytes ++ drop (length bytes) buffer
unfolding overwrite
overwrite_lem [] [] = refl
overwrite_lem [] (x ∷ bytes) = refl
overwrite_lem (b ∷ buffer) [] = refl
overwrite_lem (b ∷ buffer) (x ∷ bytes) = ap (λ ys. x ∷ ys) (overwrite_lem buffer bytes)

chunks-nil : (n : ℕ) → chunks n [] ≡ []
unfolding chunks
chunks-nil zero = refl
chunks-nil (suc n) = refl

module _ {D : Type 0} {disk : Disk D} (inode : Inode) (reliable : Reliable disk inode.device) where
  -- The sectors of some blocks, one after the other.
  abbrev pub contents : D → List ℕ → List ℕ
  contents d [] = []
  contents d (b ∷ bs) = reliable.sector d b ++ contents d bs

  bmap-mapped :
      (j : ℕ) (d : D)
      → get_or inode.blocks j 0 ≢ 0
      → bmap disk inode j d ≡ ok (get_or inode.blocks j 0) d
  unfolding bmap
  bmap-mapped j d mapped =
      let inside : ltb j (length inode.blocks) ≡ true =
        lt→ltb j (length inode.blocks) (lt-get_or inode.blocks j mapped) in
      let used : (get_or inode.blocks j 0 == 0) ≡ false = ground arith in rw (inside, used) refl

  read_chunks-nil : (offset : ℕ) (d : D) → read_chunks disk inode [] offset d ≡ ok [] d
  unfolding read_chunks
  read_chunks-nil offset d = refl

  read_prefix :
      (buffer : List ℕ) (s : ℕ) (d : D)
      → length buffer ≤ blocksize
      → disk_read disk inode.device buffer s d ≡ ok (take (length buffer) (reliable.sector d s)) d
  read_prefix buffer s d h = ap from_disk (reliable.reads buffer s d h)

  -- The bytes from block j on, as the one block and the later ones.
  pub take-contents :
      (k j : ℕ) (d : D)
      → get_or inode.blocks j 0 ≢ 0
      → take k (contents d (drop j inode.blocks))
        ≡ take k (reliable.sector d (get_or inode.blocks j 0))
          ++ take (k - blocksize) (contents d (drop (suc j) inode.blocks))
  take-contents k j d here =
      let b = get_or inode.blocks j 0 in
      ap (λ bs. take k (contents d bs))
        (drop-get_or inode.blocks j 0 (lt-get_or inode.blocks j here))
      ∙ take_append_le k (reliable.sector d b) (contents d (drop (suc j) inode.blocks))
      ∙ ap
          (λ n.
            take k (reliable.sector d b) ++ take (k - n) (contents d (drop (suc j) inode.blocks)))
          (reliable.sector_length d b)

  abbrev pub Mapped : (j k : ℕ) → Type 0
  Mapped j k = (i : ℕ) → i * blocksize < j * blocksize + k → get_or inode.blocks i 0 ≢ 0

  last_chunk :
      (n j : ℕ) (chunk : List ℕ) (d : D)
      → length chunk ≤ blocksize
      → get_or inode.blocks j 0 ≢ 0
      → read_chunks disk inode (chunk ∷ chunks n []) (j * blocksize) d
        ≡ ok (take (length chunk) (contents d (drop j inode.blocks))) d
  unfolding read_chunks
  last_chunk n j chunk d last here =
      let index : j * blocksize / blocksize ≡ j = omega arith in
      let none_after : length chunk - blocksize ≡ 0 = omega arith in
      let bytes : take (length chunk) (reliable.sector d (get_or inode.blocks j 0)) ++ []
          ≡ take (length chunk) (contents d (drop j inode.blocks)) =
        sym (
          take-contents (length chunk) j d here
          ∙ ap
              (λ k.
                take (length chunk) (reliable.sector d (get_or inode.blocks j 0))
                ++ take k (contents d (drop (suc j) inode.blocks)))
              none_after) in
      rw (index, chunks-nil n)
        (bind_ok (bmap disk inode j) _ (bmap-mapped j d here) (
          bind_ok (disk_read disk inode.device chunk (get_or inode.blocks j 0)) _
            (read_prefix chunk (get_or inode.blocks j 0) d last) (ap (λ r. ok r d) bytes)))

  full_chunk :
      (j more : ℕ) (chunk : List ℕ) (later : List (List ℕ)) (d : D)
      → length chunk ≡ blocksize
      → get_or inode.blocks j 0 ≢ 0
      → read_chunks disk inode later (suc j * blocksize) d
        ≡ ok (take more (contents d (drop (suc j) inode.blocks))) d
      → read_chunks disk inode (chunk ∷ later) (j * blocksize) d
        ≡ ok (take (blocksize + more) (contents d (drop j inode.blocks))) d
  unfolding read_chunks
  full_chunk j more chunk later d full here run =
      let b = get_or inode.blocks j 0 in
      let rest = contents d (drop (suc j) inode.blocks) in
      let index : j * blocksize / blocksize ≡ j = omega arith in
      let next : j * blocksize + length chunk ≡ suc j * blocksize = omega arith in
      let count : blocksize + more - blocksize ≡ more = omega arith in
      let sector : take (length chunk) (reliable.sector d b)
          ≡ take (blocksize + more) (reliable.sector d b) =
        take_past (length chunk) (reliable.sector d b) (omega (arith, reliable.sector_length d b))
        ∙ sym (
            take_past (blocksize + more) (reliable.sector d b)
              (omega (arith, reliable.sector_length d b))) in
      let bytes : take (length chunk) (reliable.sector d b) ++ take more rest
          ≡ take (blocksize + more) (contents d (drop j inode.blocks)) =
        ap (λ xs. xs ++ take more rest) sector
        ∙ sym (
            take-contents (blocksize + more) j d here
            ∙ ap (λ k. take (blocksize + more) (reliable.sector d b) ++ take k rest) count) in
      rw (index, next)
        (bind_ok (bmap disk inode j) _ (bmap-mapped j d here) (
          bind_ok (disk_read disk inode.device chunk b) _ (read_prefix chunk b d (omega arith)) (
            bind_ok (read_chunks disk inode later (suc j * blocksize)) _ run
              (ap (λ r. ok r d) bytes))))

  pub read_chunks_lem :
      (n j : ℕ) (buf : List ℕ) (d : D)
      → length buf ≤ n
      → Mapped j (length buf)
      → read_chunks disk inode (chunks n buf) (j * blocksize) d
        ≡ ok (take (length buf) (contents d (drop j inode.blocks))) d
  unfolding chunks
  read_chunks_lem zero j [] d h mapped = read_chunks-nil (j * blocksize) d
  read_chunks_lem zero j (x ∷ buf) d h mapped = absurd (omega arith)
  read_chunks_lem (suc n) j [] d h mapped = read_chunks-nil (j * blocksize) d
  read_chunks_lem (suc n) j (x ∷ buf) d h mapped =
      let bytes = x ∷ buf in
      let here : get_or inode.blocks j 0 ≢ 0 = mapped j (omega arith) in
      elim (le-or-gt (length bytes) blocksize) [
        | inl last ↦
            rw (take_past blocksize bytes last, drop_past blocksize bytes last)
              (last_chunk n j bytes d last here)
        | inr more ↦
            let size : length (drop blocksize bytes) ≡ length bytes - blocksize =
              length-drop blocksize bytes in
            let total : blocksize + length (drop blocksize bytes) ≡ length bytes =
              omega (arith, size) in
            full_chunk j (length (drop blocksize bytes)) (take blocksize bytes)
              (chunks n (drop blocksize bytes)) d (length-take blocksize bytes ∙ omega arith) here
              (read_chunks_lem n (suc j) (drop blocksize bytes) d (omega (arith, size))
                (λ i below. mapped i (omega (arith, total))))
            ∙ ap (λ k. ok (take k (contents d (drop j inode.blocks))) d) total
      ]

  -- `read` up to its first block.
  pub read_first :
      (dst : List ℕ) (offset len : ℕ) (d : D)
      → is_unused inode ≡ false
      → offset ≤ inode.size
      → offset + length dst < 2 ^ 32
      → len ≡ min (inode.size - offset) (length dst)
      → get_or inode.blocks (offset / blocksize) 0 ≢ 0
      → read disk inode dst offset d
        ≡ read_rest disk inode
            (overwrite (take len dst) (
              drop
                (offset % blocksize)
                (reliable.sector d (get_or inode.blocks (offset / blocksize) 0))))
            (drop len dst)
            (offset + (blocksize - offset % blocksize))
            d
  unfolding read
  read_first dst offset len d typed inside fits short here =
      let b = get_or inode.blocks (offset / blocksize) 0 in
      let full : u32 (length dst) ≡ length dst = omega arith in
      let size : (if ltb inode.size (offset + length dst) then inode.size - offset else length dst)
          ≡ len =
        ground arith in
      let legal : (ltb inode.size offset || ltb (u32 (offset + length dst)) offset) ≡ false =
        ground arith in
      let count : length (drop (offset % blocksize) (reliable.sector d b))
          ≡ blocksize - offset % blocksize =
        omega (
          arith,
          length-drop (offset % blocksize) (reliable.sector d b),
          reliable.sector_length d b,
        ) in
      rw (typed, full, legal, size)
        (bind_ok (bmap disk inode (offset / blocksize)) _ (bmap-mapped (offset / blocksize) d here)
          (bind_ok (disk_read disk inode.device zero_block b) _
            (read_sector reliable zero_block b d (length-replicate {A = ℕ} 512 0)) (rw count refl)))
