-- ===== src/SimpleFs/ReadResults.antt =====
-- What `read` of lib/simple_fs/src/lib.rs returns: from the start of a file, and where it returns
-- after the first block.
use sprocket.Base.{
  ℕ, ◌+◌, ◌-◌, ◌/◌, ◌%◌, ◌^◌, ◌≤◌, ◌<◌, ◌≡◌, ◌≢◌, refl, sym, ap, ◌∙◌, inl, inr, true, false, List,
  [], ◌++◌, leb, arith, length, get_or, take, drop, min, take_past, drop_past, take-append,
  drop-append, drop-take, length-take, length-drop, length-append,
}
use mathlib.Core.List.{append_assoc, append-nil}
use sprocket.SimpleFs.Types.{Disk, Run, ok, bind_ok, blocksize, Inode}
use sprocket.SimpleFs.Inodes.{is_unused}
use sprocket.SimpleFs.Files.{overwrite, read_chunks, read_rest, read, block_chunks}
use sprocket.SimpleFs.Reliable.{Reliable}
use sprocket.SimpleFs.ReadFile.{
  le-or-gt, overwrite_lem, contents, Mapped, read_chunks_lem, read_first, take-contents,
}

module _ {D : Type 0} {disk : Disk D} (inode : Inode) (reliable : Reliable disk inode.device) where
  overwritten :
      (bytes dst : List ℕ) (len m : ℕ)
      → length bytes ≡ m
      → take len bytes ++ drop (length bytes) (take len dst) ++ drop len dst
        ≡ take (min len m) bytes ++ drop (min len m) dst
  overwritten bytes dst len m size = elim (le-or-gt len m) [
    | inl short ↦
        let least : len ≡ min len m = omega arith in
        let nothing : drop (length bytes) (take len dst) ≡ [] =
          drop_past (length bytes) (take len dst) (omega (arith, length-take len dst)) in
        ap (λ ys. take len bytes ++ ys ++ drop len dst) nothing
        ∙ ap (λ xs. xs ++ drop len dst) (append-nil (take len bytes))
        ∙ ap (λ k. take k bytes ++ drop k dst) least
    | inr long ↦
        let least : length bytes ≡ min len m = omega arith in
        let whole : take len bytes ≡ take (length bytes) bytes =
          take_past len bytes (omega arith) ∙ sym (take_past (length bytes) bytes (omega arith)) in
        append_assoc (take len bytes) (drop (length bytes) (take len dst)) (drop len dst)
        ∙ ap (λ ys. take len bytes ++ ys) (drop-take (length bytes) len dst (omega arith))
        ∙ ap (λ xs. xs ++ drop (length bytes) dst) whole
        ∙ ap (λ k. take k bytes ++ drop k dst) least
  ]

  read_rest-early :
      (short untouched : List ℕ) (next : ℕ) (d : D)
      → length short ≤ next
      → read_rest disk inode short untouched next d ≡ ok (short ++ untouched, length short) d
  unfolding read_rest
  read_rest-early short untouched next d h =
      let early : leb (length short) next ≡ true = ground arith in rw early refl

  read_rest-chunks :
      (front back untouched : List ℕ) (d : D)
      → length front ≡ blocksize
      → 0 < length back
      → Mapped inode reliable 1 (length back)
      → read_rest disk inode (front ++ back) untouched blocksize d
        ≡ ok
            (
              front
                  ++ take (length back) (contents inode reliable d (drop 1 inode.blocks))
                  ++ untouched,
              length front + length back,
            )
            d
  unfolding read_rest
  read_rest-chunks front back untouched d size some_left mapped =
      let total : length (front ++ back) ≡ length front + length back = length-append front back in
      let late : leb (length front + length back) 512 ≡ false = ground arith in
      let whole : leb 512 (length front + length back) ≡ true = ground arith in
      rw (total, late, whole, drop-append 512 front back size, take-append 512 front back size)
        (bind_ok (read_chunks disk inode (block_chunks back) 512) _
          (read_chunks_lem inode reliable (length back) 1 back d (omega arith) mapped) refl)

  abbrev pub result : List ℕ → ℕ → D → Run D (List ℕ × ℕ)
  result bytes n d = ok (bytes, n) d

  pub ok-pair : (d : D) {xs ys : List ℕ} {m n : ℕ} → xs ≡ ys → m ≡ n → result xs m d ≡ result ys n d
  ok-pair d e e' = rw (e, e') refl

  -- What the buffer holds after the first block.
  first_block :
      (dst bytes : List ℕ) (len : ℕ)
      → len ≤ length dst
      → overwrite (take len dst) bytes ≡ take len bytes ++ drop (length bytes) (take len dst)
  first_block dst bytes len h =
      let size : length (take len dst) ≡ len = length-take len dst ∙ omega arith in
      overwrite_lem (take len dst) bytes
      ∙ ap (λ n. take n bytes ++ drop (length bytes) (take len dst)) size

  -- From its start, a file is read as the bytes of its blocks in order, as many as the file and the
  -- buffer both have; the rest of the buffer stays. The file is not empty, its blocks are mapped as
  -- far as they are read, and the disk has no faults.
  pub read_start :
      (dst : List ℕ) (len : ℕ) (d : D)
      → is_unused inode ≡ false
      → length dst < 2 ^ 32
      → len ≡ min inode.size (length dst)
      → 0 < len
      → Mapped inode reliable 0 len
      → read disk inode dst 0 d
        ≡ ok (take len (contents inode reliable d inode.blocks) ++ drop len dst, len) d
  read_start dst len d typed fits short h mapped =
      let here : get_or inode.blocks 0 0 ≢ 0 = mapped 0 (omega arith) in
      let bytes = reliable.sector d (get_or inode.blocks 0 0) in
      let back = drop (length bytes) (take len dst) in
      let rest = contents inode reliable d (drop 1 inode.blocks) in
      let full : length bytes ≡ blocksize = reliable.sector_length d (get_or inode.blocks 0 0) in
      let size : length (take len dst) ≡ len = length-take len dst ∙ omega arith in
      let back_size : length back ≡ len - blocksize =
        length-drop (length bytes) (take len dst) ∙ omega arith in
      let first = first_block dst bytes len (omega arith) in
      let total : length (take len bytes ++ back) ≡ len =
        omega (arith, length-append (take len bytes) back, length-take len bytes) in
      read_first inode reliable dst 0 len d typed (omega arith) (omega arith) (omega arith) here
      ∙ ap (λ buf. read_rest disk inode buf (drop len dst) blocksize d) first
      ∙ elim (le-or-gt len blocksize) [
        | inl last ↦
            let nothing : back ≡ [] =
              drop_past (length bytes) (take len dst) (omega (arith, size, full)) in
            let none_after : len - blocksize ≡ 0 = omega arith in
            let last_bytes : take len bytes ++ back
                ≡ take len (contents inode reliable d inode.blocks) =
              ap (λ ys. take len bytes ++ ys) nothing
              ∙ sym (
                  take-contents inode reliable len 0 d here
                  ∙ ap (λ k. take len bytes ++ take k rest) none_after) in
            read_rest-early (take len bytes ++ back) (drop len dst) blocksize d
              (omega (arith, total))
            ∙ ok-pair d (ap (λ xs. xs ++ drop len dst) last_bytes) total
        | inr more ↦
            let more_bytes : bytes ++ take (length back) rest
                ≡ take len (contents inode reliable d inode.blocks) =
              ap (λ k. bytes ++ take k rest) back_size
              ∙ sym (
                  take-contents inode reliable len 0 d here
                  ∙ ap (λ xs. xs ++ take (len - blocksize) rest)
                      (take_past len bytes (omega (arith, full)))) in
            ap (λ xs. read_rest disk inode (xs ++ back) (drop len dst) blocksize d)
              (take_past len bytes (omega (arith, full)))
            ∙ read_rest-chunks bytes back (drop len dst) d full (omega (arith, back_size))
                (λ i below. mapped i (omega (arith, back_size)))
            ∙ ok-pair d (ap (λ xs. xs ++ drop len dst) more_bytes) (omega (arith, full, back_size))
      ]

  -- Where the offset behind the first block is at least the number of bytes, only the first block
  -- is read: the bytes that should come from the next blocks stay as they were in the buffer, and
  -- the result counts them too. The first block is mapped, and the disk has no faults.
  pub read_first_only :
      (dst : List ℕ) (offset len : ℕ) (d : D)
      → is_unused inode ≡ false
      → offset ≤ inode.size
      → offset + length dst < 2 ^ 32
      → len ≡ min (inode.size - offset) (length dst)
      → get_or inode.blocks (offset / blocksize) 0 ≢ 0
      → len ≤ offset + (blocksize - offset % blocksize)
      → read disk inode dst offset d
        ≡ ok
            (
              take (min len (blocksize - offset % blocksize)) (
                    drop
                      (offset % blocksize)
                      (reliable.sector d (get_or inode.blocks (offset / blocksize) 0)))
                  ++ drop (min len (blocksize - offset % blocksize)) dst,
              len,
            )
            d
  read_first_only dst offset len d typed inside fits short here early =
      let skipped = offset % blocksize in
      let bytes = drop skipped (reliable.sector d (get_or inode.blocks (offset / blocksize) 0)) in
      let count : length bytes ≡ blocksize - skipped =
        length-drop skipped (reliable.sector d (get_or inode.blocks (offset / blocksize) 0))
        ∙ omega (arith, reliable.sector_length d (get_or inode.blocks (offset / blocksize) 0)) in
      let size : length (take len dst) ≡ len = length-take len dst ∙ omega arith in
      let first = first_block dst bytes len (omega arith) in
      let total : length (take len bytes ++ drop (length bytes) (take len dst)) ≡ len = omega (
        arith,
        length-append (take len bytes) (drop (length bytes) (take len dst)),
        length-take len bytes,
        length-drop (length bytes) (take len dst),
      ) in
      read_first inode reliable dst offset len d typed inside fits short here
      ∙ ap (λ buf. read_rest disk inode buf (drop len dst) (offset + (blocksize - skipped)) d) first
      ∙ read_rest-early (take len bytes ++ drop (length bytes) (take len dst)) (drop len dst)
          (offset + (blocksize - skipped)) d (omega arith)
      ∙ ok-pair d (overwritten bytes dst len (blocksize - skipped) count) total
