-- ===== src/SimpleFs/WriteRead.antt =====
-- `write` and then `read` of lib/simple_fs/src/lib.rs, at the start of a file.
use sprocket.Base.{
  ℕ, ◌+◌, ◌-◌, ◌*◌, ◌^◌, ◌≤◌, ◌<◌, ◌≡◌, ◌≢◌, refl, ap, ◌∙◌, inl, inr, Bool-cases, false, List, ◌++◌,
  arith, length, get_or, take, drop, ltb, take-append, drop_past, zero, suc,
}
use mathlib.Core.List.{append-nil}
use sprocket.SimpleFs.Types.{Disk, ok, blocksize, Inode}
use sprocket.SimpleFs.Layout.{AllBelow}
use sprocket.SimpleFs.Inodes.{is_unused}
use sprocket.SimpleFs.Files.{read, write}
use sprocket.SimpleFs.Reliable.{Reliable}
use sprocket.SimpleFs.ReadFile.{contents, take-contents}
use sprocket.SimpleFs.ReadResults.{read_start, ok-pair}
use sprocket.SimpleFs.WriteFile.{grown, write-one_block}

module _ {D : Type 0} {disk : Disk D} (inode : Inode) (reliable : Reliable disk inode.device) where
  first_mapped :
      (len : ℕ)
      → len ≤ blocksize
      → get_or inode.blocks 0 0 ≢ 0
      → (i : ℕ) → i * blocksize < 0 * blocksize + len
      → get_or inode.blocks i 0 ≢ 0
  first_mapped len fits mapped zero h = mapped
  first_mapped len fits mapped (suc i) h = absurd (omega arith)

  not_behind : (size next : ℕ) → ltb size next ≡ false → next ≤ size
  not_behind size next h = ground arith

  -- A file whose first block begins with some bytes reads as them.
  pub read_back :
      (src dst rest : List ℕ) (size : ℕ) (d : D)
      → is_unused inode ≡ false
      → length src ≤ size
      → 0 < length src
      → length src ≤ blocksize
      → length dst ≡ length src
      → get_or inode.blocks 0 0 ≢ 0
      → reliable.sector d (get_or inode.blocks 0 0) ≡ src ++ rest
      → read disk (record inode { size = size }) dst 0 d ≡ ok (src, length src) d
  read_back src dst rest size d typed enough some_bytes fits same mapped block =
      let inode' = record inode { size = size } in
      let block_bytes = reliable.sector d (get_or inode.blocks 0 0) in
      let later = contents inode' reliable d (drop 1 inode.blocks) in
      let none_after : length src - blocksize ≡ 0 = omega arith in
      let front : take (length src) block_bytes ≡ src =
        ap (take (length src)) block ∙ take-append (length src) src rest refl in
      let bytes : take (length src) (contents inode' reliable d inode.blocks)
            ++ drop (length src) dst
          ≡ src =
        ap (λ xs. xs ++ drop (length src) dst)
          (take-contents inode' reliable (length src) 0 d mapped
            ∙ ap (λ k. take (length src) block_bytes ++ take k later) none_after
            ∙ append-nil (take (length src) block_bytes)
            ∙ front)
        ∙ ap (λ ys. src ++ ys) (drop_past (length src) dst (omega arith))
        ∙ append-nil src in
      read_start inode' reliable dst (length src) d typed (omega arith) (omega arith) some_bytes
        (first_mapped (length src) fits mapped)
      ∙ ok-pair inode' reliable d bytes refl

  -- On a disk without faults, what is written to the start of a file whose first block is mapped,
  -- up to a block of bytes, is what a read of as many bytes returns, through the inode that the
  -- write left.
  pub write-read :
      (src dst : List ℕ) (d : D)
      → is_unused inode ≡ false
      → AllBelow (2 ^ 8) src
      → 0 < length src
      → length src ≤ blocksize
      → length dst ≡ length src
      → get_or inode.blocks 0 0 ≢ 0
      → (d' : D) × (inode' : Inode) × (write disk src 0 (inode, d) ≡ ok (length src) (inode', d'))
        × (read disk inode' dst 0 d' ≡ ok (src, length src) d')
  write-read src dst d typed bytes some_bytes fits same mapped =
      let (d', run, here, there) =
        write-one_block inode reliable src 0 d typed bytes (omega arith) (omega arith) (omega arith)
          mapped in
      let back = drop (0 + length src) (reliable.sector d (get_or inode.blocks 0 0)) in
      (
        d',
        grown inode reliable 0 (length src),
        run,
        elim (Bool-cases (ltb inode.size (0 + length src))) [
          | inl grows ↦ rw grows (
              read_back src dst back (inode.size + length src) d' typed (omega arith) some_bytes
                fits same mapped here)
          | inr stays ↦ rw stays (
              read_back src dst back inode.size d' typed
                (omega (arith, not_behind inode.size (0 + length src) stays)) some_bytes fits same
                mapped here)
        ],
      )
