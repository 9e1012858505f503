-- ===== src/SimpleFs/WriteNew.antt =====
-- `write` of lib/simple_fs/src/lib.rs at the start of a file that has no first block yet: the block
-- that it allocates.
use sprocket.Base.{
  ℕ, ◌+◌, ◌^◌, ◌≤◌, ◌<◌, ◌≡◌, ◌≢◌, refl, sym, ap, ◌∙◌, true, false, ◌||◌, List, ltb, arith, length,
  get_or, set, get_or-set_self, u32,
}
use sprocket.SimpleFs.Types.{Disk, Fs, ok, ◌>>=◌, bind_ok, Inode}
use sprocket.SimpleFs.Layout.{to_words}
use sprocket.SimpleFs.Blocks.{alloc_block}
use sprocket.SimpleFs.Inodes.{is_unused}
use sprocket.SimpleFs.Files.{bmap_or_alloc, on_disk, get_inode, write_first, write_rest, write}
use sprocket.SimpleFs.Reliable.{Reliable, words}
use sprocket.SimpleFs.FreeList.{NotIn, FreeFrom-frame}
use sprocket.SimpleFs.AllocBlock.{IsFreeList}
use sprocket.SimpleFs.WriteFile.{bmap_or_alloc-mapped, on_disk-ok}

module _ {D : Type 0} {disk : Disk D} {device : ℕ} (reliable : Reliable disk device) where
  -- A sector outside of the free list does not matter to it.
  pub IsFreeList-frame :
      (d d' : D) (b : ℕ) (free : List ℕ)
      → IsFreeList reliable d free
      → b ≢ 0
      → NotIn b free
      → ((t : ℕ) → t ≢ b → reliable.sector d' t ≡ reliable.sector d t)
      → IsFreeList reliable d' free
  unfolding words
  IsFreeList-frame d d' b free list b≢0 out same =
      let head : get_or (words reliable d' 0) 4 0 ≡ get_or (words reliable d 0) 4 0 =
        ap (λ bytes. get_or (to_words bytes) 4 0) (same 0 (λ e. b≢0 (sym e))) in
      let apart : NotIn b _ = rw list.lists out in
      record {
        groups = list.groups;
        starts = rw head (
            FreeFrom-frame (words reliable d) (words reliable d') b b
              (λ t tb tb'. ap to_words (same t tb)) _ list.groups apart apart list.starts);
        lists = list.lists;
        distinct = list.distinct;
      }

module _ {D : Type 0} {disk : Disk D} (inode : Inode) (reliable : Reliable disk inode.device) where
  -- The inode with this first block.
  abbrev pub with_first : ℕ → Inode
  with_first b = record inode { blocks = set inode.blocks 0 b }

  bmap_or_alloc_new :
      (b : ℕ) (d d1 : D)
      → 0 < length inode.blocks
      → get_or inode.blocks 0 0 ≡ 0
      → alloc_block disk inode.device d ≡ ok b d1
      → bmap_or_alloc disk 0 (inode, d) ≡ ok b (with_first b, d1)
  unfolding bmap_or_alloc
  bmap_or_alloc_new b d d1 some_blocks unmapped run =
      let inside : ltb 0 (length inode.blocks) ≡ true = ground arith in
      rw (inside, unmapped)
        (bind_ok (on_disk disk (alloc_block disk inode.device)) _
          (on_disk-ok inode reliable (alloc_block disk inode.device) run) refl)

  -- A write to the start of a file without a first block goes as if the block that is allocated
  -- had been there.
  pub write_new :
      (src : List ℕ) (b : ℕ) (d d1 : D)
      → is_unused inode ≡ false
      → length src ≤ 2 ^ 15
      → 0 < length inode.blocks
      → get_or inode.blocks 0 0 ≡ 0
      → b ≢ 0
      → alloc_block disk inode.device d ≡ ok b d1
      → write disk src 0 (inode, d) ≡ write disk src 0 (with_first b, d1)
  unfolding write
  write_new src b d d1 typed small some_blocks unmapped b≢0 run =
      let len = length src in
      let full : u32 len ≡ len = omega arith in
      let legal : (ltb (u32 (0 + len)) 0 || ltb inode.size 0) ≡ false = ground arith in
      let fits_file : ltb (2 ^ 15) (len + 0) ≡ false = ground arith in
      let here : get_or (set inode.blocks 0 b) 0 0 ≡ b =
        get_or-set_self inode.blocks 0 b 0 some_blocks in
      let mapped : get_or (with_first b).blocks 0 0 ≢ 0 = λ e. b≢0 (sym here ∙ e) in
      let again : bmap_or_alloc disk 0 (with_first b, d1) ≡ ok b (with_first b, d1) =
        bmap_or_alloc-mapped (with_first b) reliable 0 d1 mapped
        ∙ ap (λ a. ok a (with_first b, d1)) here in
      let rest : ℕ → Fs (Inode × D) ℕ = λ written. write_rest disk src len (0 + written) in
      let k : ℕ → Fs (Inode × D) ℕ = λ blockaddr. get_inode disk >>= λ mapped'.
      on_disk disk (write_first disk src 0 blockaddr mapped') >>= rest in
      rw (typed, full, legal, fits_file)
        (bind_ok (bmap_or_alloc disk 0) k {s = (inode, d)}
            (bmap_or_alloc_new b d d1 some_blocks unmapped run) refl
          ∙ sym (bind_ok (bmap_or_alloc disk 0) k {s = (with_first b, d1)} again refl))
