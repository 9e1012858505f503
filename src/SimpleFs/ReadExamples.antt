-- ===== src/SimpleFs/ReadExamples.antt =====
-- A file of two blocks on the disk in memory, and the theorems about `read` and `write` at it.
use sprocket.Base.{
  ◌≢◌, ℕ, zero, suc, ◌≡◌, refl, List, ◌∷◌, ◌++◌, arith, take, drop, replicate, if◌then◌else◌, ◌==◌,
  [],
}
use sprocket.SimpleFs.Types.{ok, file, Inode}
use sprocket.SimpleFs.Files.{read, write}
use sprocket.SimpleFs.WriteFile.{patched, write-one_block}
use sprocket.SimpleFs.WriteRead.{write-read}
use sprocket.SimpleFs.ReadFile.{contents, Mapped}
use sprocket.SimpleFs.ReadResults.{read_start, read_first_only}
use sprocket.SimpleFs.MemoryDisk.{Store, memory_disk, memory_reliable, stored_sector}

abbrev two_blocks : Inode
two_blocks = record {
  type_ = file;
  device = 1;
  major = 0;
  minor = 0;
  size = 600;
  blocks = 90 ∷ 91 ∷ replicate 62 0;
}

abbrev text : Store
text s = if s == 90 then b'a' ∷ b'b' ∷ [] else if s == 91 then b'c' ∷ [] else []

two_blocks-Mapped : Mapped two_blocks memory_reliable 0 600
two_blocks-Mapped zero h = λ e. omega arith
two_blocks-Mapped (suc zero) h = λ e. omega arith
two_blocks-Mapped (suc (suc i)) h = absurd (omega arith)

abbrev buffer : ℕ → List ℕ
buffer n = replicate n 1

read_start_example :
    read memory_disk two_blocks (buffer 700) 0 text
    ≡ ok
        (
          take 600 (contents two_blocks memory_reliable text two_blocks.blocks)
              ++ drop 600 (buffer 700),
          600,
        )
        text
read_start_example =
    read_start two_blocks memory_reliable (buffer 700) 600 text refl (omega arith) refl
      (omega arith) two_blocks-Mapped

-- a directory entry that lies across two blocks
read_first_only_example :
    read memory_disk two_blocks (buffer 260) 260 text
    ≡ ok (take 252 (drop 260 (stored_sector text 90)) ++ drop 252 (buffer 260), 260) text
read_first_only_example =
    read_first_only two_blocks memory_reliable (buffer 260) 260 260 text refl (omega arith)
      (omega arith) refl (λ e. omega arith) (omega arith)

-- Three bytes in the middle of the file, and yet its size is larger afterwards.
write-one_block_example :
    (d' : Store) × (write memory_disk (7 ∷ 8 ∷ 9 ∷ []) 300 (two_blocks, text)
      ≡ ok 3 (record two_blocks { size = 603 }, d'))
    × (stored_sector d' 90 ≡ patched 300 (7 ∷ 8 ∷ 9 ∷ []) (stored_sector text 90))
    × ((t : ℕ) → t ≢ 90 → stored_sector d' t ≡ stored_sector text t)
write-one_block_example =
    write-one_block two_blocks memory_reliable (7 ∷ 8 ∷ 9 ∷ []) 300 text refl
      (omega arith, (omega arith, (omega arith, tt))) (omega arith) (omega arith) (omega arith)
      (λ e. omega arith)

write-read_example :
    (d' : Store) × (inode' : Inode) × (write memory_disk (7 ∷ 8 ∷ 9 ∷ []) 0 (two_blocks, text)
      ≡ ok 3 (inode', d'))
    × (read memory_disk inode' (buffer 3) 0 d' ≡ ok (7 ∷ 8 ∷ 9 ∷ [], 3) d')
write-read_example =
    write-read two_blocks memory_reliable (7 ∷ 8 ∷ 9 ∷ []) (buffer 3) text refl
      (omega arith, (omega arith, (omega arith, tt))) (omega arith) (omega arith) refl
      (λ e. omega arith)
