-- ===== src/Mkfs/Examples.antt =====
-- lib/simple_fs/src/bin.rs: formatting a disk in memory, and files of the host.
use sprocket.Base.{
  ℕ, ◌+◌, ◌*◌, ◌<◌, ◌≤◌, ◌≡◌, ◌≢◌, refl, true, some, List, [], ◌∷◌, ◌++◌, ◌==◌, if◌then◌else◌,
  length, replicate, arith,
}
use sprocket.SimpleFs.Types.{ok, DiskRun, unused_inode}
use sprocket.SimpleFs.MemoryDisk.{Store, memory_disk, memory_reliable, stored_sector}
use sprocket.SimpleFs.Reliable.{Reliable, words}
use sprocket.SimpleFs.AllocBlock.{IsFreeList}
use sprocket.SimpleFs.Layout.{to_words}
use sprocket.SimpleFs.Inodes.{read_inode}
use sprocket.SimpleFs.InodeTable.{table_start}
use sprocket.SimpleFs.Dirs.{dir_lookup}
use sprocket.SimpleFs.DirLookup.{search, found}
use sprocket.Mkfs.{mkfs}
use sprocket.Mkfs.RootCalls.{root_inode, root_entries}
use sprocket.Mkfs.Format.{mkfs_lem}
use sprocket.Mkfs.DiskFile.{File, seek, read_exact, read_disk, write_disk, write_disk-read_disk}
use sprocket.Mkfs.FreeList.{blocks}

-- The disk in memory has one device, whatever its number.
abbrev any_device : Reliable memory_disk 0
any_device = record {
  sector = memory_reliable.sector;
  sector_length = memory_reliable.sector_length;
  sector_bytes = memory_reliable.sector_bytes;
  reads = memory_reliable.reads;
  writes = memory_reliable.writes;
}

-- A disk that was formatted before: its inodes start in block 1.
abbrev formatted : Store
formatted s = if s == 0 then replicate 12 0 ++ 1 ∷ 0 ∷ 0 ∷ 0 ∷ 3 ∷ [] else 7 ∷ []

formatted_start : table_start any_device formatted ≡ 1
unfolding words to_words
formatted_start = refl

mkfs_lem_example :
    (d' : Store) × (mkfs memory_disk formatted ≡ ok tt d')
    × (read_inode memory_disk 1 0 d' ≡ ok (root_inode 999) d')
    × ((i : ℕ) → 0 < i → i < 256 → read_inode memory_disk 1 i d' ≡ ok unused_inode d')
    × ((name : List ℕ)
        → dir_lookup memory_disk (root_inode 999) name d'
          ≡ found memory_disk (root_inode 999) d' (search root_entries name 0))
    × IsFreeList memory_reliable d' (blocks 257 742)
    × ((t : ℕ) → 1000 ≤ t → stored_sector d' t ≡ stored_sector formatted t)
mkfs_lem_example = mkfs_lem any_device memory_reliable (λ d s. refl) formatted formatted_start

-- Three sectors, and a host that takes every write.
abbrev three_sectors : File
three_sectors = record { bytes = replicate 1536 0; pos = 7 }

write_disk-read_disk_example :
    (f' f'' : File) × (write_disk (λ f b. true) (1 ∷ 2 ∷ []) 0 1 three_sectors
      ≡ some (DiskRun.ok 2 f'))
    × (read_disk (λ f b. true) (8 ∷ 9 ∷ []) 0 1 f' ≡ some (DiskRun.ok (1 ∷ 2 ∷ []) f''))
    × ((t : ℕ) (b : List ℕ)
        → t ≢ 1
        → (t + 1) * 512 ≤ length three_sectors.bytes
        → length b ≤ 512
        → (read_exact b (seek (t * 512) f')).0 ≡ (read_exact b (seek (t * 512) three_sectors)).0)
write_disk-read_disk_example =
    write_disk-read_disk (λ f b. true) (1 ∷ 2 ∷ []) (8 ∷ 9 ∷ []) 1 0 three_sectors (omega arith)
      refl refl

-- On a file that is too short the read is reported as a success, with the buffer as it was.
abbrev empty_file : File
empty_file = record { bytes = []; pos = 0 }

short_read :
    read_disk (λ f b. true) (8 ∷ 9 ∷ []) 0 1 empty_file
    ≡ some (DiskRun.ok (8 ∷ 9 ∷ []) (seek 512 empty_file))
unfolding read_disk
short_read = refl
