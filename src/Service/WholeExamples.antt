-- ===== src/Service/WholeExamples.antt =====
-- A disk in memory with one page for src/service/mod.rs, and the theorem about reading it.
use sprocket.Base.{
  ℕ, zero, suc, ◌≡◌, ◌+◌, refl, List, [], ◌∷◌, ◌++◌, ◌==◌, arith, replicate, take, if◌then◌else◌,
}
use sprocket.SimpleFs.Types.{ok, file, directory, Inode}
use sprocket.SimpleFs.Layout.{to_words, from_words, words_inode}
use sprocket.SimpleFs.Inodes.{inodes}
use sprocket.SimpleFs.Reliable.{words}
use sprocket.SimpleFs.InodeTable.{inode_in, table_start}
use sprocket.SimpleFs.ReadFile.{contents, Mapped}
use sprocket.SimpleFs.Dirs.{dirent_bytes}
use sprocket.SimpleFs.DirEntries.{new_entry, bytes_dirent-dirent_bytes}
use sprocket.SimpleFs.DirLookup.{Entries}
use sprocket.SimpleFs.DirAdd.{search-new_entry, read_first_entry}
use sprocket.SimpleFs.MemoryDisk.{Store, memory_disk, memory_reliable}
use sprocket.Service.Files.{read_whole}
use sprocket.Service.Whole.{read_whole-contents}

abbrev page_name : List ℕ
page_name = b'p' ∷ []

-- The inodes start in block 1: the root directory, with its entry in block 7, and the page, with
-- its text in block 90.
abbrev site : Store
site s =
    if s == 0
    then replicate 12 0 ++ 1 ∷ []
    else if s == 1
    then 2 ∷ 0 ∷ 0 ∷ 0 ∷ 1 ∷ 0 ∷ 0 ∷ 0 ∷ 0 ∷ 0 ∷ 0 ∷ 0 ∷ 4 ∷ 1 ∷ 0 ∷ 0 ∷ 7 ∷ []
    else if s == 2
    then 1 ∷ 0 ∷ 0 ∷ 0 ∷ 1 ∷ 0 ∷ 0 ∷ 0 ∷ 0 ∷ 0 ∷ 0 ∷ 0 ∷ 2 ∷ 0 ∷ 0 ∷ 0 ∷ 90 ∷ []
    else if s == 7
    then dirent_bytes (new_entry page_name 1)
    else if s == 90
    then b'h' ∷ b'i' ∷ []
    else []

abbrev site_root : Inode
site_root = record {
  type_ = directory;
  device = 1;
  major = 0;
  minor = 0;
  size = 260;
  blocks = 7 ∷ replicate 63 0;
}

abbrev page : Inode
page = record {
  type_ = file;
  device = 1;
  major = 0;
  minor = 0;
  size = 2;
  blocks = 90 ∷ replicate 63 0;
}

root_stored : inode_in memory_reliable site (table_start memory_reliable site + 0) ≡ site_root
unfolding inode_in inodes words to_words words_inode
root_stored = refl

page_stored : inode_in memory_reliable site (table_start memory_reliable site + 1) ≡ page
unfolding inode_in inodes words to_words words_inode
page_stored = refl

site_root-Entries : Entries memory_disk site_root site 0 (new_entry page_name 1 ∷ [])
unfolding dirent_bytes from_words
site_root-Entries = (
  (
    _,
    read_first_entry site_root memory_reliable refl (λ e. omega arith)
        (dirent_bytes (new_entry page_name 1)) (replicate 252 0) site refl (omega arith) refl,
    bytes_dirent-dirent_bytes page_name 1 (omega arith, omega arith, tt) (omega arith)
        (omega arith),
  ),
  tt,
)

page-Mapped : Mapped page memory_reliable 0 2
page-Mapped zero h = λ e. omega arith
page-Mapped (suc i) h = absurd (omega arith)

read_whole-contents_example :
    read_whole memory_disk page_name site
    ≡ ok (take 2 (contents page memory_reliable site page.blocks)) site
read_whole-contents_example =
    read_whole-contents memory_reliable site site_root (new_entry page_name 1 ∷ []) page_name 1 0
      page memory_reliable root_stored refl refl site_root-Entries
      (search-new_entry page_name 1 (omega arith, omega arith, tt) (omega arith) (omega arith) [] 0)
      (omega arith) page_stored refl (omega arith) (omega arith) page-Mapped
