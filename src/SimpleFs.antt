-- ===== src/SimpleFs.antt =====
-- lib/simple_fs/src/lib.rs: the file system. `Types` has its data and errors, `Layout` the casts
-- between bytes and structures, and the operations follow, from blocks up to directories.
pub mod Types
pub mod Layout
pub mod Blocks
pub mod Reliable
pub mod FreeList
pub mod AllocBlock
pub mod FreeBlock
pub mod RoundTrip
pub mod MemoryDisk
mod Examples
mod ReadExamples
mod DirExamples
pub mod Inodes
pub mod InodeTable
pub mod AllocInode
pub mod Files
pub mod ReadFile
pub mod ReadResults
pub mod WriteFile
pub mod WriteRead
pub mod Dirs
pub mod WriteNew
pub mod WriteOver
pub mod DirSecond
pub mod DirEntries
pub mod DirLookup
pub mod EntryBytes
pub mod DirContents
pub mod DirTwo
pub mod DirAdd
pub mod Handle
