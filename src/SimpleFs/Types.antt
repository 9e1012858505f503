-- ===== src/SimpleFs/Types.antt =====
-- The constants, structures and errors of lib/simple_fs/src/lib.rs, the trait `Disk` as an
-- interface, and runs of file system code: a result, an error, or a failed assertion.
use sprocket.Base.{ℕ, ◌+◌, ◌*◌, ◌/◌, ◌-◌, ◌^◌, ◌≡◌, Bool, true, false, List, replicate}

abbrev pub ndirect : ℕ
ndirect = 64

abbrev pub nindirect : ℕ
nindirect = 0

abbrev pub blocksize : ℕ
blocksize = 512

abbrev pub blockaddr_size : ℕ
blockaddr_size = 4

abbrev pub indirect_per_block : ℕ
indirect_per_block = blocksize / blockaddr_size

abbrev pub maxfile : ℕ
maxfile = ndirect + indirect_per_block * nindirect

abbrev pub root_inum : ℕ
root_inum = 0

abbrev pub root_dev : ℕ
root_dev = 1

abbrev pub num_inodes : ℕ
num_inodes = 256

abbrev pub dirname_size : ℕ
dirname_size = 254

abbrev pub superblock_addr : ℕ
superblock_addr = 0

abbrev pub unused_blockaddr : ℕ
unused_blockaddr = 0

abbrev pub unused_inum : ℕ
unused_inum = 2 ^ 32 - 1

pub data DiskError : Type 0 where
  io_error : DiskError

pub data FsError : Type 0 where
  exhausted_blocks exhausted_inodes not_dir eof entry_exists not_found : FsError
  read_too_large write_too_large : FsError
  block_not_mapped : ℕ → FsError
  type_mismatch : FsError
  disk_fault : DiskError → FsError

pub data InodeType : Type 0 where
  unused file directory : InodeType

pub record Inode : Type 0 where
  pub type_ : InodeType
  pub device : ℕ
  pub major : ℕ
  pub minor : ℕ
  pub size : ℕ
  pub blocks : List ℕ

abbrev pub unused_inode : Inode
unused_inode = record {
  type_ = unused;
  device = 0;
  major = 0;
  minor = 0;
  size = 0;
  blocks = replicate ndirect 0;
}

-- A run over the states `S`: the state comes back after an error too.
pub data Run (S A : Type 0) : Type 0 where
  ok : A → S → Run S A
  err : FsError → S → Run S A
  panic : Run S A

abbrev pub Fs : Type 0 → Type 0 → Type 0
Fs S A = S → Run S A

module _ {S : Type 0} where
  abbrev pub pure : {A : Type 0} → A → Fs S A
  pure a s = ok a s

  abbrev pub raise : {A : Type 0} → FsError → Fs S A
  raise e s = err e s

  infixl 5 ◌>>=◌ ◌>>◌
  abbrev pub ◌>>=◌ : {A B : Type 0} → Fs S A → (A → Fs S B) → Fs S B
  ◌>>=◌ m f s = elim (m s) [ ok a s' ↦ f a s' | err e s' ↦ err e s' | panic ↦ panic ]

  abbrev pub ◌>>◌ : {A B : Type 0} → Fs S A → Fs S B → Fs S B
  m >> k = m >>= λ _. k

  -- `assert!`, and the bounds check of a slice
  abbrev pub assert : Bool → Fs S (Unit {0})
  assert true s = ok tt s
  assert false s = panic

-- The trait `Disk`, over the states `D` of a disk: `read` takes the buffer to fill and returns the
-- filled one, `write` returns how many bytes were written.
pub data DiskRun (D A : Type 0) : Type 0 where
  ok : A → D → DiskRun D A
  err : DiskError → D → DiskRun D A

pub record Disk (D : Type 0) : Type 0 where
  pub read : (buffer : List ℕ) (device sector : ℕ) → D → DiskRun D (List ℕ)
  pub write : (buffer : List ℕ) (device sector : ℕ) → D → DiskRun D ℕ
  pub sector_size : ℕ

-- `impl From<DiskError> for FsError`, which `?` applies
abbrev pub from_disk : {D A : Type 0} → DiskRun D A → Run D A
from_disk (DiskRun.ok a d) = Run.ok a d
from_disk (DiskRun.err e d) = Run.err (disk_fault e) d

module _ {S A B : Type 0} where
  pub bind_ok :
      (m : Fs S A) (k : A → Fs S B) {s s' : S} {a : A} {r : Run S B}
      → m s ≡ ok a s'
      → k a s' ≡ r
      → (m >>= k) s ≡ r
  bind_ok m k e e' = rw (e, ◌>>=◌) e'

module _ {S A B : Type 0} where
  pub then_ok :
      (m : Fs S A) (k : Fs S B) {s s' : S} {a : A} {r : Run S B}
      → m s ≡ ok a s'
      → k s' ≡ r
      → (m >> k) s ≡ r
  then_ok m k e e' = bind_ok m (λ _. k) e e'
