-- ===== src/Bootmain.antt =====
-- src/bootmain.rs and src/elf.rs: the boot loader. Its state is the memory, a function from an
-- address to a byte, next to the machine's. The inline assembly of its module `io` is port I/O.
pub mod Sector
pub mod Transfer
pub mod Segment
pub mod Headers
pub mod Boot
mod Examples
use sprocket.Base.{
  ℕ, zero, suc, ◌+◌, ◌-◌, ◌*◌, ◌/◌, ◌%◌, ◌^◌, Bool, not, ◌&&◌, Option, none, some, List, [], ◌∷◌,
  length, get_or, bit_and, bit_or, ◌==◌, ltb, leb, if◌then◌else◌, u8, u32, wrapping_sub, ◌<<<◌,
  ◌>>>◌, Cmd, done, pure, panic, spin, ◌>>=◌, ◌>>◌,
}
use sprocket.Port.{Io, inb, outb, insl}
use sprocket.SimpleFs.Layout.{from_words}

abbrev pub sectsize : ℕ
sectsize = 512

abbrev pub elf_magic : ℕ
elf_magic = 0x464C457F

abbrev pub Memory : Type 0
Memory = ℕ → ℕ

-- Bytes stored from an address on.
abbrev pub store : Memory → (dst : ℕ) → List ℕ → Memory
store m dst bytes x =
    if leb dst x && ltb x (dst + length bytes) then get_or bytes (x - dst) 0 else m x

-- little-endian numbers in memory
abbrev pub load32 : Memory → ℕ → ℕ
load32 m a = m a + m (a + 1) * 2 ^ 8 + m (a + 2) * 2 ^ 16 + m (a + 3) * 2 ^ 24

abbrev pub load16 : Memory → ℕ → ℕ
load16 m a = m a + m (a + 1) * 2 ^ 8

-- The fields of `Header` and of `ProgramHeader` that are used, with their offsets, and the size of
-- the latter.
abbrev pub magic : Memory → ℕ → ℕ
magic m header = load32 m header

abbrev pub entry : Memory → ℕ → ℕ
entry m header = load32 m (header + 24)

abbrev pub phoff : Memory → ℕ → ℕ
phoff m header = load32 m (header + 28)

abbrev pub phnum : Memory → ℕ → ℕ
phnum m header = load16 m (header + 44)

abbrev pub off : Memory → ℕ → ℕ
off m ph = load32 m (ph + 4)

abbrev pub paddr : Memory → ℕ → ℕ
paddr m ph = load32 m (ph + 12)

abbrev pub filesz : Memory → ℕ → ℕ
filesz m ph = load32 m (ph + 16)

abbrev pub memsz : Memory → ℕ → ℕ
memsz m ph = load32 m (ph + 20)

abbrev pub program_header_size : ℕ
program_header_size = 32

-- The loop of `memset`, from the index `i` on.
unfoldable pub memset_from : (s c i left : ℕ) → Memory → Memory
memset_from s c i zero m = m
memset_from s c i (suc left) m =
    memset_from s c (i + 1) left (λ x. if x == u32 (s + i) then u8 c else m x)

unfoldable pub memset : (s c n : ℕ) → Memory → Memory
unfolding memset_from
memset s c n m = memset_from s c 0 n m

-- the bytes of a segment that the file does not have
unfoldable pub clear_rest : (ph pa : ℕ) → Memory → Memory
unfolding memset
clear_rest ph pa m =
    if ltb (filesz m ph) (memsz m ph)
    then memset (u32 (pa + filesz m ph)) 0 (memsz m ph - filesz m ph) m
    else m

-- `hello` writes its greeting, a character and an attribute at a time.
abbrev pub greeting : List ℕ
greeting =
    99 ∷ 0x0F ∷ 111 ∷ 0x0F ∷ 102 ∷ 0x0F ∷ 102 ∷ 0x0F ∷ 108 ∷ 0x0F ∷ 111 ∷ 0x0F ∷ 115 ∷ 0x0F ∷ []

-- The sectors of the address space, and one more for the last test of a loop over them.
unfoldable pub all_sectors : ℕ
all_sectors = 2 ^ 23 + 1

module _ {S : Type 0} where
  abbrev pub on_machine : {A : Type 0} → Cmd S A → Cmd (Memory × S) A
  on_machine c (m, s) = elim (c s) [ done a s' ↦ done a (m, s') | panic ↦ panic | spin ↦ spin ]

  abbrev pub get : Cmd (Memory × S) Memory
  get (m, s) = done m (m, s)

  abbrev pub change : (Memory → Memory) → Cmd (Memory × S) (Unit {0})
  change f (m, s) = done tt (f m, s)

module _ {S : Type 0} (io : Io S) where
  -- for at most so many rounds of its loop
  unfoldable pub waitdisk : (rounds : ℕ) → Cmd S (Unit {0})
  waitdisk zero = λ _. spin
  waitdisk (suc n) = do
    status ← inb io 0x1F7
    if not (bit_and status 0xC0 == 0x40) then waitdisk n else pure tt

  -- the accesses of `readsect` for a buffer of `len` words
  unfoldable pub request : (rounds len offset : ℕ) → Cmd S (List ℕ)
  unfolding waitdisk
  request rounds len offset = do
    waitdisk rounds
    outb io 0x1F2 1
    outb io 0x1F3 (u8 offset)
    outb io 0x1F4 (u8 (offset >>> 8))
    outb io 0x1F5 (u8 (offset >>> 16))
    outb io 0x1F6 (u8 (bit_or (offset >>> 24) 0xE0))
    outb io 0x1F7 0x20
    waitdisk rounds
    insl io 0x1F0 len

  -- The buffer is given by its address and its length in words.
  unfoldable pub readsect : (rounds dst len offset : ℕ) → Cmd (Memory × S) (Unit {0})
  unfolding request from_words
  readsect rounds dst len offset = do
    words ← on_machine (request rounds len offset)
    change (λ m. store m dst (from_words words))

  -- The loop of `readseg`, for at most so many rounds.
  unfoldable pub read_sectors : (left rounds pa epa offset : ℕ) → Cmd (Memory × S) (Unit {0})
  unfolding readsect
  read_sectors zero rounds pa epa offset = λ _. spin
  read_sectors (suc left) rounds pa epa offset =
      if ltb pa epa
      then (do
        readsect rounds pa 1024 offset
        read_sectors left rounds (u32 (pa + sectsize)) epa (u32 (offset + 1)))
      else pure tt

  unfoldable pub readseg : (rounds pa count offset : ℕ) → Cmd (Memory × S) (Unit {0})
  unfolding read_sectors
  readseg rounds pa count offset =
      read_sectors all_sectors rounds (wrapping_sub pa (offset % sectsize)) (u32 (pa + count))
        (offset / sectsize + 1)

  -- the body of the loop over the program headers
  unfoldable pub load_segment : (rounds ph : ℕ) → Cmd (Memory × S) (Unit {0})
  unfolding readseg clear_rest
  load_segment rounds ph = do
    m ← get
    readseg rounds (paddr m ph) (filesz m ph) (off m ph)
    change (clear_rest ph (paddr m ph))

  -- The loop, over the headers that are left.
  unfoldable pub load_segments : (rounds ph left : ℕ) → Cmd (Memory × S) (Unit {0})
  unfolding load_segment
  load_segments rounds ph zero = pure tt
  load_segments rounds ph (suc left) = do
    load_segment rounds ph
    load_segments rounds (ph + program_header_size) left

  -- The address that is called in the end; `none` if the header is not that of an ELF file.
  unfoldable pub bootmain : (rounds : ℕ) → Cmd (Memory × S) (Option ℕ)
  unfolding readseg load_segments
  bootmain rounds = do
    change (λ m. store m 0xb8000 greeting)
    readseg rounds 0x10000 4096 0
    m ← get
    if not (magic m 0x10000 == elf_magic) then pure none else (do
      load_segments rounds (0x10000 + phoff m 0x10000) (phnum m 0x10000)
      m' ← get
      pure (some (entry m' 0x10000)))
