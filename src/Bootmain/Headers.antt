-- ===== src/Bootmain/Headers.antt =====
-- src/bootmain.rs: the headers of the kernel's file, which is a memory of its own, and what it means
-- that a segment is loaded.
use sprocket.Base.{
  ℕ, ◌+◌, ◌-◌, ◌*◌, ◌/◌, ◌%◌, ◌^◌, ◌≤◌, ◌<◌, ◌≡◌, inl, inr, ◌∙◌, arith, true, ◌==◌, Bool-cases,
  ==_iff,
}
use sprocket.Bootmain.{Memory, load32, magic, phoff, phnum, off, paddr, filesz, memsz, elf_magic}

-- The memory holds the first 4096 bytes of the file.
abbrev pub HasHeaders : (file m : Memory) → Type 0
HasHeaders file m = (i : ℕ) → i < 4096 → m (0x10000 + i) ≡ file i

-- The number at an offset of the file, where the headers are in memory.
pub load32-HasHeaders :
    (file m : Memory) (a k : ℕ)
    → HasHeaders file m
    → a + k + 3 < 4096
    → load32 m (0x10000 + a + k) ≡ load32 file (a + k)
load32-HasHeaders file m a k h low =
    let e0 : 0x10000 + a + k ≡ 0x10000 + (a + k) = omega arith in
    let e1 : 0x10000 + a + k + 1 ≡ 0x10000 + (a + k + 1) = omega arith in
    let e2 : 0x10000 + a + k + 2 ≡ 0x10000 + (a + k + 2) = omega arith in
    let e3 : 0x10000 + a + k + 3 ≡ 0x10000 + (a + k + 3) = omega arith in
    rw (e1, e2, e3, e0)
      (omega (
        arith,
        h (a + k) (omega arith),
        h (a + k + 1) (omega arith),
        h (a + k + 2) (omega arith),
        h (a + k + 3) (omega arith),
      ))

pub is_elf :
    (file m : Memory)
    → HasHeaders file m
    → magic file 0 ≡ elf_magic
    → (magic m 0x10000 == elf_magic) ≡ true
is_elf file m h elf =
    (==_iff (magic m 0x10000) elf_magic).1 (load32-HasHeaders file m 0 0 h (omega arith) ∙ elf)

pub at_headers :
    (file m : Memory)
    → HasHeaders file m
    → 0x10000 + phoff m 0x10000 ≡ 0x10000 + (phoff file 0 + 32 * 0)
at_headers file m h = omega (arith, load32-HasHeaders file m 0 28 h (omega arith))

pub header_count : (file m : Memory) → HasHeaders file m → phnum m 0x10000 ≡ phnum file 0
header_count file m h = omega (arith, h 44 (omega arith), h 45 (omega arith))

-- The segment of the program header at `ph` is in memory: the bytes that the file has, and zeros.
pub record Loaded (file : Memory) (ph : ℕ) (m : Memory) : Type 0 where
  pub bytes : (i : ℕ) → i < filesz file ph → m (paddr file ph + i) ≡ file (off file ph + i)
  pub zeros : (i : ℕ) → filesz file ph ≤ i → i < memsz file ph → m (paddr file ph + i) ≡ 0

-- A segment that stays in the address space and begins, at the sector boundary in front of it,
-- behind the memory that holds the headers.
pub record Fits (file : Memory) (ph : ℕ) : Type 0 where
  pub behind : 0x11000 + off file ph % 512 ≤ paddr file ph
  pub file_word : paddr file ph + filesz file ph + 512 ≤ 2 ^ 32
  pub mem_word : paddr file ph + memsz file ph ≤ 2 ^ 32
  pub on_disk : off file ph / 512 + filesz file ph / 512 + 3 ≤ 2 ^ 28

-- The segment at `ph` ends in front of the sector boundary where that at `ph'` begins.
abbrev pub InFront : (file : Memory) (ph ph' : ℕ) → Type 0
InFront file ph ph' =
    (paddr file ph + filesz file ph + off file ph' % 512 ≤ paddr file ph')
    × (paddr file ph + memsz file ph + off file ph' % 512 ≤ paddr file ph')

-- The offset of a program header.
abbrev pub header_at : (file : Memory) (k : ℕ) → ℕ
header_at file k = phoff file 0 + 32 * k

pub HasHeaders-kept :
    (file m m' : Memory) (ph : ℕ)
    → HasHeaders file m
    → Fits file ph
    → ((x : ℕ) → x < paddr file ph - off file ph % 512 → m' x ≡ m x)
    → HasHeaders file m'
HasHeaders-kept file m m' ph h fits same i lt =
    same (0x10000 + i) (omega (arith, fits.behind)) ∙ h i lt

module _ (file m m' : Memory) (ph : ℕ) where
  Loaded-kept :
      (limit : ℕ)
      → paddr file ph + filesz file ph ≤ limit
      → paddr file ph + memsz file ph ≤ limit
      → ((x : ℕ) → x < limit → m' x ≡ m x)
      → Loaded file ph m
      → Loaded file ph m'
  Loaded-kept limit fs ms same l = record {
    bytes = λ i lt. same (paddr file ph + i) (omega arith) ∙ l.bytes i lt;
    zeros = λ i ge lt. same (paddr file ph + i) (omega arith) ∙ l.zeros i ge lt;
  }

-- The segments that are loaded after the one at `k`.
pub Loaded-next :
    (file m m' : Memory) (k : ℕ)
    → ((j : ℕ) → j < k → InFront file (header_at file j) (header_at file k))
    → ((x : ℕ) → x < paddr file (header_at file k) - off file (header_at file k) % 512 → m' x ≡ m x)
    → Loaded file (header_at file k) m'
    → ((j : ℕ) → j < k → Loaded file (header_at file j) m)
    → (j : ℕ) → j < k + 1
    → Loaded file (header_at file j) m'
Loaded-next file m m' k front below here before j lt = elim (Bool-cases (j == k)) [
  | inl same ↦ let e : j ≡ k = ground arith in rw e here
  | inr other ↦
      let earlier : j < k = ground arith in
      Loaded-kept file m m' (header_at file j)
        (paddr file (header_at file k) - off file (header_at file k) % 512)
        (omega (arith, front j earlier)) (omega (arith, front j earlier)) below (before j earlier)
]

-- What the headers in memory say, said by those in the file.
module _ (file m m' : Memory) (h ph : ℕ) (o : off m h ≡ off file ph)
    (pa : paddr m h ≡ paddr file ph) where
  pub Loaded-from :
      filesz m h ≡ filesz file ph
      → memsz m h ≡ memsz file ph
      → ((i : ℕ) → i < filesz m h → m' (paddr m h + i) ≡ file (off m h + i))
      → ((i : ℕ) → filesz m h ≤ i → i < memsz m h → m' (paddr m h + i) ≡ 0)
      → Loaded file ph m'
  Loaded-from fs ms bytes zeros = record {
    bytes = λ i lt. rw (← pa, ← o) (bytes i (rw fs lt));
    zeros = λ i ge lt. rw (← pa) (zeros i (rw fs ge) (rw ms lt));
  }

  pub below-from :
      ((x : ℕ) → x < paddr m h - off m h % 512 → m' x ≡ m x)
      → (x : ℕ) → x < paddr file ph - off file ph % 512
      → m' x ≡ m x
  below-from below x lt = below x (rw (pa, o) lt)
