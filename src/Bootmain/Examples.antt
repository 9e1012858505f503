-- ===== src/Bootmain/Examples.antt =====
-- src/bootmain.rs: a disk with a small kernel on it. Its first sector holds the headers of two
-- segments, and every other sector is filled with sevens.
use sprocket.Base.{
  ℕ, zero, suc, ◌+◌, ◌-◌, ◌*◌, ◌%◌, ◌^◌, ◌<◌, ◌≡◌, refl, arith, Bool, true, false, some, List, [],
  ◌∷◌, ◌++◌, get_or, length, replicate, ◌==◌, if◌then◌else◌, done,
}
use sprocket.Port.{Io}
use sprocket.SimpleFs.Layout.{from_words}
use sprocket.Bootmain.{Memory, bootmain}
use sprocket.Bootmain.Sector.{BootDisk}
use sprocket.Bootmain.Transfer.{image}
use sprocket.Bootmain.Headers.{Fits, InFront, Loaded, header_at}
use sprocket.Bootmain.Boot.{bootmain_lem}

record Drive : Type 0 where
  regs : ℕ → ℕ
  asked : ℕ

abbrev number : (ℕ → ℕ) → ℕ
number r = r 0x1F3 + r 0x1F4 * 2 ^ 8 + r 0x1F5 * 2 ^ 16 + r 0x1F6 % 16 * 2 ^ 24

-- The file header, with its entry point at 0x100004, and two program headers, at 52 and 84.
abbrev kernel_headers : List ℕ
kernel_headers =
    0x464C457F ∷ 0 ∷ 0 ∷ 0 ∷ 0 ∷ 0 ∷ 0x100004 ∷ 52 ∷ 0 ∷ 0 ∷ 0 ∷ 2 ∷ 0 ∷ 1 ∷ 512 ∷ 0 ∷ 0x100000 ∷ 16
    ∷ 32 ∷ 0 ∷ 0 ∷ 1 ∷ 1024 ∷ 0 ∷ 0x101000 ∷ 600 ∷ 600 ∷ 0 ∷ 0 ∷ []

abbrev words_if : (first : Bool) → List ℕ
words_if true = kernel_headers ++ replicate (1024 - 29) 0
words_if false = replicate 1024 0x07070707

abbrev words_at : (sector : ℕ) → List ℕ
words_at sector = words_if (sector == 1)

length-words_if : (first : Bool) → length (words_if first) ≡ 1024
length-words_if true = refl
length-words_if false = refl

abbrev drive_io : Io Drive
drive_io = record {
  in_byte = λ p s. (0x40, s);
  in_word = λ p s. (0, s);
  in_long = λ p s. (0, s);
  out_byte = λ p v s.
      if p == 0x1F7
      then record s { asked = number s.regs }
      else record s { regs = λ q. if q == p then v else s.regs q };
  out_word = λ p v s. s;
  out_long = λ p v s. s;
  in_longs = λ p n s. (words_at s.asked, s);
  out_longs = λ p words s. s;
}

unfoldable drive_disk : BootDisk drive_io
drive_disk = record {
  byte = λ sector i. get_or (from_words (words_at sector)) i 0;
  regs = λ s. s.regs;
  asked = λ s. s.asked;
  ready = λ s. refl;
  poll_regs = λ s p. refl;
  poll_asked = λ s. refl;
  stores = λ s p q v lo hi. let other : (p == 0x1F7) ≡ false = ground arith in rw other refl;
  command = λ s count lba. refl;
  counted = λ s. length-words_if (s.asked == 1);
  transfers = λ s i lt. refl;
}

abbrev file : Memory
file = image drive_io drive_disk

fits : (j : ℕ) → j < 2 → Fits file (header_at file j)
unfolding drive_disk from_words
fits zero lt = record {
  behind = omega arith;
  file_word = omega arith;
  mem_word = omega arith;
  on_disk = omega arith;
}
fits (suc zero) lt = record {
  behind = omega arith;
  file_word = omega arith;
  mem_word = omega arith;
  on_disk = omega arith;
}
fits (suc (suc j)) lt = absurd (omega arith)

order : (i j : ℕ) → i < j → j < 2 → InFront file (header_at file i) (header_at file j)
unfolding drive_disk from_words
order zero (suc zero) lt lt' = (omega arith, omega arith)
order i zero lt lt' = absurd (omega arith)
order (suc i) (suc zero) lt lt' = absurd (omega arith)
order i (suc (suc j)) lt lt' = absurd (omega arith)

bootmain_lem_example :
    (m' : Memory) × (s' : Drive) × (bootmain drive_io 1
        ((λ x. 0), record { regs = λ p. 0; asked = 0 })
      ≡ done (some 0x100004) (m', s'))
    × ((j : ℕ) → j < 2 → Loaded file (header_at file j) m')
unfolding drive_disk from_words
bootmain_lem_example =
    bootmain_lem drive_io drive_disk 0 (λ x. 0) (record { regs = λ p. 0; asked = 0 }) refl
      (omega arith) fits order
