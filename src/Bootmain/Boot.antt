-- ===== src/Bootmain/Boot.antt =====
-- src/bootmain.rs: the whole boot loader.
use sprocket.Base.{
  ℕ, zero, suc, ◌+◌, ◌-◌, ◌*◌, ◌%◌, ◌≤◌, ◌<◌, ◌≡◌, inl, refl, ap, ◌∙◌, arith, true, ◌==◌, some,
  done, then_done,
}
use sprocket.Port.{Io}
use sprocket.Bootmain.{
  Memory, magic, entry, phoff, phnum, off, paddr, store, greeting, elf_magic, readseg, load_segment,
  load_segments, bootmain,
}
use sprocket.Bootmain.Sector.{BootDisk}
use sprocket.Bootmain.Transfer.{image, readseg_lem}
use sprocket.Bootmain.Segment.{load_segment_lem}
use sprocket.Bootmain.Headers.{
  HasHeaders, load32-HasHeaders, is_elf, at_headers, header_count, Loaded, Fits, InFront, header_at,
  HasHeaders-kept, Loaded-next, Loaded-from, below-from,
}

zero-plus : (i : ℕ) → 0 + i ≡ i
zero-plus i = omega arith

module _ {S : Type 0} (io : Io S) (disk : BootDisk io) where
  -- One segment, by the headers in the file.
  load_segment-Loaded :
      (n ph : ℕ) (m : Memory) (s : S)
      → let file = image io disk in
        HasHeaders file m
        → ph + 32 ≤ 4096
        → Fits file ph
        → (m' : Memory) × (s' : S) × (load_segment io (suc n) (0x10000 + ph) (m, s)
            ≡ done tt (m', s'))
          × Loaded file ph m'
          × ((x : ℕ) → x < paddr file ph - off file ph % 512 → m' x ≡ m x)
  load_segment-Loaded n ph m s h low fits =
      let file = image io disk in
      let o = load32-HasHeaders file m ph 4 h (omega arith) in
      let pa = load32-HasHeaders file m ph 12 h (omega arith) in
      let fs = load32-HasHeaders file m ph 16 h (omega arith) in
      let ms = load32-HasHeaders file m ph 20 h (omega arith) in
      let (m', s', run, bytes, zeros, below, _) =
        load_segment_lem io disk n (0x10000 + ph) m s
          (rw (o, pa, fs) (inl (omega (arith, low, fits.behind))))
          (rw (o, pa) (omega (arith, fits.behind))) (rw (pa, fs) fits.file_word)
          (rw (pa, ms) fits.mem_word) (rw (o, fs) fits.on_disk) in
      (
        m',
        s',
        run,
        Loaded-from file m m' (0x10000 + ph) ph o pa fs ms bytes zeros,
        below-from file m m' (0x10000 + ph) ph o pa below,
      )

  load_segments-step :
      (n ph next left : ℕ) (m m1 : Memory) (s s1 : S)
      → ph + 32 ≡ next
      → load_segment io n ph (m, s) ≡ done tt (m1, s1)
      → load_segments io n ph (suc left) (m, s) ≡ load_segments io n next left (m1, s1)
  unfolding load_segments
  load_segments-step n ph next left m m1 s s1 e run =
      then_done (load_segment io n ph) _ {s = (m, s)} run
        (ap (λ a. load_segments io n a left (m1, s1)) e)

  load_segments-none :
      (n ph : ℕ) (m : Memory) (s : S) → load_segments io (suc n) ph 0 (m, s) ≡ done tt (m, s)
  unfolding load_segments
  load_segments-none n ph m s = refl

  -- The loop, from the segment `k` on, where those in front of it are loaded.
  load_segments-Loaded :
      (n left k : ℕ) (m : Memory) (s : S)
      → let file = image io disk in
        HasHeaders file m
        → header_at file (k + left) ≤ 4096
        → ((j : ℕ) → j < k + left → Fits file (header_at file j))
        → ((i j : ℕ) → i < j → j < k + left → InFront file (header_at file i) (header_at file j))
        → ((j : ℕ) → j < k → Loaded file (header_at file j) m)
        → (m' : Memory) × (s' : S) × (load_segments io
              (suc n)
              (0x10000 + header_at file k)
              left
              (m, s)
            ≡ done tt (m', s'))
          × HasHeaders file m'
          × ((j : ℕ) → j < k + left → Loaded file (header_at file j) m')
  load_segments-Loaded n zero k m s h low fits order before = (
    m,
    s,
    load_segments-none n (0x10000 + header_at (image io disk) k) m s,
    h,
    λ j lt. before j (omega arith),
  )
  load_segments-Loaded n (suc left) k m s h low fits order before =
      let file = image io disk in
      let ph = header_at file k in
      let (m1, s1, run, here, below) =
        load_segment-Loaded n ph m s h (omega arith) (fits k (omega arith)) in
      let (m2, s2, runs, h', all) =
        load_segments-Loaded n left (k + 1) m1 s1
          (HasHeaders-kept file m m1 ph h (fits k (omega arith)) below) (omega (arith, low))
          (λ j lt. fits j (omega arith)) (λ i j lt lt'. order i j lt (omega arith))
          (Loaded-next file m m1 k (λ j lt. order j k lt (omega arith)) below here before) in
      (
        m2,
        s2,
        load_segments-step (suc n) (0x10000 + ph) (0x10000 + header_at file (k + 1)) left m m1 s s1
              (omega arith) run
            ∙ runs,
        h',
        λ j lt. all j (omega arith),
      )

  first_read :
      (n : ℕ) (m : Memory) (s : S)
      → (m' : Memory) × (s' : S) × (readseg io (suc n) 0x10000 4096 0 (m, s) ≡ done tt (m', s'))
        × HasHeaders (image io disk) m'
  first_read n m s =
      let (m', s', run, bytes, _, _) =
        readseg_lem io disk n 0x10000 4096 0 m s (omega arith) (omega arith) (omega arith) in
      (m', s', run, λ i lt. bytes i lt ∙ ap (image io disk) (zero-plus i))

  bootmain-steps :
      (n ph count start : ℕ) (m m1 m2 : Memory) (s s1 s2 : S)
      → readseg io (suc n) 0x10000 4096 0 (store m 0xb8000 greeting, s) ≡ done tt (m1, s1)
      → (magic m1 0x10000 == elf_magic) ≡ true
      → 0x10000 + phoff m1 0x10000 ≡ ph
      → phnum m1 0x10000 ≡ count
      → entry m2 0x10000 ≡ start
      → load_segments io (suc n) ph count (m1, s1) ≡ done tt (m2, s2)
      → bootmain io (suc n) (m, s) ≡ done (some start) (m2, s2)
  unfolding bootmain
  bootmain-steps n ph count start m m1 m2 s s1 s2 run found at_ph counted at_entry runs =
      then_done (readseg io (suc n) 0x10000 4096 0) _ {s = (store m 0xb8000 greeting, s)} run (
        rw found (
          then_done (load_segments io (suc n) (0x10000 + phoff m1 0x10000) (phnum m1 0x10000)) _
            {s = (m1, s1)} {s' = (m2, s2)} (rw (at_ph, counted) runs) (rw at_entry refl)))

  -- Where the kernel's file is an ELF file whose program headers lie in its first 4096 bytes, and
  -- each segment stays in the address space, behind the memory of the headers, and begins in a
  -- sector of memory behind the segments of the headers in front of it, the boot loader ends with the
  -- entry point of the file, and then all segments are in memory: the bytes that the file has, and
  -- zeros for the rest. This holds although each transfer writes eight sectors of memory.
  pub bootmain_lem :
      (n : ℕ) (m : Memory) (s : S)
      → let file = image io disk in
        magic file 0 ≡ elf_magic
        → phoff file 0 + 32 * phnum file 0 ≤ 4096
        → ((j : ℕ) → j < phnum file 0 → Fits file (header_at file j))
        → ((i j : ℕ)
            → i < j
            → j < phnum file 0
            → InFront file (header_at file i) (header_at file j))
        → (m' : Memory) × (s' : S) × (bootmain io (suc n) (m, s)
            ≡ done (some (entry file 0)) (m', s'))
          × ((j : ℕ) → j < phnum file 0 → Loaded file (header_at file j) m')
  bootmain_lem n m s elf low fits order =
      let file = image io disk in
      let (m1, s1, run, h) = first_read n (store m 0xb8000 greeting) s in
      let count = phnum file 0 in
      let (m2, s2, runs, h', all) =
        load_segments-Loaded n count 0 m1 s1 h (omega (arith, low)) (λ j lt. fits j (omega arith))
          (λ i j lt lt'. order i j lt (omega arith)) (λ j lt. absurd (omega arith)) in
      (
        m2,
        s2,
        bootmain-steps n (0x10000 + header_at file 0) count (entry file 0) m m1 m2 s s1 s2 run
            (is_elf file m1 h elf) (at_headers file m1 h) (header_count file m1 h)
            (load32-HasHeaders file m2 0 24 h' (omega arith)) runs,
        λ j lt. all j (omega arith),
      )
