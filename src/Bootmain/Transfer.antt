-- ===== src/Bootmain/Transfer.antt =====
-- src/bootmain.rs: what the transfer of a whole segment puts into memory.
use sprocket.Base.{
  ℕ, zero, suc, ◌+◌, ◌-◌, ◌*◌, ◌/◌, ◌%◌, ◌^◌, ◌≤◌, ◌<◌, ◌≡◌, refl, ap₂, ◌∙◌, arith, false, ltb, u32,
  wrapping_sub, done, then_done, Bool-cases, inl, inr, lt→ltb,
}
use sprocket.Port.{Io}
use sprocket.Bootmain.{Memory, readsect, read_sectors, readseg, all_sectors}
use sprocket.Bootmain.Sector.{BootDisk, Transferred, readsect_lem}

all_sectors_lem : all_sectors ≡ 2 ^ 23 + 1
unfolding all_sectors
all_sectors_lem = refl

module _ {S : Type 0} (io : Io S) (disk : BootDisk io) where
  -- After a run from `p` on, the bytes up to `epa` are those of the sectors from `sector` on.
  pub record Filled (p epa sector : ℕ) (m m' : Memory) : Type 0 where
    pub there :
        (x : ℕ) → p ≤ x → x < epa → m' x ≡ disk.byte (sector + (x - p) / 512) ((x - p) % 512)
    pub below : (x : ℕ) → x < p → m' x ≡ m x
    pub above : (x : ℕ) → epa + 4095 ≤ x → m' x ≡ m x

  Filled-next :
      (p epa sector : ℕ) (m m1 m2 : Memory)
      → p < epa
      → Transferred io disk p sector m m1
      → Filled (p + 512) epa (sector + 1) m1 m2
      → Filled p epa sector m m2
  Filled-next p epa sector m m1 m2 lt one rest = record {
    there = λ x ge lt'. elim (Bool-cases (ltb x (p + 512))) [
      | inl now ↦
          let lo : x < p + 512 = ground arith in
          let same : sector ≡ sector + (x - p) / 512 = omega arith in
          let i : x - p ≡ (x - p) % 512 = omega arith in
          rest.below x lo ∙ one.there x ge lo ∙ ap₂ disk.byte same i
      | inr later ↦
          let hi : p + 512 ≤ x = ground arith in
          let next : sector + 1 + (x - (p + 512)) / 512 ≡ sector + (x - p) / 512 = omega arith in
          let i : (x - (p + 512)) % 512 ≡ (x - p) % 512 = omega arith in
          rest.there x hi lt' ∙ ap₂ disk.byte next i
    ];
    below = λ x lt'. rest.below x (omega arith) ∙ one.below x lt';
    above = λ x ge. rest.above x ge ∙ one.above x (omega arith);
  }

  read_sectors-stop :
      (left n p epa sector : ℕ) (m : Memory) (s : S)
      → epa ≤ p
      → read_sectors io (suc left) n p epa sector (m, s) ≡ done tt (m, s)
  unfolding read_sectors
  read_sectors-stop left n p epa sector m s le =
      let stop : ltb p epa ≡ false = ground arith in rw stop refl

  read_sectors-next :
      (left n p epa sector : ℕ) (m m1 : Memory) (s s1 : S)
      → p < epa
      → p + 512 < 2 ^ 32
      → sector + 1 < 2 ^ 32
      → readsect io n p 1024 sector (m, s) ≡ done tt (m1, s1)
      → read_sectors io (suc left) n p epa sector (m, s)
        ≡ read_sectors io left n (p + 512) epa (sector + 1) (m1, s1)
  unfolding read_sectors
  read_sectors-next left n p epa sector m m1 s s1 lt word low run =
      let p' : u32 (p + 512) ≡ p + 512 = omega arith in
      let sector' : u32 (sector + 1) ≡ sector + 1 = omega arith in
      rw (lt→ltb p epa lt)
        (then_done (readsect io n p 1024 sector) _ {s = (m, s)} run (rw (p', sector') refl))

  read_sectors_lem :
      (left n p epa sector : ℕ) (m : Memory) (s : S)
      → epa ≤ p + left * 512
      → epa + 512 ≤ 2 ^ 32
      → sector + (epa - p + 511) / 512 ≤ 2 ^ 28
      → (m' : Memory) × (s' : S) × (read_sectors io (suc left) (suc n) p epa sector (m, s)
          ≡ done tt (m', s'))
        × Filled p epa sector m m'
  read_sectors_lem zero n p epa sector m s h word low = (
    m,
    s,
    read_sectors-stop zero (suc n) p epa sector m s (omega arith),
    record { there = λ x ge lt. absurd (omega arith); below = λ x lt. refl; above = λ x ge. refl },
  )
  read_sectors_lem (suc left) n p epa sector m s h word low = elim (Bool-cases (ltb p epa)) [
    | inl more ↦
        let lt : p < epa = ground arith in
        let (m1, s1, run1, one) = readsect_lem io disk n p sector m s (omega arith) in
        let (m2, s2, run2, rest) =
          read_sectors_lem left n (p + 512) epa (sector + 1) m1 s1 (omega arith) word
            (omega arith) in
        (
          m2,
          s2,
          read_sectors-next (suc left) (suc n) p epa sector m m1 s s1 lt (omega arith) (omega arith)
                run1
              ∙ run2,
          Filled-next p epa sector m m1 m2 lt one rest,
        )
    | inr finished ↦ (
      m,
      s,
      read_sectors-stop (suc left) (suc n) p epa sector m s (ground arith),
      record {
        there = λ x ge lt. absurd (ground arith);
        below = λ x lt. refl;
        above = λ x ge. refl;
      },
    )
  ]

  read_sectors_enough :
      (rounds n p epa sector : ℕ) (m : Memory) (s : S)
      → 0 < rounds
      → epa ≤ p + (rounds - 1) * 512
      → epa + 512 ≤ 2 ^ 32
      → sector + (epa - p + 511) / 512 ≤ 2 ^ 28
      → (m' : Memory) × (s' : S) × (read_sectors io rounds (suc n) p epa sector (m, s)
          ≡ done tt (m', s'))
        × Filled p epa sector m m'
  read_sectors_enough zero n p epa sector m s pos enough word low = absurd (omega arith)
  read_sectors_enough (suc left) n p epa sector m s pos enough word low =
      read_sectors_lem left n p epa sector m s (omega arith) word low

  -- The byte of the kernel's file at an offset; the file begins at sector 1.
  abbrev pub image : ℕ → ℕ
  image i = disk.byte (i / 512 + 1) (i % 512)

  -- For a segment that does not wrap and whose sectors have 28-bit numbers, `readseg` ends. Its
  -- bytes then stand at its address, nothing changes below the sector boundary in front of it, nor
  -- from 4095 bytes behind it on.
  pub readseg_lem :
      (n pa count offset : ℕ) (m : Memory) (s : S)
      → offset % 512 ≤ pa
      → pa + count + 512 ≤ 2 ^ 32
      → offset / 512 + count / 512 + 3 ≤ 2 ^ 28
      → (m' : Memory) × (s' : S) × (readseg io (suc n) pa count offset (m, s) ≡ done tt (m', s'))
        × ((i : ℕ) → i < count → m' (pa + i) ≡ image (offset + i))
        × ((x : ℕ) → x < pa - offset % 512 → m' x ≡ m x)
        × ((x : ℕ) → pa + count + 4095 ≤ x → m' x ≡ m x)
  unfolding readseg
  readseg_lem n pa count offset m s start word low =
      let p = pa - offset % 512 in
      let first : wrapping_sub pa (offset % 512) ≡ p = omega arith in
      let last : u32 (pa + count) ≡ pa + count = omega arith in
      let sector = offset / 512 + 1 in
      let (m', s', run, filled) =
        read_sectors_enough all_sectors n p (pa + count) sector m s (omega (arith, all_sectors_lem))
          (omega (arith, all_sectors_lem)) (omega arith) (omega arith) in
      (
        m',
        s',
        ap₂ (λ a b. read_sectors io all_sectors (suc n) a b sector (m, s)) first last ∙ run,
        λ i lt.
            let same : sector + (pa + i - p) / 512 ≡ (offset + i) / 512 + 1 = omega arith in
            let index : (pa + i - p) % 512 ≡ (offset + i) % 512 = omega arith in
            filled.there (pa + i) (omega arith) (omega arith) ∙ ap₂ disk.byte same index,
        filled.below,
        filled.above,
      )
