-- ===== src/Bootmain/Segment.antt =====
-- src/bootmain.rs: one program header of the kernel is loaded as the ELF format says.
use sprocket.Base.{
  ℕ, zero, suc, ◌+◌, ◌-◌, ◌/◌, ◌%◌, ◌^◌, ◌≤◌, ◌<◌, ◌≡◌, ◌⊎◌, inl, inr, refl, ap, ◌∙◌, arith, ltb,
  leb, ◌==◌, ◌&&◌, if◌then◌else◌, u8, u32, done, then_done, Bool-cases, ltb→lt,
}
use sprocket.Port.{Io}
use sprocket.Bootmain.{
  Memory, load32, off, paddr, filesz, memsz, memset_from, memset, readseg, clear_rest, load_segment,
  change,
}
use sprocket.Bootmain.Sector.{BootDisk}
use sprocket.Bootmain.Transfer.{image, readseg_lem}

memset_from_lem :
    (s c i left x : ℕ) (m : Memory)
    → s + i + left ≤ 2 ^ 32
    → memset_from s c i left m x ≡ (if leb (s + i) x && ltb x (s + i + left) then u8 c else m x)
unfolding memset_from
memset_from_lem s c i zero x m word = ground arith
memset_from_lem s c i (suc left) x m word =
    let here : u32 (s + i) ≡ s + i = omega arith in
    let rest =
      memset_from_lem s c (i + 1) left x (λ y. if y == u32 (s + i) then u8 c else m y)
        (omega arith) in
    ground (arith, rest, here)

-- `memset` fills its bytes and changes no other.
pub memset_lem :
    (s n x : ℕ) (m : Memory)
    → s + n ≤ 2 ^ 32
    → memset s 0 n m x ≡ (if leb s x && ltb x (s + n) then 0 else m x)
unfolding memset
memset_lem s n x m word = ground (arith, memset_from_lem s 0 0 n x m)

-- The header at `ph` is the same in both memories.
abbrev SameHeader : (ph : ℕ) (m m' : Memory) → Type 0
SameHeader ph m m' = (k : ℕ) → k < 32 → m' (ph + k) ≡ m (ph + k)

clear_rest_lem :
    (ph pa x : ℕ) (m m' : Memory)
    → filesz m' ph ≡ filesz m ph
    → memsz m' ph ≡ memsz m ph
    → pa + filesz m ph < 2 ^ 32
    → pa + memsz m ph ≤ 2 ^ 32
    → clear_rest ph pa m' x
      ≡ (if leb (pa + filesz m ph) x && ltb x (pa + memsz m ph) then 0 else m' x)
unfolding clear_rest
clear_rest_lem ph pa x m m' ef em wf wm =
    let fs = filesz m ph in
    let ms = memsz m ph in
    rw (ef, em)
      (elim (Bool-cases (ltb fs ms)) [
        | inl more ↦
            let lt : fs < ms = ltb→lt fs ms more in
            let s : u32 (pa + fs) ≡ pa + fs = omega arith in
            let end : pa + fs + (ms - fs) ≡ pa + ms = omega arith in
            rw (more, s)
              (memset_lem (pa + fs) (ms - fs) x m' (omega arith)
                ∙ ap (λ e. if leb (pa + fs) x && ltb x e then 0 else m' x) end)
        | inr whole ↦ let le : ms ≤ fs = ground arith in rw whole (ground arith)
      ])

-- A number in the header is then the same.
load32-SameHeader :
    (ph k : ℕ) (m m' : Memory)
    → k + 3 < 32
    → SameHeader ph m m'
    → load32 m' (ph + k) ≡ load32 m (ph + k)
load32-SameHeader ph k m m' h same =
    let e1 : ph + k + 1 ≡ ph + (k + 1) = omega arith in
    let e2 : ph + k + 2 ≡ ph + (k + 2) = omega arith in
    let e3 : ph + k + 3 ≡ ph + (k + 3) = omega arith in
    rw (e1, e2, e3)
      (omega (
        arith,
        same k (omega arith),
        same (k + 1) (omega arith),
        same (k + 2) (omega arith),
        same (k + 3) (omega arith),
      ))

-- What stands at an address inside and outside a cleared range.
clear_inside : (lo hi x v : ℕ) → lo ≤ x → x < hi → (if leb lo x && ltb x hi then 0 else v) ≡ 0
clear_inside lo hi x v ge lt = ground arith

clear_outside : (lo hi x v : ℕ) → (x < lo) ⊎ (hi ≤ x) → (if leb lo x && ltb x hi then 0 else v) ≡ v
clear_outside lo hi x v out = ground arith

module _ {S : Type 0} (io : Io S) (disk : BootDisk io) where
  -- Where the header of a segment lies outside the memory that its transfer changes, and the segment
  -- does not wrap, its load ends. The bytes that the file has are those of the file at the
  -- header's offset, the rest of the segment is zero, and nothing changes below the sector boundary in
  -- front of the segment, nor behind its end where that is at least 4095 bytes behind the last byte
  -- of the file.
  pub load_segment_lem :
      (n ph : ℕ) (m : Memory) (s : S)
      → let pa = paddr m ph in
        let start = pa - off m ph % 512 in
        (ph + 32 ≤ start) ⊎ (pa + filesz m ph + 4095 ≤ ph)
        → off m ph % 512 ≤ pa
        → pa + filesz m ph + 512 ≤ 2 ^ 32
        → pa + memsz m ph ≤ 2 ^ 32
        → off m ph / 512 + filesz m ph / 512 + 3 ≤ 2 ^ 28
        → (m' : Memory) × (s' : S) × (load_segment io (suc n) ph (m, s) ≡ done tt (m', s'))
          × ((i : ℕ) → i < filesz m ph → m' (pa + i) ≡ image io disk (off m ph + i))
          × ((i : ℕ) → filesz m ph ≤ i → i < memsz m ph → m' (pa + i) ≡ 0)
          × ((x : ℕ) → x < start → m' x ≡ m x)
          × ((x : ℕ) → pa + filesz m ph + 4095 ≤ x → pa + memsz m ph ≤ x → m' x ≡ m x)
  unfolding load_segment
  load_segment_lem n ph m s apart begin wf wm low =
      let pa = paddr m ph in
      let fs = filesz m ph in
      let ms = memsz m ph in
      let (m1, s1, run, loaded, below, above) =
        readseg_lem io disk n pa fs (off m ph) m s begin wf low in
      let same : SameHeader ph m m1 = λ k lt. elim apart [
        | inl front ↦ below (ph + k) (omega arith)
        | inr back ↦ above (ph + k) (omega arith)
      ] in
      let cleared : (x : ℕ)
          → clear_rest ph pa m1 x
            ≡ (if leb (pa + fs) x && ltb x (pa + memsz m ph) then 0 else m1 x) =
        λ x.
          clear_rest_lem ph pa x m m1 (load32-SameHeader ph 16 m m1 (omega arith) same)
            (load32-SameHeader ph 20 m m1 (omega arith) same) (omega arith) wm in
      (
        clear_rest ph pa m1,
        s1,
        then_done (readseg io (suc n) pa fs (off m ph)) (change (clear_rest ph pa)) {s = (m, s)} run
            refl,
        λ i lt.
            cleared (pa + i)
            ∙ clear_outside (pa + fs) (pa + ms) (pa + i) (m1 (pa + i)) (inl (omega arith))
            ∙ loaded i lt,
        λ i ge lt.
            cleared (pa + i)
            ∙ clear_inside (pa + fs) (pa + ms) (pa + i) (m1 (pa + i)) (omega arith) (omega arith),
        λ x lt.
            cleared x ∙ clear_outside (pa + fs) (pa + ms) x (m1 x) (inl (omega arith)) ∙ below x lt,
        λ x ge ge'. cleared x ∙ clear_outside (pa + fs) (pa + ms) x (m1 x) (inr ge') ∙ above x ge,
      )
