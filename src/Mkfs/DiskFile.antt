-- ===== src/Mkfs/DiskFile.antt =====
-- lib/simple_fs/src/bin.rs, `DiskFile`: a file of the host that holds a disk.
use sprocket.Base.{
  ℕ, zero, suc, ◌+◌, ◌-◌, ◌*◌, ◌≤◌, ◌≡◌, ◌≢◌, refl, ap, ◌∙◌, arith, Bool, true, List, [], ◌∷◌, ◌++◌,
  length, take, drop, replicate, leb, ◌⊎◌, inl, inr, Option, none, some, if◌then◌else◌,
  length-append, length-take, length-replicate, drop_past, take-append, drop-append, drop-append_ge,
  drop-drop,
}
use mathlib.Core.List.{append_assoc, append-nil}
use sprocket.SimpleFs.Types.{DiskRun, io_error}

-- An open file, as `std::fs::File` documents it: its bytes and the position in it.
pub record File : Type 0 where
  pub bytes : List ℕ
  pub pos : ℕ

-- `seek(SeekFrom::Start(to))`
abbrev pub seek : (to : ℕ) → File → File
seek to f = record f { pos = to }

-- `read_exact`: the buffer with what the file has at the position, and the moved position. At the end
-- of the file it fails, which is not looked at, and the rest of the buffer stays.
abbrev pub read_exact : (buffer : List ℕ) → File → List ℕ × File
read_exact buffer f =
    let got = take (length buffer) (drop f.pos f.bytes) in
    (got ++ drop (length got) buffer, record f { pos = f.pos + length got })

-- The bytes with others written from a position on; a gap in front of them is filled with zeros.
abbrev pub write_at : (pos : ℕ) → (buffer bytes : List ℕ) → List ℕ
write_at pos buffer bytes =
    take pos bytes ++ replicate (pos - length bytes) 0 ++ buffer ++ drop (pos + length buffer) bytes

-- `DiskFile::sector_size`
abbrev pub sector_size : ℕ
sector_size = 512

-- `accepts` tells whether the host takes a write; the file stays as it is where it does not. A failed
-- assertion is `none`.
module _ (accepts : File → List ℕ → Bool) where
  unfoldable pub read_disk :
      (buffer : List ℕ) (device sector : ℕ) → File → Option (DiskRun File (List ℕ))
  read_disk buffer device sector f =
      if leb (length buffer) 512
      then (let (filled, f') = read_exact buffer (seek (sector * sector_size) f) in
          some (DiskRun.ok filled f'))
      else none

  -- `write_all` is one write here.
  unfoldable pub write_disk : (buffer : List ℕ) (device sector : ℕ) → File → Option (DiskRun File ℕ)
  write_disk buffer device sector f =
      let f' = seek (sector * sector_size) f in
      if leb (length buffer) 512
      then some (
          if accepts f' buffer
          then DiskRun.ok (length buffer)
              (record { bytes = write_at f'.pos buffer f'.bytes; pos = f'.pos + length buffer })
          else DiskRun.err io_error f')
      else none

-- What a window of the file shows after a write in front of it or behind it.
window-before :
    (a n pos : ℕ) (xs rest : List ℕ)
    → a + n ≤ pos
    → a + n ≤ length xs
    → take n (drop a (take pos xs ++ rest)) ≡ take n (drop a xs)
window-before a zero pos xs rest h h' = refl
window-before a (suc n) zero xs rest h h' = absurd (omega arith)
window-before a (suc n) (suc pos) [] rest h h' = absurd (omega arith)
window-before zero (suc n) (suc pos) (x ∷ xs) rest h h' =
    ap (λ l. x ∷ l) (window-before zero n pos xs rest (omega arith) (omega arith))
window-before (suc a) (suc n) (suc pos) (x ∷ xs) rest h h' =
    window-before a (suc n) pos xs rest (omega arith) (omega arith)

drop-behind :
    (a e : ℕ) (front xs : List ℕ)
    → length front ≡ e
    → e ≤ a
    → drop a (front ++ drop e xs) ≡ drop a xs
drop-behind a e front xs h le =
    let whole : e + (a - length front) ≡ a = omega arith in
    drop-append_ge a front (drop e xs) (omega arith)
    ∙ drop-drop (a - length front) e xs
    ∙ ap (λ k. drop k xs) whole

length-filled :
    (pos : ℕ) (xs : List ℕ) → length (take pos xs ++ replicate (pos - length xs) 0) ≡ pos
length-filled pos xs = omega (
  arith,
  length-append (take pos xs) (replicate (pos - length xs) 0),
  length-take pos xs,
  length-replicate {A = ℕ} (pos - length xs) 0,
)

write_at-shape :
    (pos : ℕ) (buffer xs : List ℕ)
    → write_at pos buffer xs
      ≡ (take pos xs ++ replicate (pos - length xs) 0) ++ (buffer ++ drop (pos + length buffer) xs)
write_at-shape pos buffer xs =
    append_assoc (take pos xs ++ replicate (pos - length xs) 0) buffer
      (drop (pos + length buffer) xs)

-- What was written is there.
write_at-here :
    (pos : ℕ) (buffer xs : List ℕ)
    → take (length buffer) (drop pos (write_at pos buffer xs)) ≡ buffer
write_at-here pos buffer xs =
    let front = take pos xs ++ replicate (pos - length xs) 0 in
    rw
      (
        write_at-shape pos buffer xs,
        drop-append pos front (buffer ++ drop (pos + length buffer) xs) (length-filled pos xs),
      )
      (take-append (length buffer) buffer (drop (pos + length buffer) xs) refl)

-- A window of the file that the write does not meet shows what it did before.
write_at-elsewhere :
    (pos a n : ℕ) (buffer xs : List ℕ)
    → a + n ≤ length xs
    → (a + n ≤ pos) ⊎ (pos + length buffer ≤ a)
    → take n (drop a (write_at pos buffer xs)) ≡ take n (drop a xs)
write_at-elsewhere pos a n buffer xs inside (inl before) =
    let gap = replicate (pos - length xs) 0 in
    let rest = buffer ++ drop (pos + length buffer) xs in
    ap (λ l. take n (drop a l)) (write_at-shape pos buffer xs ∙ append_assoc (take pos xs) gap rest)
    ∙ window-before a n pos xs (gap ++ rest) before inside
write_at-elsewhere pos a n buffer xs inside (inr behind) =
    let front = take pos xs ++ replicate (pos - length xs) 0 in
    ap (take n) (
      drop-behind a (pos + length buffer) (front ++ buffer) xs
        (omega (arith, length-append front buffer, length-filled pos xs)) behind)

read_exact-whole :
    (buffer buffer' : List ℕ) (f : File)
    → length buffer' ≡ length buffer
    → take (length buffer) (drop f.pos f.bytes) ≡ buffer
    → (read_exact buffer' f).0 ≡ buffer
read_exact-whole buffer buffer' f same there =
    let got : take (length buffer') (drop f.pos f.bytes) ≡ buffer =
      ap (λ n. take n (drop f.pos f.bytes)) same ∙ there in
    ap (λ b. b ++ drop (length b) buffer') got
    ∙ ap (λ l. buffer ++ l) (drop_past (length buffer) buffer' (omega arith))
    ∙ append-nil buffer

sectors_apart :
    (s t m n : ℕ) → t ≢ s → m ≤ 512 → n ≤ 512 → (t * 512 + n ≤ s * 512) ⊎ (s * 512 + m ≤ t * 512)
sectors_apart s t m n apart h h' = ground arith

module _ (accepts : File → List ℕ → Bool) where
  write_disk-takes :
      (buffer : List ℕ) (device s : ℕ) (f : File)
      → length buffer ≤ 512
      → accepts (seek (s * 512) f) buffer ≡ true
      → write_disk accepts buffer device s f
        ≡ some (
            DiskRun.ok
              (length buffer)
              (record { bytes = write_at (s * 512) buffer f.bytes; pos = s * 512 + length buffer }))
  unfolding write_disk
  write_disk-takes buffer device s f h ok =
      let short : leb (length buffer) 512 ≡ true = ground arith in rw (short, ok) refl

  read_disk-fills :
      (buffer : List ℕ) (device s : ℕ) (f : File)
      → length buffer ≤ 512
      → read_disk accepts buffer device s f
        ≡ some (
            DiskRun.ok
              (read_exact buffer (seek (s * 512) f)).0
              (read_exact buffer (seek (s * 512) f)).1)
  unfolding read_disk
  read_disk-fills buffer device s f h =
      let short : leb (length buffer) 512 ≡ true = ground arith in rw short refl

  -- Where the host takes the write, the bytes written to a sector are read back, whatever stood in the
  -- buffer that is read into; and each other sector that lies inside the file is read as before.
  pub write_disk-read_disk :
      (buffer buffer' : List ℕ) (s device : ℕ) (f : File)
      → length buffer ≤ 512
      → length buffer' ≡ length buffer
      → accepts (seek (s * 512) f) buffer ≡ true
      → (f' f'' : File) × (write_disk accepts buffer device s f
          ≡ some (DiskRun.ok (length buffer) f'))
        × (read_disk accepts buffer' device s f' ≡ some (DiskRun.ok buffer f''))
        × ((t : ℕ) (b : List ℕ)
            → t ≢ s
            → (t + 1) * 512 ≤ length f.bytes
            → length b ≤ 512
            → (read_exact b (seek (t * 512) f')).0 ≡ (read_exact b (seek (t * 512) f)).0)
  write_disk-read_disk buffer buffer' s device f h same ok =
      let f' : File = record {
        bytes = write_at (s * 512) buffer f.bytes;
        pos = s * 512 + length buffer;
      } in
      (
        f',
        (read_exact buffer' (seek (s * 512) f')).1,
        write_disk-takes buffer device s f h ok,
        read_disk-fills buffer' device s f' (omega (arith, h, same))
            ∙ ap (λ b. some (DiskRun.ok b (read_exact buffer' (seek (s * 512) f')).1))
                (read_exact-whole buffer buffer' (seek (s * 512) f') same
                  (write_at-here (s * 512) buffer f.bytes)),
        λ t b apart inside short.
            ap (λ got. got ++ drop (length got) b)
              (write_at-elsewhere (s * 512) (t * 512) (length b) buffer f.bytes
                (omega (arith, inside, short))
                (sectors_apart s t (length buffer) (length b) apart h short)),
      )
