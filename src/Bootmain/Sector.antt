-- ===== src/Bootmain/Sector.antt =====
-- src/bootmain.rs: what one transfer puts into memory, on a disk that is ready whenever it is asked.
use sprocket.Base.{
  ℕ, suc, ◌+◌, ◌-◌, ◌*◌, ◌/◌, ◌%◌, ◌^◌, ◌≤◌, ◌<◌, ◌≡◌, refl, ap, ◌∙◌, arith, List, length, get_or,
  bit_and, bit_or, bit_or_fields, bit_or-zero, zero-bit_or, ◌==◌, if◌then◌else◌, u8, ◌>>>◌, Cmd,
  done, bind_done, then_done,
}
use sprocket.Port.{Io, insl}
use sprocket.SimpleFs.Layout.{from_words, length-from_words}
use sprocket.Bootmain.{Memory, store, on_machine, waitdisk, request, readsect, change}

-- A disk that is ready whenever it is asked. The ports 0x1F2 to 0x1F6 are registers; the command to
-- read takes the number of the sector from them, where they ask for one sector by its number, and
-- the transfer begins with that sector's bytes, whatever comes behind them.
pub record BootDisk {S : Type 0} (io : Io S) : Type 0 where
  pub byte : (sector i : ℕ) → ℕ
  pub regs : S → ℕ → ℕ
  pub asked : S → ℕ
  pub ready : (s : S) → bit_and (io.in_byte 0x1F7 s).0 0xC0 ≡ 0x40
  pub poll_regs : (s : S) (p : ℕ) → regs (io.in_byte 0x1F7 s).1 p ≡ regs s p
  pub poll_asked : (s : S) → asked (io.in_byte 0x1F7 s).1 ≡ asked s
  pub stores :
      (s : S) (p q v : ℕ)
      → 0x1F2 ≤ p
      → p ≤ 0x1F6
      → regs (io.out_byte p v s) q ≡ (if q == p then v else regs s q)
  pub command :
      (s : S)
      → regs s 0x1F2 ≡ 1
      → regs s 0x1F6 / 16 ≡ 0xE
      → asked (io.out_byte 0x1F7 0x20 s)
        ≡ regs s 0x1F3 + regs s 0x1F4 * 2 ^ 8 + regs s 0x1F5 * 2 ^ 16 + regs s 0x1F6 % 16 * 2 ^ 24
  pub counted : (s : S) → length (io.in_longs 0x1F0 1024 s).0 ≡ 1024
  pub transfers :
      (s : S) (i : ℕ)
      → i < 512
      → get_or (from_words (io.in_longs 0x1F0 1024 s).0) i 0 ≡ byte (asked s) i

drive : (sector : ℕ) → sector < 2 ^ 28 → u8 (bit_or (sector >>> 24) 0xE0) ≡ 0xE0 + sector / 2 ^ 24
drive sector h =
    let q = sector / 2 ^ 24 in
    let e : bit_or q 0xE0 ≡ 0xE0 + q =
      ground (arith, bit_or_fields 4 0 q 0xE 0, zero-bit_or 0xE, bit_or-zero q) in
    ground (arith, e)

module _ {S A : Type 0} where
  on_machine-done :
      (c : Cmd S A) (m : Memory) {s s' : S} {a : A}
      → c s ≡ done a s'
      → on_machine c (m, s) ≡ done a (m, s')
  on_machine-done c m e = rw (e, on_machine) refl

module _ {S : Type 0} (io : Io S) (disk : BootDisk io) where
  waitdisk_lem : (n : ℕ) (s : S) → waitdisk io (suc n) s ≡ done tt (io.in_byte 0x1F7 s).1
  unfolding waitdisk
  waitdisk_lem n s = rw (disk.ready s) refl

  -- the registers that `readsect` sets
  selected : (sector : ℕ) → S → S
  selected sector s0 =
      let s1 = io.out_byte 0x1F2 1 (io.in_byte 0x1F7 s0).1 in
      let s2 = io.out_byte 0x1F3 (u8 sector) s1 in
      let s3 = io.out_byte 0x1F4 (u8 (sector >>> 8)) s2 in
      let s4 = io.out_byte 0x1F5 (u8 (sector >>> 16)) s3 in
      io.out_byte 0x1F6 (u8 (bit_or (sector >>> 24) 0xE0)) s4

  asked-selected :
      (sector : ℕ) (s : S)
      → sector < 2 ^ 28
      → disk.asked (io.out_byte 0x1F7 0x20 (selected sector s)) ≡ sector
  unfolding selected
  asked-selected sector s0 h =
      let s1 = io.out_byte 0x1F2 1 (io.in_byte 0x1F7 s0).1 in
      let s2 = io.out_byte 0x1F3 (u8 sector) s1 in
      let s3 = io.out_byte 0x1F4 (u8 (sector >>> 8)) s2 in
      let s4 = io.out_byte 0x1F5 (u8 (sector >>> 16)) s3 in
      let v = u8 (bit_or (sector >>> 24) 0xE0) in
      let s5 = io.out_byte 0x1F6 v s4 in
      let last : (q : ℕ) → disk.regs s5 q ≡ (if q == 0x1F6 then v else disk.regs s4 q) =
        λ q. disk.stores s4 0x1F6 q v (omega arith) (omega arith) in
      let r4 : (q : ℕ)
          → disk.regs s4 q ≡ (if q == 0x1F5 then u8 (sector >>> 16) else disk.regs s3 q) =
        λ q. disk.stores s3 0x1F5 q (u8 (sector >>> 16)) (omega arith) (omega arith) in
      let r3 : (q : ℕ)
          → disk.regs s3 q ≡ (if q == 0x1F4 then u8 (sector >>> 8) else disk.regs s2 q) =
        λ q. disk.stores s2 0x1F4 q (u8 (sector >>> 8)) (omega arith) (omega arith) in
      let r2 : (q : ℕ) → disk.regs s2 q ≡ (if q == 0x1F3 then u8 sector else disk.regs s1 q) =
        λ q. disk.stores s1 0x1F3 q (u8 sector) (omega arith) (omega arith) in
      let r1 = disk.stores (io.in_byte 0x1F7 s0).1 0x1F2 0x1F2 1 (omega arith) (omega arith) in
      let count : disk.regs s5 0x1F2 ≡ 1 = last 0x1F2 ∙ r4 0x1F2 ∙ r3 0x1F2 ∙ r2 0x1F2 ∙ r1 in
      let low : disk.regs s5 0x1F3 ≡ u8 sector = last 0x1F3 ∙ r4 0x1F3 ∙ r3 0x1F3 ∙ r2 0x1F3 in
      let mid : disk.regs s5 0x1F4 ≡ u8 (sector >>> 8) = last 0x1F4 ∙ r4 0x1F4 ∙ r3 0x1F4 in
      let high : disk.regs s5 0x1F5 ≡ u8 (sector >>> 16) = last 0x1F5 ∙ r4 0x1F5 in
      let top : disk.regs s5 0x1F6 ≡ 0xE0 + sector / 2 ^ 24 = last 0x1F6 ∙ drive sector h in
      disk.command s5 count (omega (arith, top)) ∙ omega (arith, low, mid, high, top)

  request_lem :
      (n sector : ℕ) (s : S)
      → sector < 2 ^ 28
      → (words : List ℕ) × (s' : S) × (request io (suc n) 1024 sector s ≡ done words s')
        × (length words ≡ 1024)
        × ((i : ℕ) → i < 512 → get_or (from_words words) i 0 ≡ disk.byte sector i)
  unfolding request selected
  request_lem n sector s h =
      let s1 = (io.in_byte 0x1F7 (io.out_byte 0x1F7 0x20 (selected sector s))).1 in
      (
        (io.in_longs 0x1F0 1024 s1).0,
        (io.in_longs 0x1F0 1024 s1).1,
        then_done (waitdisk io (suc n)) _ (waitdisk_lem n s) (
            then_done (waitdisk io (suc n)) (insl io 0x1F0 1024)
              (waitdisk_lem n (io.out_byte 0x1F7 0x20 (selected sector s))) refl),
        disk.counted s1,
        λ i lt.
            disk.transfers s1 i lt
            ∙ ap (λ t. disk.byte t i) (disk.poll_asked _ ∙ asked-selected sector s h),
      )

  -- After a transfer to `p`, its first 512 bytes are the sector's, and only 4096 bytes changed.
  pub record Transferred (p sector : ℕ) (m m' : Memory) : Type 0 where
    pub there : (x : ℕ) → p ≤ x → x < p + 512 → m' x ≡ disk.byte sector (x - p)
    pub below : (x : ℕ) → x < p → m' x ≡ m x
    pub above : (x : ℕ) → p + 4096 ≤ x → m' x ≡ m x

  stored-Transferred :
      (p sector : ℕ) (m : Memory) (words : List ℕ)
      → length words ≡ 1024
      → ((i : ℕ) → i < 512 → get_or (from_words words) i 0 ≡ disk.byte sector i)
      → Transferred p sector m (store m p (from_words words))
  stored-Transferred p sector m words size first =
      let len : length (from_words words) ≡ 4096 = omega (arith, length-from_words words, size) in
      record {
        there = λ x ge lt. ground (arith, first (x - p), len);
        below = λ x lt. ground (arith, len);
        above = λ x ge. ground (arith, len);
      }

  pub readsect_lem :
      (n p sector : ℕ) (m : Memory) (s : S)
      → sector < 2 ^ 28
      → (m' : Memory) × (s' : S) × (readsect io (suc n) p 1024 sector (m, s) ≡ done tt (m', s'))
        × Transferred p sector m m'
  unfolding readsect
  readsect_lem n p sector m s h =
      let (words, s', run, size, first) = request_lem n sector s h in
      (
        store m p (from_words words),
        s',
        bind_done (on_machine (request io (suc n) 1024 sector))
            (λ words. change (λ m. store m p (from_words words))) {s = (m, s)}
            (on_machine-done (request io (suc n) 1024 sector) m run) refl,
        stored-Transferred p sector m words size first,
      )
