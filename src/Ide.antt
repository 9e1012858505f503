-- ===== src/Ide.antt =====
-- src/ide.rs: the IDE disk driver over port I/O, and as an implementation of the trait `Disk`. A
-- driver's state is the flag `busy`, next to the machine's.
pub mod Ready
pub mod Transfers
pub mod Commands
pub mod Polling
mod PollingExamples
mod Examples
use sprocket.Base.{
  ℕ, zero, suc, ◌+◌, ◌*◌, ◌/◌, ◌%◌, ◌≡◌, Bool, true, false, not, List, ◌++◌, ◌==◌, leb,
  if◌then◌else◌, bit_and, bit_or, length, take, drop, replicate, min, u8, ◌<<<◌, ◌>>>◌, Run, Cmd,
  done, panic, spin, pure, assert, ◌>>=◌, ◌>>◌,
}
use sprocket.Port.{Io, inb, outb, insl, outsl}
use sprocket.SimpleFs.Types.{DiskError, io_error, blocksize}
use sprocket.SimpleFs.Layout.{to_words, from_words}
use sprocket.SimpleFs.Files.{overwrite}

abbrev pub sector_size : ℕ
sector_size = 512

abbrev pub ide_bsy : ℕ
ide_bsy = 0x80

abbrev pub ide_drdy : ℕ
ide_drdy = 0x40

abbrev pub ide_df : ℕ
ide_df = 0x20

abbrev pub ide_err : ℕ
ide_err = 0x01

abbrev pub ide_cmd_read : ℕ
ide_cmd_read = 0x20

abbrev pub ide_cmd_write : ℕ
ide_cmd_write = 0x30

-- `struct Ide`
pub record Ide : Type 0 where
  pub busy : Bool

-- `Ide::init`
abbrev pub new_ide : Ide
new_ide = record { busy = false }

-- `Result<A, DiskError>`
pub data DiskResult (A : Type 0) : Type 0 where
  good : A → DiskResult A
  bad : DiskError → DiskResult A

module _ {S : Type 0} where
  -- The operator `?`: the rest runs if the result is good.
  abbrev pub try :
      {A B : Type 0} → Cmd S (DiskResult A) → (A → Cmd S (DiskResult B)) → Cmd S (DiskResult B)
  try m f = m >>= λ r. elim r [ good a ↦ f a | bad e ↦ pure (bad e) ]

  abbrev pub on_machine : {A : Type 0} → Cmd S A → Cmd (Ide × S) A
  on_machine m (ide, s) = elim (m s) [ done a s' ↦ done a (ide, s') | panic ↦ panic | spin ↦ spin ]

  abbrev pub set_busy : Cmd (Ide × S) (Unit {0})
  set_busy (ide, s) = done tt (record { busy = true }, s)

-- Is the disk ready for a command or for data?
abbrev pub ready : ℕ → Bool
ready r = bit_and r (bit_or ide_bsy ide_drdy) == ide_drdy

-- the result of `wait` for the status that ended it
abbrev pub status_result : ℕ → DiskResult (Unit {0})
status_result r = if bit_and r (bit_or ide_df ide_err) == 0 then good tt else bad io_error

module _ {S : Type 0} (io : Io S) where
  -- `wait`, for at most so many rounds of its loop
  unfoldable pub wait : (rounds : ℕ) → Cmd S (DiskResult (Unit {0}))
  wait zero = λ s. spin
  wait (suc n) = do r ← inb io 0x1f7; if ready r then pure (status_result r) else wait n

  unfoldable pub ide_cmd : (device sector : ℕ) → Cmd S (Unit {0})
  ide_cmd device sector = do
    outb io 0x1f2 (u8 (blocksize / sector_size))
    assert (blocksize == sector_size)
    outb io 0x1f3 (bit_and (u8 sector) 0xff)
    outb io 0x1f4 (bit_and (u8 (sector >>> 8)) 0xff)
    outb io 0x1f5 (bit_and (u8 (sector >>> 16)) 0xff)
    outb io 0x1f6 (
        bit_or (bit_or 0xe0 (u8 (u8 (bit_and device 1) <<< 4))) (bit_and (u8 (sector >>> 24)) 0x0f))

  -- the transfer in `read`: the buffer comes back filled
  unfoldable pub receive : (buffer : List ℕ) → Cmd (Ide × S) (DiskResult (List ℕ))
  unfolding from_words overwrite
  receive buffer = do
    words ← on_machine (insl io 0x1f0 (sector_size / 4))
    if leb sector_size (length buffer)
        then pure (good (from_words words ++ drop sector_size buffer))
        else pure (good (overwrite buffer (from_words words)))

  unfoldable pub read :
      (rounds : ℕ) → (buffer : List ℕ) → (device sector : ℕ) → Cmd (Ide × S) (DiskResult (List ℕ))
  unfolding wait ide_cmd receive
  read rounds buffer device sector = do
    set_busy
    try (on_machine (wait rounds)) (λ _. do
      on_machine (ide_cmd device sector)
      on_machine (outb io 0x1f7 ide_cmd_read)
      try (on_machine (wait rounds)) (λ _. receive buffer))

  -- the transfer in `write`, up to its result
  unfoldable pub send : (rounds : ℕ) → (bytes : List ℕ) → (count : ℕ) → Cmd (Ide × S) (DiskResult ℕ)
  unfolding wait to_words
  send rounds bytes count = do
    on_machine (outsl io 0x1f0 (to_words (take sector_size bytes)))
    try (on_machine (wait rounds)) (λ _. pure (good (min sector_size count)))

  unfoldable pub transfer :
      (rounds : ℕ) → (buffer : List ℕ) → (device sector : ℕ) → Cmd (Ide × S) (DiskResult ℕ)
  unfolding read overwrite send
  transfer rounds buffer device sector =
      if leb sector_size (length buffer)
      then send rounds buffer (length buffer)
      else try (read rounds (replicate sector_size 0) device sector) (λ tmp_buf.
        let merged = overwrite tmp_buf buffer in
        do assert (length merged == sector_size); send rounds merged (length buffer))

  unfoldable pub write :
      (rounds : ℕ) → (buffer : List ℕ) → (device sector : ℕ) → Cmd (Ide × S) (DiskResult ℕ)
  unfolding wait ide_cmd transfer
  write rounds buffer device sector = do
    set_busy
    on_machine (wait rounds)
    on_machine (ide_cmd device sector)
    on_machine (outb io 0x1f7 ide_cmd_write)
    transfer rounds buffer device sector
