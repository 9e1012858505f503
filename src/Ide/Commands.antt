-- ===== src/Ide/Commands.antt =====
-- What the driver of src/ide.rs does to a disk that is always ready: its accesses to the ports, in
-- order, and the results.
use sprocket.Base.{
  ℕ, suc, ◌≤◌, ◌<◌, ◌≡◌, refl, ap, ◌∙◌, true, false, List, [], ◌∷◌, ◌++◌, ◌==◌, leb, le→leb, arith,
  length, take, drop, replicate, min, take_past, Cmd, done, ◌>>◌, length-append, length-drop,
  ==_iff, assert,
}
use mathlib.Core.List.{append_assoc}
use sprocket.Port.{Io, outb}
use sprocket.SimpleFs.Layout.{to_words, from_words, length-from_words}
use sprocket.SimpleFs.Files.{overwrite}
use sprocket.Ide.{
  Ide, DiskResult, good, try, on_machine, wait, ide_cmd, receive, send, transfer, read, write,
  ide_cmd_read, ide_cmd_write,
}
use sprocket.Ide.Ready.{
  out_port, sent, received, Ready, selection, busy_ide, try-good, on_machine-step, try-step,
  wait-ready, selected, ide_cmd-selection, commanded, log-commanded,
}
use sprocket.Ide.Transfers.{not_whole, overwritten_lem, filled, receive_lem, send_lem}

module _ {S : Type 0} (io : Io S) (disk : Ready io) where
  -- On a disk that is always ready, a read selects its sector, gives the command and receives one
  -- sector. The buffer is filled from its start with the bytes of the words that the disk delivers
  -- after these accesses; the rest of a longer buffer stays.
  pub read_lem :
      (n : ℕ) (buffer : List ℕ) (device sector : ℕ) (ide : Ide) (s : S)
      → let asked = disk.log s ++ selection device sector ++ out_port 0x1f7 ide_cmd_read ∷ [] in
        (s' : S) × (read io (suc n) buffer device sector (ide, s)
          ≡ done (good (filled io disk buffer (disk.content asked))) (busy_ide, s'))
        × (disk.log s' ≡ asked ++ received ∷ [])
  unfolding read
  read_lem n buffer device sector ide s =
      let s1 = selected io disk device sector s in
      let s2 = io.out_byte 0x1f7 ide_cmd_read s1 in
      let s3 = (io.in_longs 0x1f0 128 s2).1 in
      let asked_log = log-commanded io disk device sector ide_cmd_read s in
      let awaited : Cmd (Ide × S) (DiskResult (List ℕ)) =
        try (on_machine (wait io (suc n))) (λ _. receive io buffer) in
      let asked : Cmd (Ide × S) (DiskResult (List ℕ)) =
        on_machine (outb io 0x1f7 ide_cmd_read) >> awaited in
      (
        s3,
        try-step (wait io (suc n)) (λ _. on_machine (ide_cmd io device sector) >> asked)
              {ide = busy_ide} (wait-ready io disk n s)
              (on_machine-step (ide_cmd io device sector) (λ _. asked) {ide = busy_ide}
                (ide_cmd-selection io disk device sector s).0
                (on_machine-step (outb io 0x1f7 ide_cmd_read) (λ _. awaited) {ide = busy_ide}
                  {s = s1} refl
                  (try-step (wait io (suc n)) (λ _. receive io buffer) {ide = busy_ide}
                    (wait-ready io disk n s2)
                    (receive_lem io disk buffer busy_ide s2
                      (ap length (disk.delivers s2) ∙ disk.sector (disk.log s2))))))
            ∙ ap (λ words. done (good (filled io disk buffer words)) (busy_ide, s3))
                (disk.delivers s2 ∙ ap disk.content asked_log),
        disk.receives s2 ∙ ap (λ log. log ++ received ∷ []) asked_log,
      )

  -- `write` up to its transfer
  write-transfer :
      (n : ℕ) (buffer : List ℕ) (device sector : ℕ) (ide : Ide) (s : S)
      → write io (suc n) buffer device sector (ide, s)
        ≡ transfer io
            (suc n)
            buffer
            device
            sector
            (busy_ide, commanded io disk device sector ide_cmd_write s)
  unfolding write
  write-transfer n buffer device sector ide s =
      let asked : Cmd (Ide × S) (DiskResult ℕ) =
        on_machine (outb io 0x1f7 ide_cmd_write) >> transfer io (suc n) buffer device sector in
      on_machine-step (wait io (suc n)) (λ _. on_machine (ide_cmd io device sector) >> asked)
        {ide = busy_ide} (wait-ready io disk n s)
        (on_machine-step (ide_cmd io device sector) (λ _. asked) {ide = busy_ide}
          (ide_cmd-selection io disk device sector s).0 refl)

  -- On a disk that is always ready, writing a buffer of at least a sector selects the sector, gives
  -- the command and sends the first 512 bytes.
  pub write-whole :
      (n : ℕ) (buffer : List ℕ) (device sector : ℕ) (ide : Ide) (s : S)
      → 512 ≤ length buffer
      → (s' : S) × (write io (suc n) buffer device sector (ide, s) ≡ done (good 512) (busy_ide, s'))
        × (disk.log s'
            ≡ disk.log s
              ++ selection device sector
              ++ out_port 0x1f7 ide_cmd_write ∷ []
              ++ sent (to_words (take 512 buffer)) ∷ [])
  unfolding transfer
  write-whole n buffer device sector ide s size =
      let (s', run, logged) =
        send_lem io disk n buffer (length buffer)
          (commanded io disk device sector ide_cmd_write s) in
      let whole : leb 512 (length buffer) ≡ true = le→leb 512 (length buffer) size in
      let count : min 512 (length buffer) ≡ 512 = omega arith in
      (
        s',
        write-transfer n buffer device sector ide s
            ∙ rw whole run
            ∙ ap (λ k. done (good k) (busy_ide, s')) count,
        logged
            ∙ ap (λ log. log ++ sent (to_words (take 512 buffer)) ∷ [])
                (log-commanded io disk device sector ide_cmd_write s),
      )

  -- On a disk that is always ready, writing less than a sector gives the command to write, then
  -- reads the sector with a command of its own, and sends the buffer, followed by the rest of the
  -- sector that the disk delivered, after that second command.
  pub write-part :
      (n : ℕ) (buffer : List ℕ) (device sector : ℕ) (ide : Ide) (s : S)
      → length buffer < 512
      → let asked =
          disk.log s
          ++ selection device sector
          ++ out_port 0x1f7 ide_cmd_write ∷ []
          ++ selection device sector
          ++ out_port 0x1f7 ide_cmd_read ∷ [] in
        (s' : S) × (write io (suc n) buffer device sector (ide, s)
          ≡ done (good (length buffer)) (busy_ide, s'))
        × (disk.log s'
            ≡ asked
              ++ received ∷ []
              ++ sent (to_words (buffer ++ drop (length buffer) (from_words (disk.content asked))))
                ∷ [])
  unfolding transfer
  write-part n buffer device sector ide s size =
      let s1 = commanded io disk device sector ide_cmd_write s in
      let asked1 = disk.log s1 ++ selection device sector ++ out_port 0x1f7 ide_cmd_read ∷ [] in
      let old = disk.content asked1 in
      let (s2, run2, logged2) = read_lem n (replicate 512 0) device sector busy_ide s1 in
      let merged = overwrite (filled io disk (replicate 512 0) old) buffer in
      let is_bytes = overwritten_lem old buffer size (disk.sector asked1) in
      let merged_length : length merged ≡ 512 =
        ap length is_bytes
        ∙ omega (
          arith,
          length-append buffer (drop (length buffer) (from_words old)),
          length-drop (length buffer) (from_words old),
          length-from_words old,
          disk.sector asked1,
        ) in
      let bytes = buffer ++ drop (length buffer) (from_words old) in
      let (s3, run3, logged3) = send_lem io disk n merged (length buffer) s2 in
      let part : leb 512 (length buffer) ≡ false = not_whole (length buffer) size in
      let count : min 512 (length buffer) ≡ length buffer = omega arith in
      let whole : (length merged == 512) ≡ true = (==_iff (length merged) 512).1 merged_length in
      let opened : asked1 ≡ (
          disk.log s
          ++ selection device sector
          ++ out_port 0x1f7 ide_cmd_write ∷ []
          ++ selection device sector
          ++ out_port 0x1f7 ide_cmd_read ∷ []) =
        ap (λ log. log ++ selection device sector ++ out_port 0x1f7 ide_cmd_read ∷ [])
          (log-commanded io disk device sector ide_cmd_write s)
        ∙ simp append_assoc in
      (
        s3,
        write-transfer n buffer device sector ide s
            ∙ rw part (
                try-good (read io (suc n) (replicate 512 0) device sector)
                  (λ tmp_buf.
                    assert (length (overwrite tmp_buf buffer) == 512)
                    >> send io (suc n) (overwrite tmp_buf buffer) (length buffer))
                  {x = (busy_ide, s1)} run2 (rw whole run3))
            ∙ ap (λ k. done (good k) (busy_ide, s3)) count,
        logged3
            ∙ ap (λ log. log ++ sent (to_words (take 512 merged)) ∷ []) logged2
            ∙ ap (λ bs. (asked1 ++ received ∷ []) ++ sent (to_words bs) ∷ [])
                (take_past 512 merged (omega (arith, merged_length)) ∙ is_bytes)
            ∙ ap
                (λ log.
                  (log ++ received ∷ [])
                  ++ sent
                      (to_words (buffer ++ drop (length buffer) (from_words (disk.content log))))
                    ∷ [])
                opened
            ∙ simp append_assoc,
      )
