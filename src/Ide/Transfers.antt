-- ===== src/Ide/Transfers.antt =====
-- The sectors that the driver of src/ide.rs moves: what comes into a buffer, and what is sent.
use sprocket.Base.{
  ℕ, suc, ◌<◌, ◌≡◌, refl, sym, ap, ◌∙◌, false, Bool-cases, inl, inr, List, [], ◌∷◌, ◌++◌, leb,
  arith, length, take, drop, min, take_past, Run, Cmd, done, pure,
}
use mathlib.Core.List.{append-nil}
use sprocket.Port.{Io, outsl}
use sprocket.SimpleFs.Layout.{to_words, from_words, length-from_words}
use sprocket.SimpleFs.ReadFile.{overwrite_lem}
use sprocket.SimpleFs.Files.{overwrite}
use sprocket.Ide.{Ide, DiskResult, good, try, on_machine, wait, receive, send}
use sprocket.Ide.Ready.{sent, Ready, busy_ide, on_machine-step, try-step, wait-ready}

pub not_whole : (n : ℕ) → n < 512 → leb 512 n ≡ false
not_whole n h = ground arith

-- The sector that is written, when a buffer replaces the first bytes of one that was read.
pub overwritten_lem :
    (old buffer : List ℕ)
    → length buffer < 512
    → length old ≡ 128
    → overwrite (take 512 (from_words old) ++ []) buffer
      ≡ buffer ++ drop (length buffer) (from_words old)
overwritten_lem old buffer h size =
    let bytes : length (from_words old) ≡ 512 = omega (arith, length-from_words old) in
    let sector : take 512 (from_words old) ++ [] ≡ from_words old =
      append-nil (take 512 (from_words old)) ∙ take_past 512 (from_words old) (omega arith) in
    ap (λ bs. overwrite bs buffer) sector
    ∙ overwrite_lem (from_words old) buffer
    ∙ ap (λ bs. bs ++ drop (length buffer) (from_words old))
        (take_past (length (from_words old)) buffer (omega arith))

module _ {S : Type 0} (io : Io S) (disk : Ready io) where
  -- The buffer after a sector came in: as many of its bytes as fit, and the rest of a longer buffer.
  abbrev pub filled : (buffer words : List ℕ) → List ℕ
  filled buffer words = take (length buffer) (from_words words) ++ drop 512 buffer

  pub receive_lem :
      (buffer : List ℕ) (ide : Ide) (s : S)
      → length (io.in_longs 0x1f0 128 s).0 ≡ 128
      → receive io buffer (ide, s)
        ≡ done (good (filled buffer (io.in_longs 0x1f0 128 s).0)) (ide, (io.in_longs 0x1f0 128 s).1)
  unfolding receive
  receive_lem buffer ide s size =
      let (words, s') = io.in_longs 0x1f0 128 s in
      let ends : List ℕ → Run (Ide × S) (DiskResult (List ℕ)) = λ buf. done (good buf) (ide, s') in
      let bytes : length (from_words words) ≡ 512 = omega (arith, length-from_words words, size) in
      elim (Bool-cases (leb 512 (length buffer))) [
        | inl whole ↦ rw whole (
            ap (λ bs. ends (bs ++ drop 512 buffer))
              (sym (take_past (length buffer) (from_words words) (ground arith))))
        | inr part ↦ rw part (
            ap ends (
              overwrite_lem buffer (from_words words)
              ∙ ap (λ n. take (length buffer) (from_words words) ++ drop n buffer) bytes))
      ]

  pub send_lem :
      (n : ℕ) (bytes : List ℕ) (count : ℕ) (s : S)
      → (s' : S) × (send io (suc n) bytes count (busy_ide, s)
          ≡ done (good (min 512 count)) (busy_ide, s'))
        × (disk.log s' ≡ disk.log s ++ sent (to_words (take 512 bytes)) ∷ [])
  unfolding send
  send_lem n bytes count s =
      let s' = io.out_longs 0x1f0 (to_words (take 512 bytes)) s in
      let counted : Cmd (Ide × S) (DiskResult ℕ) = pure (good (min 512 count)) in
      let finished : Cmd (Ide × S) (DiskResult ℕ) =
        try (on_machine (wait io (suc n))) (λ _. counted) in
      (
        s',
        on_machine-step (outsl io 0x1f0 (to_words (take 512 bytes))) (λ _. finished)
            {ide = busy_ide} {s = s} refl
            (try-step (wait io (suc n)) (λ _. counted) {ide = busy_ide} (wait-ready io disk n s')
              refl),
        disk.sends (to_words (take 512 bytes)) s,
      )
