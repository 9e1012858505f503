-- ===== src/Ide/Examples.antt =====
-- A disk that is always ready and keeps a log, and the theorems about the driver at it.
use sprocket.Base.{
  ℕ, ◌≡◌, refl, List, [], ◌∷◌, ◌++◌, length, take, drop, replicate, length-replicate, done, arith,
}
use sprocket.Port.{Io}
use sprocket.SimpleFs.Layout.{to_words, from_words}
use sprocket.Ide.{good, new_ide, read, write, ide_cmd_read, ide_cmd_write}
use sprocket.Ide.Ready.{Access, out_port, sent, received, Ready, selection, busy_ide}
use sprocket.Ide.Transfers.{filled}
use sprocket.Ide.Commands.{read_lem, write-whole, write-part}

abbrev Log : Type 0
Log = List Access

-- The words depend on the number of accesses before.
abbrev content : Log → List ℕ
content s = replicate 128 (length s)

abbrev log_io : Io Log
log_io = record {
  in_byte = λ _ s. (0x40, s);
  in_word = λ _ s. (0, s);
  in_long = λ _ s. (0, s);
  out_byte = λ port v s. s ++ out_port port v ∷ [];
  out_word = λ _ _ s. s;
  out_long = λ _ _ s. s;
  in_longs = λ _ n s. (content s, s ++ received ∷ []);
  out_longs = λ _ ws s. s ++ sent ws ∷ [];
}

abbrev log_disk : Ready log_io
log_disk = record {
  log = λ s. s;
  content = content;
  status = λ s. refl;
  outs = λ port v s. refl;
  sends = λ ws s. refl;
  receives = λ s. refl;
  delivers = λ s. refl;
  sector = λ accesses. length-replicate 128 (length accesses);
}

read_lem_example :
    let asked = [] ++ selection 1 300 ++ out_port 0x1f7 ide_cmd_read ∷ [] in
    (s' : Log) × (read log_io 1 (0 ∷ 0 ∷ []) 1 300 (new_ide, [])
      ≡ done (good (filled log_io log_disk (0 ∷ 0 ∷ []) (content asked))) (busy_ide, s'))
    × (s' ≡ asked ++ received ∷ [])
read_lem_example = read_lem log_io log_disk 0 (0 ∷ 0 ∷ []) 1 300 new_ide []

write-whole_example :
    (s' : Log) × (write log_io 1 (replicate 512 1) 1 300 (new_ide, [])
      ≡ done (good 512) (busy_ide, s'))
    × (s'
        ≡ []
          ++ selection 1 300
          ++ out_port 0x1f7 ide_cmd_write ∷ []
          ++ sent (to_words (take 512 (replicate 512 1))) ∷ [])
write-whole_example = write-whole log_io log_disk 0 (replicate 512 1) 1 300 new_ide [] (omega arith)

write-part_example :
    let asked =
      []
      ++ selection 1 300
      ++ out_port 0x1f7 ide_cmd_write ∷ []
      ++ selection 1 300
      ++ out_port 0x1f7 ide_cmd_read ∷ [] in
    (s' : Log) × (write log_io 1 (5 ∷ 6 ∷ []) 1 300 (new_ide, []) ≡ done (good 2) (busy_ide, s'))
    × (s'
        ≡ asked
          ++ received ∷ []
          ++ sent (to_words ((5 ∷ 6 ∷ []) ++ drop 2 (from_words (content asked)))) ∷ [])
write-part_example = write-part log_io log_disk 0 (5 ∷ 6 ∷ []) 1 300 new_ide [] (omega arith)
