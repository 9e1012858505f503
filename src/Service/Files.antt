-- ===== src/Service/Files.antt =====
-- src/service/mod.rs: the files that the server reads when it starts.
use sprocket.Base.{ℕ, List, [], ◌∷◌, replicate, Cmd, Run, done}
use sprocket.SimpleFs.Types.{ok, Disk, Fs, pure, ◌>>=◌}
use sprocket.SimpleFs.Handle.{open_file, read_file, size}

-- a file of the root directory, whole
unfoldable pub read_whole : {D : Type 0} → Disk D → (name : List ℕ) → Fs D (List ℕ)
unfolding open_file read_file
read_whole disk name = do
  file ← open_file disk (b'/' ∷ []) name
  (buf, moved) ← read_file disk file (replicate (size file) 0)
  pure buf

-- The handles of files panic on errors.
abbrev pub run_fs : {S A : Type 0} → Fs S A → Cmd S A
run_fs m s = elim (m s) [ ok a s' ↦ done a s' | _ ↦ Run.panic ]
