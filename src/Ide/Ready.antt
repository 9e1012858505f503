-- ===== src/Ide/Ready.antt =====
-- A disk that is always ready, seen through the accesses that the driver of src/ide.rs makes to the
-- ports, and the driver's steps on it.
use sprocket.Base.{
  ℕ, suc, ◌≡◌, refl, ap, ◌∙◌, true, List, [], ◌∷◌, ◌++◌, bit_and, bit_or, length, u8, ◌<<<◌, ◌>>>◌,
  Run, Cmd, done, ◌>>=◌,
}
use mathlib.Core.List.{append_assoc}
use sprocket.Port.{Io}
use sprocket.Ide.{Ide, DiskResult, good, try, on_machine, wait, ide_cmd, ide_drdy}

pub data Access : Type 0 where
  out_port : (port value : ℕ) → Access
  sent : List ℕ → Access
  received : Access

-- A disk that is ready whenever it is asked, never fails and never changes its status by that. The
-- log tells the accesses that change something, and they decide which words the disk delivers next.
pub record Ready {S : Type 0} (io : Io S) : Type 0 where
  pub log : S → List Access
  pub content : List Access → List ℕ
  pub status : (s : S) → io.in_byte 0x1f7 s ≡ (ide_drdy, s)
  pub outs : (port v : ℕ) (s : S) → log (io.out_byte port v s) ≡ log s ++ out_port port v ∷ []
  pub sends : (ws : List ℕ) (s : S) → log (io.out_longs 0x1f0 ws s) ≡ log s ++ sent ws ∷ []
  pub receives : (s : S) → log ((io.in_longs 0x1f0 128 s).1) ≡ log s ++ received ∷ []
  pub delivers : (s : S) → (io.in_longs 0x1f0 128 s).0 ≡ content (log s)
  pub sector : (accesses : List Access) → length (content accesses) ≡ 128

-- The accesses of `ide_cmd`: one sector, its number in four pieces, and the drive.
unfoldable pub selection : (device sector : ℕ) → List Access
selection device sector =
    out_port 0x1f2 1
    ∷ out_port 0x1f3 (bit_and (u8 sector) 0xff)
    ∷ out_port 0x1f4 (bit_and (u8 (sector >>> 8)) 0xff)
    ∷ out_port 0x1f5 (bit_and (u8 (sector >>> 16)) 0xff)
    ∷ out_port 0x1f6 (
        bit_or (bit_or 0xe0 (u8 (u8 (bit_and device 1) <<< 4))) (bit_and (u8 (sector >>> 24)) 0x0f))
    ∷ []

module _ {X A B : Type 0} where
  pub try-good :
      (m : Cmd X (DiskResult A)) (k : A → Cmd X (DiskResult B)) {x x' : X} {a : A}
      {r : Run X (DiskResult B)}
      → m x ≡ done (good a) x'
      → k a x' ≡ r
      → try m k x ≡ r
  try-good m k e e' = rw (e, try, ◌>>=◌) e'

abbrev pub busy_ide : Ide
busy_ide = record { busy = true }

-- To run a sequence of the driver step by step.
module _ {S A B : Type 0} where
  pub on_machine-step :
      (m : Cmd S A) (k : A → Cmd (Ide × S) B) {ide : Ide} {s s' : S} {a : A} {r : Run (Ide × S) B}
      → m s ≡ done a s'
      → k a (ide, s') ≡ r
      → (on_machine m >>= k) (ide, s) ≡ r
  on_machine-step m k e e' = rw (e, on_machine, ◌>>=◌) e'

module _ {S A B : Type 0} where
  pub try-step :
      (m : Cmd S (DiskResult A)) (k : A → Cmd (Ide × S) (DiskResult B)) {ide : Ide} {s s' : S}
      {a : A} {r : Run (Ide × S) (DiskResult B)}
      → m s ≡ done (good a) s'
      → k a (ide, s') ≡ r
      → try (on_machine m) k (ide, s) ≡ r
  try-step m k e e' = rw (e, on_machine, try, ◌>>=◌) e'

module _ {S : Type 0} (io : Io S) (disk : Ready io) where
  pub wait-ready : (n : ℕ) (s : S) → wait io (suc n) s ≡ done (good tt) s
  unfolding wait
  wait-ready n s = rw (disk.status s) refl

  -- The state after `ide_cmd`.
  abbrev pub selected : (device sector : ℕ) → S → S
  selected device sector s =
      let s1 = io.out_byte 0x1f2 1 s in
      let s2 = io.out_byte 0x1f3 (bit_and (u8 sector) 0xff) s1 in
      let s3 = io.out_byte 0x1f4 (bit_and (u8 (sector >>> 8)) 0xff) s2 in
      let s4 = io.out_byte 0x1f5 (bit_and (u8 (sector >>> 16)) 0xff) s3 in
      io.out_byte 0x1f6
        (bit_or (bit_or 0xe0 (u8 (u8 (bit_and device 1) <<< 4)))
          (bit_and (u8 (sector >>> 24)) 0x0f))
        s4

  pub ide_cmd-selection :
      (device sector : ℕ) (s : S)
      → (ide_cmd io device sector s ≡ done tt (selected device sector s))
        × (disk.log (selected device sector s) ≡ disk.log s ++ selection device sector)
  unfolding ide_cmd selection
  ide_cmd-selection device sector s = (refl, simp (disk.outs, append_assoc))

  -- `ide_cmd` and then a command
  abbrev pub commanded : (device sector command : ℕ) → S → S
  commanded device sector command s = io.out_byte 0x1f7 command (selected device sector s)

  pub log-commanded :
      (device sector command : ℕ) (s : S)
      → disk.log (commanded device sector command s)
        ≡ disk.log s ++ selection device sector ++ out_port 0x1f7 command ∷ []
  log-commanded device sector command s =
      disk.outs 0x1f7 command (selected device sector s)
      ∙ ap (λ log. log ++ out_port 0x1f7 command ∷ []) (ide_cmd-selection device sector s).1
