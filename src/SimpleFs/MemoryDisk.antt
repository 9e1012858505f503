-- ===== src/SimpleFs/MemoryDisk.antt =====
-- A disk in memory, without faults, to run the file system on.
use sprocket.Base.{
  ℕ, zero, suc, ◌%◌, ◌^◌, ◌≤◌, ◌≡◌, ◌≢◌, refl, ap, true, false, List, [], ◌∷◌, ◌++◌, ◌==◌,
  if◌then◌else◌, arith, length, take, drop, length-append, length-drop,
}
use sprocket.SimpleFs.Types.{Disk, DiskRun, blocksize}
use sprocket.SimpleFs.Layout.{AllBelow, AllBelow-append, AllBelow-drop}
use sprocket.SimpleFs.Reliable.{Reliable}

-- what each sector was filled with last
abbrev pub Store : Type 0
Store = ℕ → List ℕ

-- A sector has as many bytes as it has, whatever it was filled with.
abbrev pub clean : ℕ → List ℕ → List ℕ
clean zero xs = []
clean (suc n) [] = 0 ∷ clean n []
clean (suc n) (x ∷ xs) = x % 2 ^ 8 ∷ clean n xs

pub length-clean : (n : ℕ) (xs : List ℕ) → length (clean n xs) ≡ n
length-clean zero xs = refl
length-clean (suc n) [] = ap suc (length-clean n [])
length-clean (suc n) (x ∷ xs) = ap suc (length-clean n xs)

pub clean-AllBelow : (n : ℕ) (xs : List ℕ) → AllBelow (2 ^ 8) (clean n xs)
clean-AllBelow zero xs = tt
clean-AllBelow (suc n) [] = (omega arith, clean-AllBelow n [])
clean-AllBelow (suc n) (x ∷ xs) = (omega arith, clean-AllBelow n xs)

pub clean_whole : (n : ℕ) (xs : List ℕ) → length xs ≡ n → AllBelow (2 ^ 8) xs → clean n xs ≡ xs
clean_whole zero [] h b = refl
clean_whole zero (x ∷ xs) h b = absurd (omega arith)
clean_whole (suc n) [] h b = absurd (omega arith)
clean_whole (suc n) (x ∷ xs) h b = ground (arith, b.0, clean_whole n xs (omega arith) b.1)

abbrev pub stored_sector : Store → ℕ → List ℕ
stored_sector d s = clean blocksize (d s)

abbrev pub overlaid : List ℕ → ℕ → Store → List ℕ
overlaid buffer s d = buffer ++ drop (length buffer) (stored_sector d s)

abbrev pub memory_disk : Disk Store
memory_disk = record {
  read = λ buffer device s d. DiskRun.ok (take (length buffer) (stored_sector d s)) d;
  write = λ buffer device s d.
      DiskRun.ok (length buffer) (λ t. if t == s then overlaid buffer s d else d t);
  sector_size = blocksize;
}

pub write_here :
    (buffer : List ℕ) (s : ℕ) (d : Store)
    → length buffer ≤ blocksize
    → AllBelow (2 ^ 8) buffer
    → clean blocksize (if s == s then overlaid buffer s d else d s) ≡ overlaid buffer s d
write_here buffer s d h bytes =
    let same : (s == s) ≡ true = ground arith in
    rw same (
      clean_whole blocksize (overlaid buffer s d)
        (omega (
          arith,
          length-append buffer (drop (length buffer) (stored_sector d s)),
          length-drop (length buffer) (stored_sector d s),
          length-clean blocksize (d s),
        ))
        (AllBelow-append (2 ^ 8) buffer (drop (length buffer) (stored_sector d s)) bytes (
          AllBelow-drop (2 ^ 8) (length buffer) (stored_sector d s)
            (clean-AllBelow blocksize (d s)))))

pub write_elsewhere :
    (buffer : List ℕ) (s : ℕ) (d : Store) (t : ℕ)
    → t ≢ s
    → clean blocksize (if t == s then overlaid buffer s d else d t) ≡ stored_sector d t
write_elsewhere buffer s d t apart = let other : (t == s) ≡ false = ground arith in rw other refl

abbrev pub memory_reliable : Reliable memory_disk 1
memory_reliable = record {
  sector = stored_sector;
  sector_length = λ d s. length-clean blocksize (d s);
  sector_bytes = λ d s. clean-AllBelow blocksize (d s);
  reads = λ buffer s d h. refl;
  writes = λ buffer s d h bytes. (
    (λ t. if t == s then overlaid buffer s d else d t),
    refl,
    write_here buffer s d h bytes,
    write_elsewhere buffer s d,
  );
}
