-- ===== src/SimpleFs/DirExamples.antt =====
-- Directories on the disk in memory, and the theorems about them.
use sprocket.Base.{
  ℕ, ◌*◌, ◌<◌, ◌≡◌, ◌≢◌, ◌⊎◌, refl, List, [], ◌∷◌, ◌++◌, ◌==◌, arith, length, get_or, take,
  replicate, if◌then◌else◌,
}
use sprocket.SimpleFs.Types.{ok, err, not_found, entry_exists, directory, Inode}
use sprocket.SimpleFs.Dirs.{dir_lookup, dir_add}
use sprocket.SimpleFs.DirContents.{Listing, Passed, FirstAt, OnDisk, dir_lookup-listing}
use sprocket.SimpleFs.EntryBytes.{entry_bytes}
use sprocket.SimpleFs.DirTwo.{with_two_entries, dir_add-dir_lookup_second}
use sprocket.SimpleFs.MemoryDisk.{Store, memory_disk, memory_reliable, stored_sector}

abbrev ab : List ℕ
ab = b'a' ∷ b'b' ∷ []

-- A name that begins with another one.
abbrev abc : List ℕ
abc = b'a' ∷ b'b' ∷ b'c' ∷ []

abbrev listed : Listing
listed = (5, abc) ∷ (6, ab) ∷ []

-- Block 7 has one entry and as much of the second one as there is room for.
abbrev named : Store
named s = if s == 7 then entry_bytes (5, abc) ++ take 252 (entry_bytes (6, ab)) else []

abbrev two_names : Inode
two_names = record {
  type_ = directory;
  device = 1;
  major = 0;
  minor = 0;
  size = 520;
  blocks = 7 ∷ replicate 63 0;
}

two_names-OnDisk : OnDisk two_names memory_reliable named 0 listed
two_names-OnDisk = (
  record {
    small = omega arith;
    legal = (omega arith, omega arith, (omega arith, omega arith, (omega arith, omega arith, tt)));
    fits = omega arith;
    room = omega arith;
    mapped = λ e. omega arith;
    bytes = refl;
  },
  (
    record {
      small = omega arith;
      legal = (omega arith, omega arith, (omega arith, omega arith, tt));
      fits = omega arith;
      room = omega arith;
      mapped = λ e. omega arith;
      bytes = refl;
    },
    tt,
  ),
)

dir_lookup-listing_example :
    ((i : ℕ) × (target : ℕ) × FirstAt listed ab i target
      × (dir_lookup memory_disk two_names ab named ≡ ok (target, 260 * i) named))
    ⊎ (((j : ℕ) → j < length listed → Passed ab (get_or listed j (0, [])))
        × (dir_lookup memory_disk two_names ab named ≡ err not_found named))
dir_lookup-listing_example =
    dir_lookup-listing two_names memory_reliable named listed ab refl refl (omega arith)
      two_names-OnDisk

abbrev one_name : Inode
one_name = record two_names { size = 260 }

abbrev named_once : Store
named_once s = if s == 7 then entry_bytes (5, abc) else []

dir_add-dir_lookup_second_example :
    let dir' = with_two_entries one_name memory_reliable refl refl (λ e. omega arith) in
    (d' : Store) × (dir_add memory_disk ab 6 (one_name, named_once) ≡ ok tt (dir', d'))
    × (dir_lookup memory_disk dir' abc d' ≡ ok (5, 0) d')
    × (dir_lookup memory_disk dir' ab d' ≡ ok (6, 260) d')
    × ((other : List ℕ)
        → other ≢ abc
        → other ≢ ab
        → dir_lookup memory_disk dir' other d' ≡ err not_found d')
    × ((again : ℕ) → dir_add memory_disk ab again (dir', d') ≡ err entry_exists (dir', d'))
    × ((t : ℕ) → t ≢ 7 → stored_sector d' t ≡ stored_sector named_once t)
dir_add-dir_lookup_second_example =
    dir_add-dir_lookup_second one_name memory_reliable refl refl (λ e. omega arith) abc ab
      (replicate 252 0) 5 6 named_once
      (omega arith, omega arith, (omega arith, omega arith, (omega arith, omega arith, tt)))
      (omega arith) (omega arith) (omega arith, omega arith, (omega arith, omega arith, tt))
      (omega arith) (omega arith) (λ e. cc e) refl
