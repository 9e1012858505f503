-- ===== src/Mkfs/RootCalls.antt =====
-- The calls with which `mkfs` of lib/simple_fs/src/bin.rs makes the root directory.
use sprocket.Base.{ℕ, ◌^◌, ◌<◌, ◌≡◌, refl, true, List, [], ◌∷◌, ◌==◌, ==_iff, arith, replicate}
use sprocket.SimpleFs.Types.{Disk, Fs, ok, bind_ok, then_ok, assert, Inode}
use sprocket.SimpleFs.Layout.{IsInode, replicate-AllBelow}
use sprocket.SimpleFs.Inodes.{alloc_inode, read_inode, update_inode}
use sprocket.SimpleFs.Dirs.{DirEntry, dirent_size, dir_lookup, dir_add}
use sprocket.SimpleFs.DirEntries.{new_entry}
use sprocket.Mkfs.FreeList.{unwrap-ok}
use sprocket.Mkfs.{new_inode, with_inode, unwrap, make_root}

abbrev pub dot : List ℕ
dot = b'.' ∷ []

abbrev pub dots : List ℕ
dots = b'.' ∷ b'.' ∷ []

-- The entries of the root directory.
abbrev pub root_entries : List DirEntry
root_entries = new_entry dot 0 ∷ new_entry dots 0 ∷ []

-- The inode of the root directory, whose block is b.
abbrev pub root_inode : (b : ℕ) → Inode
root_inode b = record (new_inode true) { size = 520; blocks = b ∷ replicate 63 0 }

pub new_inode-IsInode : IsInode (new_inode true)
new_inode-IsInode = record {
  device_fits = omega arith;
  major_fits = omega arith;
  minor_fits = omega arith;
  size_fits = omega arith;
  blocks_fit = replicate-AllBelow (2 ^ 32) 64 (omega arith);
  all_blocks = refl;
}

pub root_inode-IsInode : (b : ℕ) → b < 2 ^ 32 → IsInode (root_inode b)
root_inode-IsInode b h = record {
  device_fits = omega arith;
  major_fits = omega arith;
  minor_fits = omega arith;
  size_fits = omega arith;
  blocks_fit = (h, replicate-AllBelow (2 ^ 32) 63 (omega arith));
  all_blocks = refl;
}

with_inode-ok :
    {D A : Type 0} (i : Inode) (m : Fs (Inode × D) A) {i' : Inode} {a : A} {d d' : D}
    → m (i, d) ≡ ok a (i', d')
    → with_inode i m d ≡ ok i' d'
with_inode-ok i m e = rw (with_inode, e) refl

-- The new directory with one entry.
abbrev pub one_entry : (b : ℕ) → Inode
one_entry b = record (new_inode true) { size = dirent_size; blocks = b ∷ replicate 63 0 }

module _ {D : Type 0} (disk : Disk D) where
  -- The calls of the function, one after the other, with no assertion that fails.
  pub make_root_run :
      (b : ℕ) (d d1 d2 d3 d4 : D)
      → alloc_inode disk 0 (new_inode true) d ≡ ok 0 d1
      → dir_add disk dot 0 (new_inode true, d1) ≡ ok tt (one_entry b, d2)
      → dir_add disk dots 0 (one_entry b, d2) ≡ ok tt (root_inode b, d3)
      → update_inode disk 0 (root_inode b) d3 ≡ ok tt d4
      → read_inode disk 1 0 d4 ≡ ok (root_inode b) d4
      → dir_lookup disk (root_inode b) dot d4 ≡ ok (0, 0) d4
      → dir_lookup disk (root_inode b) dots d4 ≡ ok (0, dirent_size) d4
      → make_root disk d ≡ ok tt d4
  unfolding make_root
  make_root_run b d d1 d2 d3 d4 run1 run2 run3 run4 back look_dot look_dots =
      let same_block : (b == b) ≡ true = (==_iff b b).1 refl in
      let asserted : assert (b == b) d4 ≡ ok tt d4 = rw same_block refl in
      bind_ok (alloc_inode disk 0 (new_inode true)) _ run1 (
        bind_ok (with_inode (new_inode true) (dir_add disk dot 0)) _
          (with_inode-ok (new_inode true) (dir_add disk dot 0) run2)
          (bind_ok (with_inode (one_entry b) (dir_add disk dots 0)) _
            (with_inode-ok (one_entry b) (dir_add disk dots 0) run3)
            (then_ok (update_inode disk 0 (root_inode b)) _ run4 (
              bind_ok (read_inode disk 1 0) _ back (
                then_ok (assert (b == b)) _ asserted (
                  bind_ok (unwrap (dir_lookup disk (root_inode b) dot)) _
                    (unwrap-ok (dir_lookup disk (root_inode b) dot) look_dot)
                    (bind_ok (unwrap (dir_lookup disk (root_inode b) dots)) _
                      (unwrap-ok (dir_lookup disk (root_inode b) dots) look_dots) refl)))))))
