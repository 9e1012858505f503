-- ===== src/EntryPgDir/Examples.antt =====
-- The translation of an address of the kernel.
use sprocket.Base.{◌≡◌, some}
use sprocket.EntryPgDir.{translate, entry_pg_dir, translate-entry_pg_dir}

translate-entry_pg_dir_example : translate entry_pg_dir 0x8010_0123 ≡ some 0x10_0123
translate-entry_pg_dir_example = translate-entry_pg_dir 0x8010_0123
