-- ===== src/Mem/Examples.antt =====
-- The address arithmetic at concrete addresses.
use sprocket.Base.{◌+◌, ◌%◌, ◌≤◌, ◌<◌, ◌≡◌, refl, arith}
use sprocket.Mem.{page_roundup, page_rounddown}
use sprocket.Mem.Paging.{page_round_bounds}

roundings : (page_roundup 0x8011_0123 ≡ 0x8011_1000) × (page_rounddown 0x8011_0123 ≡ 0x8011_0000)
unfolding page_roundup page_rounddown
roundings = (refl, refl)

page_round_bounds_example :
    (page_roundup 0x8011_0123 % 4096 ≡ 0)
    × (page_rounddown 0x8011_0123 % 4096 ≡ 0)
    × (0x8011_0123 ≤ page_roundup 0x8011_0123)
    × (page_roundup 0x8011_0123 < 0x8011_0123 + 4096)
    × (page_rounddown 0x8011_0123 ≤ 0x8011_0123)
    × (0x8011_0123 < page_rounddown 0x8011_0123 + 4096)
    × (0x8011_0123 % 4096 ≡ 0
        → (page_roundup 0x8011_0123 ≡ 0x8011_0123) × (page_rounddown 0x8011_0123 ≡ 0x8011_0123))
page_round_bounds_example = page_round_bounds 0x8011_0123 (omega arith)
