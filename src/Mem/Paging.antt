-- ===== src/Mem/Paging.antt =====
-- Rounding, page numbers and page-table indices of lib/mem_utils/src/lib.rs, as arithmetic.
use sprocket.Base.{
  ℕ, ◌+◌, ◌-◌, ◌*◌, ◌/◌, ◌%◌, ◌^◌, ◌≤◌, ◌<◌, ◌≡◌, arith, bit_and, bit_and_high, bit_and_low, u32,
  wrapping_sub,
}
use sprocket.Mem.{
  pgsize, kernbase, page_mask, page_roundup, page_rounddown, page_dir_index, page_table_index,
  from_pageno, pageno, to_virt, to_phys,
}

-- The mask clears the twelve low bits of a word.
page_mask_lem : (a : ℕ) → a < 2 ^ 32 → bit_and a page_mask ≡ a / 4096 * 4096
page_mask_lem a h = omega (arith, bit_and_high 12 a 0xFFFFF, bit_and_low 20 (a / 4096))

-- Rounding down gives the page boundary at or below a 32-bit address.
pub page_rounddown_lem : (a : ℕ) → a < 2 ^ 32 → page_rounddown a ≡ a / 4096 * 4096
unfolding page_rounddown
page_rounddown_lem a h = page_mask_lem a h

pub page_roundup_lem : (a : ℕ) → a + 4095 < 2 ^ 32 → page_roundup a ≡ (a + 4095) / 4096 * 4096
unfolding page_roundup
page_roundup_lem a h =
    omega (arith, page_mask_lem (wrapping_sub (u32 (a + pgsize)) 1) (omega arith))

-- Both roundings of a 32-bit address that lies below the last page give page boundaries; the address
-- lies between them, and each is less than a page away. On a boundary both are the address itself.
pub page_round_bounds :
    (a : ℕ)
    → a + 4095 < 2 ^ 32
    → (page_roundup a % 4096 ≡ 0)
      × (page_rounddown a % 4096 ≡ 0)
      × (a ≤ page_roundup a)
      × (page_roundup a < a + 4096)
      × (page_rounddown a ≤ a)
      × (a < page_rounddown a + 4096)
      × (a % 4096 ≡ 0 → (page_roundup a ≡ a) × (page_rounddown a ≡ a))
page_round_bounds a h = omega (arith, page_roundup_lem a h, page_rounddown_lem a (omega arith))

-- In the last page of the address space rounding up wraps to zero.
pub page_roundup_wraps : (a : ℕ) → 2 ^ 32 - 4096 < a → a < 2 ^ 32 → page_roundup a ≡ 0
unfolding page_roundup
page_roundup_wraps a lo hi =
    omega (arith, page_mask_lem (wrapping_sub (u32 (a + pgsize)) 1) (omega arith))

pub page_dir_index_lem : (va : ℕ) → va < 2 ^ 32 → page_dir_index va ≡ va / 2 ^ 22
unfolding page_dir_index
page_dir_index_lem va h = omega (arith, bit_and_low 10 (va / 2 ^ 22))

pub page_table_index_lem : (va : ℕ) → page_table_index va ≡ va / 2 ^ 12 % 1024
unfolding page_table_index
page_table_index_lem va = bit_and_low 10 (va / 2 ^ 12)

-- The two indices are below 1024 and, with the offset in the page, make up the address.
pub page_index_split :
    (va : ℕ)
    → va < 2 ^ 32
    → (page_dir_index va < 1024)
      × (page_table_index va < 1024)
      × (page_dir_index va * 2 ^ 22 + page_table_index va * 2 ^ 12 + va % 4096 ≡ va)
page_index_split va h = omega (arith, page_dir_index_lem va h, page_table_index_lem va)

-- A page number leads back to itself, and an aligned address above the kernel's end likewise.
pub pageno-from_pageno :
    (kernel_end n : ℕ)
    → kernel_end + 4096 * n + 8190 < 2 ^ 32
    → pageno kernel_end (from_pageno kernel_end n) ≡ n
unfolding pageno from_pageno
pageno-from_pageno kernel_end n h = omega (
  arith,
  page_roundup_lem kernel_end (omega arith),
  page_roundup_lem (u32 (pgsize * n + page_roundup kernel_end))
      (omega (arith, page_roundup_lem kernel_end (omega arith))),
)

pub pageno_lem :
    (kernel_end va : ℕ)
    → kernel_end ≤ va
    → va % 4096 ≡ 0
    → va < 2 ^ 32 - 4096
    → pageno kernel_end va * 4096 + (kernel_end + 4095) / 4096 * 4096 ≡ va
unfolding pageno
pageno_lem kernel_end va le aligned h =
    omega (arith, page_roundup_lem kernel_end (omega arith), page_roundup_lem va (omega arith))

-- Physical memory below KERNBASE and its window above KERNBASE correspond one to one.
pub to_phys-to_virt :
    (pa va : ℕ)
    → pa < kernbase
    → kernbase ≤ va
    → va < 2 ^ 32
    → (to_phys (to_virt pa) ≡ pa) × (to_virt (to_phys va) ≡ va)
to_phys-to_virt pa va h lo hi = omega arith
