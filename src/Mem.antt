-- ===== src/Mem.antt =====
-- lib/mem_utils/src/lib.rs: the memory layout and the address arithmetic of both address types.
-- `PhysAddr` and `VirtAddr` wrap a `usize` and share the methods of the trait `Address`, so each is
-- the number that it wraps. Overflow wraps at `2 ^ 32`, as in the release build.
pub mod Paging
mod Examples
use sprocket.Base.{
  ℕ, ◌+◌, ◌-◌, ◌*◌, ◌/◌, ◌%◌, ◌^◌, bit_and, Bool, ◌&&◌, ltb, ◌==◌, if◌then◌else◌, u32, wrapping_sub,
  ◌>>>◌,
}

abbrev pub PhysAddr : Type 0
PhysAddr = ℕ

abbrev pub VirtAddr : Type 0
VirtAddr = ℕ

abbrev pub kernbase : VirtAddr
kernbase = 0x8000_0000

abbrev pub extmem : PhysAddr
extmem = 0x10_0000

abbrev pub kernlink : VirtAddr
kernlink = kernbase + extmem

abbrev pub phystop : PhysAddr
phystop = 0xE00_0000

abbrev pub devspace : VirtAddr
devspace = 0xFE00_0000

abbrev pub pgsize : ℕ
pgsize = 4096

abbrev pub pdxshift : ℕ
pdxshift = 22

abbrev pub ptxshift : ℕ
ptxshift = 12

abbrev pub is_page_aligned : ℕ → Bool
is_page_aligned addr = addr % pgsize == 0

-- `!(PGSIZE - 1)`
abbrev page_mask : ℕ
page_mask = 2 ^ 32 - 1 - (pgsize - 1)

unfoldable pub page_roundup : ℕ → ℕ
page_roundup addr = bit_and (wrapping_sub (u32 (addr + pgsize)) 1) page_mask

unfoldable pub page_rounddown : ℕ → ℕ
page_rounddown addr = bit_and addr page_mask

-- `offset::<T>(off)` for a `T` of `size` bytes; `off` is the bit pattern of the `isize`.
unfoldable pub offset : (size off addr : ℕ) → ℕ
offset size off addr =
    if ltb 0 off && ltb off (2 ^ 31) then u32 (addr + size * off) else u32 (addr + u32 (size * off))

-- The difference of two addresses, `impl Sub`.
abbrev pub sub_addr : ℕ → ℕ → ℕ
sub_addr = wrapping_sub

abbrev pub to_virt : PhysAddr → VirtAddr
to_virt pa = u32 (pa + kernbase)

abbrev pub to_phys : VirtAddr → PhysAddr
to_phys va = wrapping_sub va kernbase

unfoldable pub page_dir_index : VirtAddr → ℕ
page_dir_index va = bit_and (va >>> pdxshift) 0x3FF

unfoldable pub page_table_index : VirtAddr → ℕ
page_table_index va = bit_and (va >>> ptxshift) 0x3FF

-- `kernel_end` is the address of the linker's symbol `end`.
unfoldable pub from_pageno : (kernel_end : VirtAddr) → ℕ → VirtAddr
unfolding page_roundup
from_pageno kernel_end pageno = u32 (pgsize * pageno + page_roundup kernel_end)

unfoldable pub pageno : (kernel_end : VirtAddr) → VirtAddr → ℕ
unfolding page_roundup
pageno kernel_end va = sub_addr (page_roundup va) (page_roundup kernel_end) / pgsize
