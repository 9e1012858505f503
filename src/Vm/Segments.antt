-- ===== src/Vm/Segments.antt =====
-- src/vm.rs, lines 94 to 141: the segments of the global descriptor table. The type of its entries
-- and their constructor belong to the crate x86.
use sprocket.Base.{ℕ, Bool, false, List, set}
use sprocket.Traps.{PrivilegeLevel, ring0, ring3}

pub data Segment : Type 0 where
  null kcode kdata ucode udata tss : Segment

-- `s as usize`
abbrev pub index : Segment → ℕ
index Segment.null = 0
index Segment.kcode = 1
index Segment.kdata = 2
index Segment.ucode = 3
index Segment.udata = 4
index Segment.tss = 5

-- `seg::Type`, as far as it is used here
pub data SegmentType : Type 0 where
  code_read data_write : SegmentType

module _ {E : Type 0} (new_descriptor : (base limit : ℕ) → SegmentType → Bool → PrivilegeLevel → E)
    (null_descriptor : E) where
  abbrev pub flat : SegmentType → PrivilegeLevel → E
  flat type level = new_descriptor 0 0xffffffff type false level

  -- `seginit` up to the instruction that loads the table
  unfoldable pub seginit : (gdt : List E) → List E
  seginit gdt0 =
      let gdt1 = set gdt0 (index Segment.null) null_descriptor in
      let gdt2 = set gdt1 (index Segment.kcode) (flat SegmentType.code_read ring0) in
      let gdt3 = set gdt2 (index Segment.kdata) (flat SegmentType.data_write ring0) in
      let gdt4 = set gdt3 (index Segment.ucode) (flat SegmentType.code_read ring3) in
      set gdt4 (index Segment.udata) (flat SegmentType.data_write ring3)
