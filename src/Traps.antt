-- ===== src/Traps.antt =====
-- src/traps.rs, lines 66 to 87: the interrupt descriptor table. The type of its entries and their
-- constructor belong to the crate x86, and the linker provides the handlers' addresses `vectors`.
pub mod Table
pub mod Dispatch
pub mod Traces
pub mod Runs
mod Examples
use sprocket.Base.{
  ℕ, ◌*◌, Bool, true, List, [], ◌∷◌, length, get_or, set, ltb, Cmd, pure, ◌>>=◌, ◌>>◌, assert, u16,
  ◌<<<◌,
}
use sprocket.Irq.{Interrupt, vector}

-- `PrivilegeLevel`, as far as it is used here
pub data PrivilegeLevel : Type 0 where
  ring0 ring3 : PrivilegeLevel

-- `Segment::KCode` of src/vm.rs
abbrev pub kcode : ℕ
kcode = 1

module _ {E : Type 0} (new_entry : (handler selector : ℕ) → PrivilegeLevel → Bool → E) where
  -- the loop over the table and the vectors
  unfoldable pub fill : (idt : List E) (vectors : List ℕ) → List E
  fill [] vectors = []
  fill (e ∷ idt) [] = e ∷ idt
  fill (e ∷ idt) (v ∷ vectors) = new_entry v (u16 (kcode <<< 3)) ring0 true ∷ fill idt vectors

  unfoldable pub trap_vector_init : (vectors : List ℕ) → List E → List E
  unfolding fill
  trap_vector_init vectors idt =
      let syscall = vector Interrupt.syscall in
      set (fill idt vectors) syscall
        (new_entry (get_or vectors syscall 0) (u16 (kcode <<< 3)) ring3 true)
