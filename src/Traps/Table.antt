-- ===== src/Traps/Table.antt =====
-- The table that `trap_vector_init` of src/traps.rs leaves.
use sprocket.Base.{
  ℕ, zero, suc, ◌<◌, ◌≡◌, refl, sym, ap, ◌∙◌, Bool, true, inl, inr, Bool-cases, List, [], ◌∷◌,
  arith, ◌==◌, ==_iff, if◌then◌else◌, length, get_or, get_or-set_self, get_or-set_ne,
}
use sprocket.Irq.{Interrupt, vector}
use sprocket.Traps.{PrivilegeLevel, ring0, ring3, fill, trap_vector_init}

-- Only the vector of system calls may be used by programs.
abbrev pub level : (interrupt : ℕ) → PrivilegeLevel
level i = if i == vector Interrupt.syscall then ring3 else ring0

module _ {E : Type 0} (new_entry : (handler selector : ℕ) → PrivilegeLevel → Bool → E) where
  length-fill : (idt : List E) (vectors : List ℕ) → length (fill new_entry idt vectors) ≡ length idt
  unfolding fill
  length-fill [] vectors = refl
  length-fill (e ∷ idt) [] = refl
  length-fill (e ∷ idt) (v ∷ vectors) = ap suc (length-fill idt vectors)

  get_or-fill :
      (idt : List E) (vectors : List ℕ) (i : ℕ) (d : E)
      → length idt ≡ length vectors
      → i < length vectors
      → get_or (fill new_entry idt vectors) i d ≡ new_entry (get_or vectors i 0) 8 ring0 true
  unfolding fill
  get_or-fill [] [] i d same h = absurd (omega arith)
  get_or-fill [] (v ∷ vectors) i d same h = absurd (omega arith)
  get_or-fill (e ∷ idt) [] i d same h = absurd (omega arith)
  get_or-fill (e ∷ idt) (v ∷ vectors) zero d same h = refl
  get_or-fill (e ∷ idt) (v ∷ vectors) (suc i) d same h =
      get_or-fill idt vectors i d (omega arith) (omega arith)

  -- Every entry of the table leads to its own handler in the kernel's code segment, and the entry
  -- of system calls is the only one with the privileges of programs. The table has as many entries
  -- as there are vectors, 256.
  pub trap_vector_init_lem :
      (idt : List E) (vectors : List ℕ) (i : ℕ) (d : E)
      → length idt ≡ 256
      → length vectors ≡ 256
      → i < 256
      → get_or (trap_vector_init new_entry vectors idt) i d
        ≡ new_entry (get_or vectors i 0) 8 (level i) true
  unfolding trap_vector_init
  trap_vector_init_lem idt vectors i d size count h =
      let syscall_entry = new_entry (get_or vectors 64 0) 8 ring3 true in
      elim (Bool-cases (i == 64)) [
        | inl here ↦
            let at : i ≡ 64 = (==_iff i 64).0 here in
            rw (here, at)
              (get_or-set_self (fill new_entry idt vectors) 64 syscall_entry d
                (omega (arith, length-fill idt vectors)))
        | inr other ↦ rw other (
            get_or-set_ne (fill new_entry idt vectors) 64 i syscall_entry d (λ e. ground arith)
            ∙ get_or-fill idt vectors i d (size ∙ sym count) (omega arith))
      ]
