-- ===== src/Vm/Examples.antt =====
-- src/vm.rs: an allocator that hands out pages one after the other, and the kernel's address space
-- that is built with it.
use sprocket.Base.{
  ℕ, suc, ◌+◌, ◌-◌, ◌*◌, ◌<◌, ◌≡◌, refl, none, some, ltb, lt→ltb, if◌then◌else◌, arith, done,
}
use sprocket.Vm.{Paging, Boxes, setupkvm}
use sprocket.Vm.Translate.{lookup, PageBoxes, IsPaged}
use sprocket.Vm.Setup.{kernel_map, setupkvm-kernel_map}

-- The state is the number of pages given out, of at most 1000.
abbrev pages : Boxes ℕ
pages n = if ltb n 1000 then some (0x80400000 + 4096 * n, suc n) else none

unfoldable counted : PageBoxes pages
counted = record {
  taken = λ n a. a < 0x80400000 + 4096 * n;
  room = λ n. 1000 - n;
  valid = λ n. Unit;
  gives = λ n v space. (
    0x80400000 + 4096 * n,
    suc n,
    rw (lt→ltb n 1000 (omega arith)) refl,
    omega arith,
    omega arith,
    λ lt. omega arith,
    omega arith,
    λ b lt. omega arith,
    omega arith,
    tt,
  );
}

setupkvm-kernel_map_example :
    (p : Paging ℕ) × (setupkvm pages 0x80110000 (λ a i. 0) 0 ≡ done (some tt) p)
    × IsPaged counted p
    × ((v : ℕ) → lookup p v ≡ kernel_map 0x80110 v)
    × ((b : ℕ) → counted.taken 0 b → counted.taken p.heap b)
unfolding counted
setupkvm-kernel_map_example =
    setupkvm-kernel_map counted 0x80110 (λ a i. 0) 0 (omega arith) (omega arith) tt (omega arith)
