-- ===== src/Kernel.antt =====
-- The parts of the kernel that `main` of src/lib.rs starts one after the other.
pub mod Heap
pub mod Memory
pub mod Start
pub mod Ends
mod Examples
