-- ===== src/Kernel/Examples.antt =====
-- An image that ends at 2 MiB, with its data at a page below, on a machine whose ports answer zero.
use sprocket.Base.{ℕ, ◌≡◌, refl, [], replicate, arith, done}
use sprocket.Console.Examples.{Line, line_io}
use sprocket.Kernel.Start.{Kernel, Image, start_kernel}
use sprocket.Kernel.Ends.{Started, start_kernel_lem}

-- Descriptors and entries are numbers.
abbrev image : Image ℕ ℕ ℕ
image = record {
  kernel_end = 0x80200000;
  start = 0x801F0000;
  data_begin = 0x80110000;
  vectors = replicate 256 5000;
  task_state = 0;
  null_descriptor = 0;
  new_descriptor = λ base limit type available level. limit;
  missing = replicate 256 0;
  new_entry = λ handler selector level trap_gate. handler;
}

start_kernel_lem_example :
    (k : Kernel ℕ ℕ ℕ) × (s' : Line) × (start_kernel line_io image (λ a i. 0) [] ≡ done k s')
    × Started image 0x80110 k
start_kernel_lem_example =
    start_kernel_lem line_io image 0x80110 (λ a i. 0) (omega arith) (omega arith) (omega arith)
      (omega arith) (omega arith) refl refl refl []
