-- ===== src/Lib.antt =====
-- Sprocket, a small unikernel in Rust: its memory allocator, locks and drivers, modelled function by
-- function from the Rust source, with the theorems that make them correct.
--
-- The parts and how they interact. `main` (src/lib.rs) gives the memory behind the kernel's image to
-- the page allocator (lib/kalloc), which is the global allocator of everything else. Shared state
-- stands behind the mutex of lib/spinlock, which keeps interrupts off. The drivers reach their
-- devices by port I/O: the PCI bus (lib/pci), the interrupt controllers (src/picirq.rs), the serial
-- port (src/uart.rs) under the console (src/console.rs), the timer (src/timer.rs) and the disk
-- (src/ide.rs), which the file system (lib/simple_fs) uses through its trait `Disk`, and the network
-- card (src/rtl8139.rs). The boot loader (src/bootmain.rs) reads the kernel from the disk, and `main`
-- gives it page tables (src/vm.rs) and the handler of traps (src/traps.rs), which runs the handlers
-- of the serial port, the card and the timer.
--
-- Files. Each component's definitions stand in the file named for it, its proofs in the files below
-- it, and concrete inputs in its file Examples.
--   Base           shared tests, lists, bit laws, machine words, and commands with assertions
--   Mem            lib/mem_utils/src/lib.rs: addresses, rounding, page numbers (Mem/Paging)
--   Kalloc         lib/kalloc/src/allocator.rs: the free list; Kalloc/Chain says what it stands for,
--                  Kalloc/Canonical that it is determined by that; Kalloc/Free, Kalloc/Allocate and
--                  Kalloc/Verify are about `free_range`, `allocate` and `verify`
--   Kalloc/Global  lib/kalloc/src/lib.rs: `alloc`, `dealloc`, `usable_size` (Kalloc/RoundTrip)
--   Kalloc/Boot    the calls of `ALLOCATOR.init` in `main`, src/lib.rs
--   Port           the interface of port I/O, which the crate x86 implements
--   Spinlock       lib/spinlock/src/lib.rs, and the reset of the locks in `panic_fmt`, src/lib.rs
--   Irq            the interrupt numbers of src/traps.rs
--   Picirq, Uart, Console, Timer   src/picirq.rs, src/uart.rs, src/console.rs, src/timer.rs
--   Pci            lib/pci/src/lib.rs: addresses (Pci/Address), registers (Pci/Registers and, of
--                  commands, Pci/Command) and the device search (Pci/Search)
--   SimpleFs       lib/simple_fs/src/lib.rs: data and errors (SimpleFs/Types), casts between bytes and
--                  structures (SimpleFs/Layout), the free list (SimpleFs/Blocks), inodes, files and
--                  directories (SimpleFs/Inodes, Files, Dirs). SimpleFs/Reliable is a disk without
--                  faults, SimpleFs/FreeList the free list as a stack, with the proofs in
--                  SimpleFs/AllocBlock, FreeBlock and RoundTrip; SimpleFs/InodeTable and
--                  SimpleFs/AllocInode see the inodes as a table;
--                  SimpleFs/ReadFile and ReadResults are about `read`, SimpleFs/WriteFile and
--                  WriteRead about `write`, WriteNew about its first block and WriteOver about
--                  its end; SimpleFs/DirEntries and DirLookup see a directory as a list of
--                  entries, with the first two in DirAdd, DirSecond and DirTwo, and
--                  DirContents, with EntryBytes, as the bytes of its blocks;
--                  SimpleFs/MemoryDisk is a disk to run them on
--   Logger         src/logger.rs: log lines (Logger/Lines)
--   Process        src/process.rs: the state of the processor and the frame of a trap
--   Kernel         src/lib.rs: Kernel/Start is `main` and `panic_fmt`, Kernel/Heap the allocator as
--                  `box` sees it, Kernel/Memory the memory that `main` sets up, and Kernel/Ends
--                  shows that it comes to an end
--   Traps          the interrupt descriptor table of src/traps.rs (Traps/Table)
--   Traps/Dispatch the handler of all traps, src/traps.rs; Traps/Traces and Traps/Runs are about
--                  any number of traps
--   EntryPgDir     the page directory that the kernel starts with, src/lib.rs
--   Vm             src/vm.rs: page tables. Vm/Translate is the translation that they stand for;
--                  Vm/Walk and Vm/MapPage are about one page, Vm/MapPages and Vm/Ranges about ranges,
--                  Vm/Setup about the kernel's address space; Vm/Segments is the table of segments
--   Rtl8139        src/rtl8139.rs: the network card. Rtl8139/Registers has its registers and flags,
--                  Rtl8139/Device the device interface with its drops; Rtl8139/Ring and Receive are
--                  about the receive ring, Descriptors, Transmit and Interrupt about sending
--   Bootmain       src/bootmain.rs and src/elf.rs: the boot loader; Bootmain/Sector is about one
--                  sector, Bootmain/Transfer about a run of them, Bootmain/Segment about a header,
--                  Bootmain/Headers and Boot about the whole loader
--   Mkfs           lib/simple_fs/src/bin.rs: the formatter (Mkfs/FreeList is about its free list,
--                  Mkfs/RootCalls and Root its root directory, Mkfs/Format all of it), and the
--                  disk in a file of the host (Mkfs/DiskFile)
--   SimpleFs/Handle   src/file.rs: handles of open files
--   Service        src/service/mod.rs: the web server. Service/Text has the functions on texts of
--                  Rust's library, Service/Files what is read from the disk, Uptime the time that is
--                  shown; Service/Whole is about a file read whole, Service/Page about the
--                  answer, Service/Idle about the loop
--   Ide            src/ide.rs: the disk driver; Ide/Ready is a disk that is always ready, and
--                  Ide/Commands, with Ide/Transfers, tells what the driver does to it;
--                  Ide/Polling is about `wait`
--
-- How state and operations correspond. A struct is a record, and a method takes the record and
-- returns the new one. The intrusive list of free ranges is a list of records with their addresses,
-- since each header is reached from one pointer only. A driver is a command on the states of a
-- machine: it ends, stops at a failed assertion (`panic`), or waits for ever (`spin`). What is not
-- in the repository is a parameter: port I/O (`Io`), the interrupt flag and the spin lock
-- (`Machine`), the address of the linker's symbol `end`. What the code relies on there is stated as
-- the records `Serial`, `ConfigSpace`, `Lawful`, `Reliable`, `Ready`, `Card`, `PageBoxes`,
-- `BootDisk` and `Works`, and the examples instantiate them; `PageBoxes` is filled by the page
-- allocator itself, in Kernel/Heap.
--
-- Bounds. `usize` and `u32` have 32 bits. The sums that count the ticks and the pages of a
-- request panic where they overflow, as in the build without optimization; others are written
-- with their wrap-around. Loops over collections are recursions on them; a counted loop is a
-- recursion on the rounds that are left, from the count in the source. Loops that poll a device
-- (the disk, the reset of the card, the boot loader) take the number of rounds from the caller,
-- and spin when they are used up; the server's loop, which has no end, runs for the number of
-- rounds that it is given. Three loops have rounds of their own, with proofs that they are
-- enough: `map_pages` the number of pages of the address space, `readseg` the number of its
-- sectors and one more, and the card's interrupt handler five, as four buffers can become free.
--
-- Not modelled: the output of the logging macros outside of src/lib.rs and src/service/mod.rs; the
-- formatting of Rust as far as it is not named above, assembly, build scripts, and the crates. A card
-- or a disk that writes memory by itself is a change of the buffer between two calls.
pub mod Base
pub mod Mem
pub mod Kalloc
pub mod Port
pub mod SimpleFs
pub mod Traps
pub mod Uptime
pub mod Service
pub mod Mkfs
pub mod Bootmain
pub mod Vm
pub mod Rtl8139
pub mod EntryPgDir
pub mod Ide
pub mod Spinlock
pub mod Irq
pub mod Process
pub mod Logger
pub mod Kernel
pub mod Picirq
pub mod Uart
pub mod Console
pub mod Timer
pub mod Pci
