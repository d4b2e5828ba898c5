-- ===== src/Lib.antt =====
-- A model of the arabos kernel: its pages, its processes, its file system and the disk under it,
-- its console and monitor, and the tables and drivers that they run on.
--
-- Paging (mm/paging.cpp, include/paging.h). Paging/Words has the bit operations, Paging/Pte and
-- Paging/Pde the accessors of an entry, one for each method. Paging/Frames has the state,
-- `Memory`: the words of the tables by address, the bitmap `freeMem`, and the two global pointers.
-- Its `alloc_page`, `free_page` and `init_paging` are the functions of these names; `panic` halts,
-- and is a result. Paging/Search, Mapping, Alloc, Invariant, Free and Boot have the proofs. The
-- writes of CR0 and CR3, `invlpg`, the zero that `enable_paging` stores at 4 MB - 1 and the
-- messages are left out.
--
-- File system (fs/, include/file_t.h). Fs/Types has the blocks and the disk, a function from the
-- sector to its block: `convert` and `convert_to_write` read and write one whole block, and the
-- driver sends the low 28 bits of the number. A block is a tag and the member that was last
-- written; what the bytes of a member are when they are read as another is up to the layout, and
-- is the parameter `Views`. Times are values of an empty class, and are left out. An `int` is its
-- 32-bit pattern, a return code is a signed number. Fs/Names has the paths, Fs/Lookup `find`,
-- `add` and `search`, Fs/Create `create`, `mkdir`, `link` and `symlink`, Fs/Attributes `getattr`,
-- `chmod`, `chown`, `open`, `release` and `truncate`, Fs/Content `read`, `write`, `readlink` and
-- `readdir`, Fs/Remove `unlink`, `rmdir`, `rename` and the set-up of a disk by the monitor
-- (init/monitor.cpp), Fs/Errors what the operations do for a path that is not there. An operation
-- takes the disk and returns its code and the disk that it leaves; `none` is a run that C++ leaves
-- undefined. `assert` prints and goes on, so it is not a test.
--
-- Disk (init/ata.cpp). `read` and `write` of Disk are the accesses to the ports that the functions
-- make, in order; the loops that poll a flag are one access each, since they end when the drive
-- lets them. Disk/Drive has the drive's side, by the ATA manual: its registers and its sectors,
-- what of its status the driver has seen, and whether it asks at once for the data of a write.
-- Fs/Types takes for granted that the file system has such a disk, behind such a driver.
-- `identify_drive` prints, and is left out.
--
-- Texts (lib/string.cpp, lib/printf.cpp). Text/Itoa has `itoa`, on the characters before the zero;
-- Text/Compare `strnlen`, `strncmp` and `strncmp_prefix`. Text/Print (lib/printf.cpp) has `print0`
-- and `printk`: what they send to the screen of Console/Screen and to the serial line. An argument
-- is a number or a pointer to a text, and one that is missing or of the other kind makes the
-- result `undefined`.
--
-- Monitor (init/monitor.cpp). `dispatch` is the chain of tests that finds the command of a line,
-- `run_command` what the command does to the disk, by the operations of Fs.
--
-- Containers (include/stl). Stl/StaticVector and Stl/Str have the operations that the file system
-- calls, on the list of the elements; Stl/Cells has the array of cells under them, with the moves
-- of its elements, and Stl/StaticVector/Ranges the calls on ranges. Stl/Vector has the vector
-- whose array grows: its elements, its capacity and its version; a store past the array is a
-- result. Stl/Vector/Growth is about one operation, Stl/Vector/Refine about any sequence of them,
-- Stl/Vector/Ranges about a range. Stl/Vector/Iterators has its iterators, on addresses, with what
-- they report; Walk is about a loop, Stale about a vector that has grown. Stl/ReverseIterator has
-- the iterators that go back. Stl/SharedPtr has the pointers that share an object, by variable,
-- and the counts of the objects' uses; Stl/SharedPtr/Holders counts the variables that name an
-- object.
--
-- Console (console/console.cpp, console/kb.cpp). Console/Screen has the terminal and the screen,
-- Console/Colour the colour codes. Console/Keyboard has the globals of the keyboard:
-- `keyboard_handler` takes the bytes of the two ports, and `readline` the interrupts that end its
-- `hlt`, one at a time; `putchar` adds to the list `echoed`.
--
-- Interrupts (i386/). Interrupts/Segments has the segment descriptors and `gdt_install`,
-- Interrupts/Gates the interrupt gates and the set-up of their table, where the addresses of the
-- assembly stubs are parameters, Interrupts/Handlers the table of handlers, `irq_handler`, and
-- what the kernel sends to the interrupt controllers and the timer (kernel/timer.cpp); which
-- handlers come back is a parameter.
--
-- Semaphores (lib/semaphore.cpp). Semaphore has the accesses that `wait` and `signal` make, one at
-- a time, with the answers of the two atomic instructions of include/asm.h. Semaphore/Alone runs
-- one thread, Semaphore/Together any number of them, in any order.
--
-- Processes (kernel/fork.cpp). Process/Switch has the table, a function of the index, the current
-- process, where `none` is -1, and the words of memory; `schedule` ends where the source leaves
-- C++ for the assembly that loads the frame, and its result is that frame. Process/Spawn has
-- `spawn_handler`, which calls `alloc_page` of Paging/Frames, and `taskend`, without the C++
-- runtime's calls and the last loop. Process/Fork has `fork_handler`, which moves the chain of
-- saved frames to the child's stack, which Process/Stack is about, and Process/Tick
-- `timer_handler`, which calls `schedule`. Process/Turns and Process/Kept have the proofs about
-- `schedule`.
--
-- Heap (mm/liballoc_link.cpp). Heap has the four functions through which the allocator locks
-- itself and asks for pages, on the memory of Paging/Frames and with `wait` of Semaphore/Alone.
-- Heap/Pages has what an allocator that keeps to its contract does, Heap/Contract what it gets.
--
-- Debugging symbols (lib/debug.cpp). Debug has `seek`, the search for an address in the table,
-- where the table is a function of the index; Debug/Lines has `stab_data`, which calls it three
-- times, and the walk of `print_stack_trace`. Debug/Scan, Ends, Exact, Missed and Errors have the
-- proofs.
--
-- Fuel. The loop of `schedule` has a round for each of the eight slots, which is enough where
-- there is a current process; with none, and none ready, it does not end, and the result says so.
-- `split` has a round for each character, which is enough since each round takes one at least; the
-- loops of `unlink` have one for each element. The recursion of `rmdir` follows the disk, which
-- may hold a cycle, so its fuel is a parameter, and `none` is fuel that ran out. A 32-bit number
-- has at most 32 digits, so 32 rounds are enough for `itoa`, and its second loop has one for each
-- character. Each round of `print0` takes a character of the format. The loop of `fork_handler`
-- follows a chain in memory, which may have a cycle: its fuel is a parameter, and so is that of
-- `wait`, which may not return (five accesses are enough for it when the semaphore is 1), and of
-- `print_stack_trace`. The search of `seek` narrows its bounds in each round, so a round for each
-- stab and one more are enough.
--
-- Not modelled: what only prints (`identify_drive`, `fault_handler`, i386/cpuid.cpp), the stubs
-- and boot code in assembly, start-up (boot/, init/), the iterators of include/stl but those of
-- the vector and those that go back (the other models take an iterator for its distance), and
-- mm/liballoc.cpp, which is another project's library.
--
-- Prelude has the shared lists, tests, signed numbers and bits, Examples runs of the operations.

pub mod Console
pub mod Debug
pub mod Disk
pub mod Examples
pub mod Fs
pub mod Heap
pub mod Interrupts
pub mod Monitor
pub mod Paging
pub mod Prelude
pub mod Process
pub mod Semaphore
pub mod Stl
pub mod Text
