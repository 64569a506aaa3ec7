-- ===== src/Lib.antt =====
-- The freestanding kernel of the UEFI boot system, as pure functions on explicit states, with
-- theorems about them.
--
-- The program. The boot loader (bootloader/) loads an ELF kernel, gets the firmware's memory map and
-- jumps to the kernel with a BootInfo. The kernel (kernel/src/kernel.cpp) sets up its memory
-- managers, and then runs the phases, one source file each: processors, scheduler, drivers, file
-- systems, user space, desktop, network, security and performance. Each phase keeps its state in
-- static tables of a fixed size, fills them by self-tests at boot, and reports readiness flags.
--
-- How it is modelled. A component's state is a record of its static variables; an operation takes it
-- and returns what the C++ function returns together with the state afterwards. A pointer into a
-- table is the index of its slot or the entry itself, and a null pointer is `none`; a C string is its
-- bytes before the terminator. Numbers are native natural numbers, and a wrap-around of the source is
-- written out as `% 2 ^ 64`, or with the width that the source has. Names are the source's in snake
-- case: `allocate_aligned` is `AllocateAligned`. Logging has no state and is left out.
--
-- The files:
--   Prelude: lists as arrays, fixed tables and their searches (Table), tables that only grow
--     (Registry), tables with keys (Upsert), searches that keep the best candidate (Best), bits,
--     texts, chained steps, and a property of a result by the case that computes it (Cases).
--   Memory.Pmm: PhysicalMemoryManager of kernel/src/kernel.cpp. The bitmap, its marking (Marking,
--     Reserve), the search for a run of pages (Search), allocation (Allocate) and the start from the
--     memory map (Boot). The map and the addresses of the static tables are arguments. Page states
--     what its clients use of it.
--   Memory.Frames: the page manager together with the bytes of memory, and the loops ClearPage and
--     CopyPage; Owned, tables of slots that each own a page, which the next three share.
--   Memory.CopyOnWrite, Memory.Swap, Memory.PageCache: CopyOnWriteManager, SwapManager and PageCache
--     of kernel/src/kernel.cpp. Each has a module for its invariant (Tracked, Slots, Keys) and one for
--     what its operations do or for sequences of calls (Resolve and Run, Return, Run).
--   Memory.Mapping: MemoryMappingManager, a client of the page cache and of the page manager. Extent,
--     what filling and emptying keep of the table; Disjoint and Run, ranges that do not overlap.
--   Memory.SharedMemory, Memory.Slab, Memory.HugePage: SharedMemoryManager, SlabAllocator (Chain, the
--     free list that a loop builds; Grow, a new cache; Reuse, blocks that were freed), HugePageManager
--     and NumaManager of kernel/src/kernel.cpp.
--   Memory.Boot: KernelMemoryInit and KernelMemorySelfTest, which run all the managers together.
--   Memory.Heap: KernelHeap of kernel/src/kernel.cpp, whose blocks are never freed.
--   Memory.Paging: VirtualMemoryManager of kernel/src/kernel.cpp, its page tables and the processor's
--     walk through them (Identity).
--   Console: KernelConsole of kernel/src/kernel.cpp, text on the framebuffer. Font, its glyphs; Shape,
--     what drawing leaves alone; Ends, Scroll and Written, that writing ends.
--   Bootloader.MemoryMap: bootloader/src/memory_map.cpp, over the boot services as a parameter.
--   Scheduler: kernel/src/scheduler.cpp. The tables; Ipc, the message queues; Run, the choice of the
--     next thread and the yield; Sync, mutexes and futexes; Lifecycle, processes and threads; Events,
--     epoll, eventfd and timerfd; Running, the invariant of running threads over the step relation of
--     Running.Reach.
--   Filesystem: kernel/src/filesystem.cpp. Image, fields of disk images and the recognisers; Paths,
--     path prefixes; Vfs, the tables of drivers, mounts and nodes; SelfTest, PseudoTest and Boot, the
--     start of the file systems. BootTest here, in Security and in Network runs the start once.
--   Security: kernel/src/security.cpp. Users and policies; Access, what is granted; Memory, isolation
--     domains and regions; Random, the generator, address randomisation and canaries; SelfTest, Boot.
--   Network: kernel/src/network.cpp. The packet builders; Checksum; Sockets, the socket table;
--     SelfTest, Boot.
--   Performance: kernel/src/performance.cpp. The tables of counters, benchmarks and zones; SelfTest,
--     KernelPerformanceInit; Ready, when it succeeds.
--   Userspace: kernel/src/userspace.cpp. Tables, the tables with keys; Environment, the laws of one of
--     them; Files, descriptors, pipes and terminals; Libc and Sqrt, the routines of the SDK; Elf and
--     Loader, images and what an accepted image has; Syscall, the system calls over a memory given as
--     a parameter; SelfTest, SdkTest and Boot, the start of user space and of applications.
--
-- Interaction. The scheduler gives every thread a stack from KernelAllocate, whose answer is an
-- argument of create_thread. The context switch is assembly: scheduler_yield answers whether the
-- processor was given away, and the state it leaves is the one at the switch; a call that loses the
-- processor is `switched` and answers when its thread is resumed.
--
-- The clients of the page manager take it as part of their state (Frames) and use it through the
-- lemmas of Memory.Pmm.Page; a null m_PhysicalMemory is `attached = false`. User space takes the
-- scheduler's state where it creates processes and threads, sends a signal or yields.
--
-- Loops and fuel. Loops over tables are structural recursion on the table or on the number of slots
-- left. The folding loop of the IPv4 checksum has a bound of two rounds, and the theorem on it shows
-- that the loop's condition is false after them for every 32-bit sum. The page search runs over all
-- managed pages of the first 4 GiB, 2 to the 20, and is never evaluated whole.
-- PutChar, Scroll and Write of the console call each other; the fuel is the depth of scrolls within
-- scrolls, and a depth of 1 is enough on every screen of at least 548 by 72 pixels.
-- The square root of the SDK gets its fuel as an argument, and 2 to the 32 rounds are enough for a value
-- below the square of 2 to the 32 less 1; above it the square of the next number wraps.
--
-- Not modelled: the entry of kernel/src/kernel.cpp; drivers, processor set-up and the desktop; the
-- rest of the boot loader. The printing of status and all port, register and firmware access has no
-- state of its own to model. A page address of a caller that runs beyond 2 to the 64 has no meaning in
-- the source and is not wrapped.
pub mod Prelude
pub mod Bootloader
pub mod Console
pub mod Filesystem
pub mod Memory
pub mod Network
pub mod Performance
pub mod Scheduler
pub mod Security
pub mod Userspace
