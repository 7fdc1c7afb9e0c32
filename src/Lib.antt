-- ===== src/Lib.antt =====
-- The kernel of huster_Experiment_pke, a RISC-V proxy kernel in C with processes on several harts,
-- semaphores, reference-counted pages and a RAM disk file system.
--
-- A C function is a function by clauses on the state that it reads and writes. `Run` (Base/Run) is its
-- outcome: it returns, it has killed the current process (kill_current_process does not come back to
-- its caller), it panics, or it does what C leaves undefined. A pointer into a table is an index, NULL
-- is `none`, and an address is a number. Functions that hold a lock are one step.
--
-- Parts and files:
--   kernel/pmm.c: Kernel/Pmm, over the words of Kernel/Memory. The free list is threaded through the
--     free pages; Kernel/Pmm/Chain says when a list of pages is the free list.
--   kernel/process.h, kernel/process.c: the process table in Kernel/Process (of process_t the fields
--     that scheduling reads) and the semaphores in Kernel/Semaphore. Processes and semaphores share the
--     field queue_next; Kernel/Semaphore/Synced is the invariant that ties the ready queue and all wait
--     queues together.
--   kernel/vmm.c: Kernel/Vmm, in the same words of memory. Kernel/Vmm/Table reads a page table as a
--     function from addresses to entries, and says when the tables are a tree; Kernel/Vmm/Space adds that
--     the tree shares no page with the free list, and Kernel/Vmm/Confined what a change of one address
--     space leaves alone.
--   kernel/strap.c: the page faults (copy on write, the growing stack) in Kernel/Trap.
--   kernel/process.c: user_better_malloc and user_better_free in Kernel/Heap; the page-wise heap of
--     kernel/syscall.c, and the heap pages that do_fork shares, in Kernel/PageHeap.
--   kernel/sched.c: Kernel/Sched; schedule() is one pass of its loop, with the hart's place after it.
--   kernel/syscall.c, kernel/strap.c: exit, wait, yield, the time slice in Kernel/Lifecycle.
--   kernel/ramdev.c, kernel/rfs.c: Kernel/Ramdev and, byte by byte, Kernel/Rfs (inodes and bitmap),
--     Kernel/Rfs/File (rfs_read), Kernel/Rfs/Write, Kernel/Rfs/Dir (directories), Kernel/Rfs/Unlink,
--     Kernel/Rfs/Format (rfs_format_dev and rfs_get_superblock).
--   kernel/vfs.c: the path walk and the path of a directory in Kernel/Vfs/Walk, over the file system's
--     viop_lookup as a parameter; the dentry and vinode tables in Kernel/Vfs, as clients of
--     util/hash_table.c, which is Util/HashTable: its record HashKey is what a client owes, and
--     Kernel/Vfs fills it twice.
--   kernel/proc_file.c: the descriptor table, in Kernel/ProcFile.
--   util/string.c: Util/Strings.
--   Base holds numbers, lists, words and outcomes; Kernel/Example is a small kernel for the tests.
--
-- Fuel: the walks over queues take NPROC rounds, which is enough because a queue has distinct slots; the
-- page loops take more rounds than there are pages in the range, and fault when they run out; vfs_rcwd
-- takes its fuel as an argument, and the theorem asks for more than the depth of the directory; a loop over a
-- C string takes its fuel as an argument, and the theorems ask for more than the length of the string.
--
-- Not modelled: fork but for its sharing of heap pages, exec, the ELF loader, the host file system,
-- the emulator's interface, trap entry and start-up; opening, closing, linking and mounting in
-- kernel/vfs.c; interleavings of harts within a function that holds no lock; the overflow of a
-- semaphore's `int`; running out of pages inside the file system and for the nodes of the hash tables.
-- The addrs of a vinode are a function on all numbers: an index behind its ten entries is not told
-- apart. The index of a page in front of free_mem_start is 0 where in C it wraps round, and map_pages
-- of no bytes at address 0 runs out of fuel where C goes on to the end of the address space; the
-- theorems ask for pages of the managed memory, and for a range that has bytes.
pub mod Base
pub mod Kernel
pub mod Util
