-- ===== src/Kernel.antt =====
-- kernel/: the components of the kernel proper.
pub mod Memory
pub mod Pmm
pub mod Process
pub mod Sched
pub mod Semaphore
pub mod Lifecycle
pub mod Example
pub mod Ramdev
pub mod Vmm
pub mod Trap
pub mod Heap
pub mod PageHeap
pub mod Rfs
pub mod Vfs
pub mod ProcFile
