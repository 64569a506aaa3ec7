-- ===== src/Memory.antt =====
-- kernel/src/kernel.cpp, the memory managers.
pub mod Pmm
pub mod Heap
pub mod Frames
pub mod CopyOnWrite
pub mod Swap
pub mod PageCache
pub mod Mapping
pub mod Paging
pub mod SharedMemory
pub mod Slab
pub mod HugePage
pub mod Boot
