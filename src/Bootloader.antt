-- ===== src/Bootloader.antt =====
-- bootloader/src, what the boot loader reads of the machine before it starts the kernel.
pub mod MemoryMap
mod Tests
