-- ===== src/Filesystem.antt =====
-- kernel/src/filesystem.cpp: the VFS registries, mount lookup, file system recognisers and the
-- self-tests that the kernel runs at boot.
pub mod Image
pub mod Paths
pub mod Vfs
pub mod FileMode
pub mod SelfTest
pub mod PseudoTest
pub mod Boot
mod BootTest
pub mod Tests
