-- ===== src/Filesystem/FileMode.antt =====
-- kernel/src/filesystem.cpp: the bits of `FileMode`.
use uefi_boot_system.Prelude.{ℕ}

abbrev pub owner_read : ℕ
owner_read = 256

abbrev pub owner_write : ℕ
owner_write = 128

abbrev pub owner_execute : ℕ
owner_execute = 64

abbrev pub group_read : ℕ
group_read = 32

abbrev pub group_write : ℕ
group_write = 16

abbrev pub group_execute : ℕ
group_execute = 8

abbrev pub other_read : ℕ
other_read = 4

abbrev pub other_write : ℕ
other_write = 2

abbrev pub other_execute : ℕ
other_execute = 1

abbrev pub directory : ℕ
directory = 16384

abbrev pub symlink : ℕ
symlink = 40960

abbrev pub regular : ℕ
regular = 32768
