-- ===== src/Filesystem/SelfTest.antt =====
-- kernel/src/filesystem.cpp: the self-tests and `KernelFileSystemInit`.

use Prim.Native.String.{String}
use uefi_boot_system.Prelude.{
  ℕ, ◌+◌, Bool, true, false, not, ◌&&◌, [], ◌∷◌, Option, none, some, ◌==◌, replicate, set,
}
use uefi_boot_system.Prelude.Text.{text, string_equals}
use uefi_boot_system.Prelude.Steps.{all_steps, ask}
use uefi_boot_system.Filesystem.FileMode
use uefi_boot_system.Filesystem.Image.{
  write_le16, write_le32, fat32_probe, ext2_probe, fat_boot_signature, ext2_magic,
}
use uefi_boot_system.Filesystem.Vfs.{
  FileSystemType, fat32, ext2, ram_fs, tmp_fs, proc_fs, dev_fs, sys_fs, init_ram_fs, is_type,
  VfsNode, FileSystem, is_null, vfs_find_mount, ram_fs_add_node, ram_fs_find_node, has_permission,
}

-- `p && test(*p)`.
abbrev pub holds : {A : Type 0} → Option A → (A → Bool) → Bool
holds none test = false
holds (some a) test = test a

unfoldable pub run_fat32_probe_self_test : Bool
run_fat32_probe_self_test =
    let s0 = write_le16 (replicate 512 0) 11 512 in
    let s1 = write_le16 (set s0 13 8) 14 32 in
    let s2 = write_le16 (set s1 16 2) 17 0 in
    let s3 = write_le32 (write_le16 s2 22 0) 36 128 in
    let sector = write_le16 (write_le32 s3 44 2) 510 fat_boot_signature in
    fat32_probe (some sector) 512

unfoldable pub run_ext2_probe_self_test : Bool
run_ext2_probe_self_test =
    let superblock : ℕ = 1024 in
    let i0 = write_le32 (replicate 2048 0) (superblock + 0) 128 in
    let i1 = write_le32 i0 (superblock + 4) 1024 in
    ext2_probe (some (write_le16 i1 (superblock + 56) ext2_magic)) 2048

-- The modes are sums of disjoint bits, written `|` in the source.
unfoldable pub run_permission_self_test : Bool
unfolding has_permission
run_permission_self_test =
    let node : VfsNode = record {
      path = some (text "/tmp/config");
      symlink_target = none;
      kind = ram_fs;
      mode =
          FileMode.regular + FileMode.owner_read + FileMode.owner_write + FileMode.group_read
          + FileMode.other_read;
      directory = false;
      symlink = false;
      active = true;
    } in
    has_permission node FileMode.owner_read
    && has_permission node FileMode.owner_write
    && has_permission node FileMode.group_read
    && not (has_permission node FileMode.group_write)
    && not (has_permission node FileMode.other_write)

abbrev pub directory_mode : ℕ
directory_mode =
    FileMode.directory + FileMode.owner_read + FileMode.owner_write + FileMode.owner_execute

abbrev pub shared_directory_mode : ℕ
shared_directory_mode =
    FileMode.directory + FileMode.owner_read + FileMode.owner_execute + FileMode.group_read
    + FileMode.group_execute + FileMode.other_read + FileMode.other_execute

abbrev pub readable_mode : ℕ
readable_mode = FileMode.regular + FileMode.owner_read + FileMode.group_read + FileMode.other_read

unfoldable pub run_ram_fs_self_test : FileSystem → Bool × FileSystem
run_ram_fs_self_test start =
    all_steps
      (ram_fs_add_node (some (text "/ram")) directory_mode true none
        ∷ ram_fs_add_node (some (text "/ram/readme")) (readable_mode + FileMode.owner_write) false
            none
        ∷ ask (λ fs.
          let root = ram_fs_find_node (some (text "/ram")) fs in
          let readme = ram_fs_find_node (some (text "/ram/readme")) fs in
          fs.ramfs_nodes.count == start.ramfs_nodes.count + 2
          && holds root (λ n. n.directory)
          && holds readme (λ n. not n.directory && has_permission n FileMode.owner_read))
        ∷ [])
      start

unfoldable pub run_symlink_self_test : FileSystem → Bool × FileSystem
run_symlink_self_test = all_steps (
    ram_fs_add_node (some (text "/ram/latest"))
      (FileMode.symlink + FileMode.owner_read + FileMode.group_read + FileMode.other_read) false
      (some (text "/ram/readme"))
    ∷ ask (λ fs. holds (ram_fs_find_node (some (text "/ram/latest")) fs) (λ link.
      link.symlink
      && string_equals link.symlink_target (some (text "/ram/readme"))
      && not (is_null (ram_fs_find_node link.symlink_target fs))))
    ∷ [])

abbrev mounted_as : String → FileSystemType → FileSystem → Bool
mounted_as path kind fs = holds (vfs_find_mount (some (text path)) fs) (λ m. is_type m.kind kind)

unfoldable pub run_mount_manager_self_test : FileSystem → Bool
run_mount_manager_self_test fs =
    mounted_as "/" ext2 fs
    && mounted_as "/boot/kernel.elf" fat32 fs
    && mounted_as "/ram/readme" ram_fs fs
    && mounted_as "/tmp/session.sock" tmp_fs fs
    && mounted_as "/proc/cpuinfo" proc_fs fs
    && mounted_as "/dev/console" dev_fs fs
    && mounted_as "/sys/kernel" sys_fs fs
    && mounted_as "/initrd/init" init_ram_fs fs
