-- ===== src/Filesystem/BootTest.antt =====
-- kernel/src/filesystem.cpp: every self-test of the start passes.
use uefi_boot_system.Prelude.{◌≡◌, refl, true}
use uefi_boot_system.Prelude.Text.{string_equals, string_length, equals_loop}
use uefi_boot_system.Prelude.Registry
use uefi_boot_system.Prelude.Registry.{Registry, register, entries}
use uefi_boot_system.Filesystem.Image.{
  read_le16, read_le32, write_le16, write_le32, fat32_probe, ext2_probe, ram_fs_probe,
  init_ram_fs_probe,
}
use uefi_boot_system.Filesystem.Vfs.{
  reset_file_system_status, vfs_register_driver, vfs_mount_path, vfs_find_mount, find_mount_loop,
  ram_fs_add_node, ram_fs_find_node, pseudo_fs_add_node, pseudo_fs_find_node, has_permission,
  has_mode,
}
use uefi_boot_system.Filesystem.Paths.{
  path_has_prefix, prefix_loop, ends_component, starts_with_slash,
}
use uefi_boot_system.Filesystem.SelfTest.{
  run_fat32_probe_self_test, run_ext2_probe_self_test, run_permission_self_test,
  run_ram_fs_self_test, run_symlink_self_test, run_mount_manager_self_test,
}
use uefi_boot_system.Filesystem.PseudoTest.{
  run_tmp_fs_self_test, run_proc_fs_self_test, run_dev_fs_self_test, run_sys_fs_self_test,
  run_init_ram_fs_self_test,
}
use uefi_boot_system.Filesystem.Boot.{register_drivers, mount_all, kernel_file_system_init}
use uefi_boot_system.Filesystem.Tests.{two_mounts}

file_system_starts : (kernel_file_system_init two_mounts).0 ≡ true
unfolding kernel_file_system_init register_drivers mount_all run_fat32_probe_self_test
    run_ext2_probe_self_test run_permission_self_test run_ram_fs_self_test run_symlink_self_test
    run_mount_manager_self_test run_tmp_fs_self_test run_proc_fs_self_test run_dev_fs_self_test
    run_sys_fs_self_test run_init_ram_fs_self_test reset_file_system_status vfs_register_driver
    vfs_mount_path vfs_find_mount find_mount_loop ram_fs_add_node ram_fs_find_node
    pseudo_fs_add_node pseudo_fs_find_node has_permission has_mode path_has_prefix prefix_loop
    ends_component starts_with_slash read_le16 write_le16 read_le32 write_le32 fat32_probe
    ext2_probe init_ram_fs_probe ram_fs_probe Registry.empty register entries Registry.find
    string_equals string_length equals_loop
file_system_starts = refl
