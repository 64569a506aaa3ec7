-- ===== src/Filesystem/Boot.antt =====
-- kernel/src/filesystem.cpp: `KernelFileSystemInit`.
use Prim.Native.String.{String}
use uefi_boot_system.Prelude.{ℕ, Bool, ◌&&◌, List, [], ◌∷◌, Option, some, if◌then◌else◌}
use uefi_boot_system.Prelude.Text.{text}
use uefi_boot_system.Prelude.Steps.{all_steps}
use uefi_boot_system.Filesystem.Image.{fat32_probe, ext2_probe, ram_fs_probe, init_ram_fs_probe}
use uefi_boot_system.Filesystem.Vfs.{
  FileSystemType, fat32, ext2, ram_fs, tmp_fs, proc_fs, dev_fs, sys_fs, init_ram_fs, FileSystem,
  Readiness, reset_file_system_status, vfs_register_driver, vfs_mount_path,
}
use uefi_boot_system.Filesystem.SelfTest.{
  run_fat32_probe_self_test, run_ext2_probe_self_test, run_permission_self_test,
  run_ram_fs_self_test, run_symlink_self_test, run_mount_manager_self_test,
}
use uefi_boot_system.Filesystem.PseudoTest.{
  run_tmp_fs_self_test, run_proc_fs_self_test, run_dev_fs_self_test, run_sys_fs_self_test,
  run_init_ram_fs_self_test,
}

abbrev driver :
    String → FileSystemType → (Option (List ℕ) → ℕ → Bool) → FileSystem → Bool × FileSystem
driver name kind probe = vfs_register_driver (some (text name)) kind (some probe)

unfoldable pub register_drivers : FileSystem → Bool × FileSystem
register_drivers = all_steps (
    driver "fat32" fat32 fat32_probe
    ∷ driver "ext2" ext2 ext2_probe
    ∷ driver "ramfs" ram_fs ram_fs_probe
    ∷ driver "tmpfs" tmp_fs ram_fs_probe
    ∷ driver "procfs" proc_fs ram_fs_probe
    ∷ driver "devfs" dev_fs ram_fs_probe
    ∷ driver "sysfs" sys_fs ram_fs_probe
    ∷ driver "initramfs" init_ram_fs init_ram_fs_probe
    ∷ [])

-- A mount whose answer is not looked at.
abbrev mount : String → FileSystemType → FileSystem → FileSystem
mount path kind fs = (vfs_mount_path (some (text path)) kind fs).1

unfoldable pub mount_all : Bool → Bool → FileSystem → FileSystem
mount_all fat32_supported ext2_supported fs =
    let boot = if fat32_supported then mount "/boot" fat32 fs else fs in
    let root = if ext2_supported then mount "/" ext2 boot else boot in
    mount "/initrd" init_ram_fs (
      mount "/sys" sys_fs (
        mount "/dev" dev_fs
          (mount "/proc" proc_fs (mount "/tmp" tmp_fs (mount "/ram" ram_fs root)))))

unfoldable pub kernel_file_system_init : FileSystem → Bool × FileSystem
unfolding register_drivers
kernel_file_system_init before =
    let (vfs, s0) = register_drivers (reset_file_system_status before) in
    let fat = run_fat32_probe_self_test in
    let ext = run_ext2_probe_self_test in
    let permissions = run_permission_self_test in
    let (ramfs, s1) = run_ram_fs_self_test (mount_all fat ext s0) in
    let linked = run_symlink_self_test s1 in
    let links = ramfs && linked.0 in
    let s2 = if ramfs then linked.1 else s1 in
    let (tmp, s3) = run_tmp_fs_self_test s2 in
    let (proc, s4) = run_proc_fs_self_test s3 in
    let (dev, s5) = run_dev_fs_self_test s4 in
    let (sys, s6) = run_sys_fs_self_test s5 in
    let (initramfs, s7) = run_init_ram_fs_self_test s6 in
    let mounts = run_mount_manager_self_test s7 in
    let ready : Readiness = record {
      vfs_ready = vfs;
      fat32_supported = fat;
      ext2_supported = ext;
      file_permissions_ready = permissions;
      symbolic_links_ready = links;
      mount_manager_ready = mounts;
      ramfs_ready = ramfs;
      tmpfs_ready = tmp;
      procfs_ready = proc;
      devfs_ready = dev;
      sysfs_ready = sys;
      initramfs_ready = initramfs;
    } in
    (
      vfs && fat && ext && permissions && links && mounts && ramfs && tmp && proc && dev && sys
          && initramfs,
      record s7 { ready = ready },
    )
