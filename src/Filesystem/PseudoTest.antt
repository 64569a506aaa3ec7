-- ===== src/Filesystem/PseudoTest.antt =====
-- kernel/src/filesystem.cpp: the self-tests of the pseudo file systems.
use Prim.Native.String.{String}
use uefi_boot_system.Prelude.{
  ℕ, ◌+◌, Bool, true, false, not, ◌&&◌, List, [], ◌∷◌, Option, some, if◌then◌else◌, ◌==◌, length,
  replicate,
}
use uefi_boot_system.Prelude.Text.{Text, text}
use uefi_boot_system.Prelude.Steps.{all_steps, ask}
use uefi_boot_system.Filesystem.FileMode
use uefi_boot_system.Filesystem.Image.{write_le32, init_ram_fs_probe, init_ram_fs_magic}
use uefi_boot_system.Filesystem.Vfs.{
  FileSystemType, tmp_fs, proc_fs, dev_fs, sys_fs, init_ram_fs, PseudoFsNode, FileSystem,
  pseudo_fs_add_node, pseudo_fs_find_node, has_mode,
}
use uefi_boot_system.Filesystem.SelfTest.{
  holds, directory_mode, shared_directory_mode, readable_mode,
}

abbrev add : String → FileSystemType → ℕ → Bool → ℕ → FileSystem → Bool × FileSystem
add path kind mode directory size =
    pseudo_fs_add_node (some (text path)) kind mode directory size 0 0

abbrev found : String → FileSystemType → FileSystem → (PseudoFsNode → Bool) → Bool
found path kind fs test = holds (pseudo_fs_find_node (some (text path)) kind fs) test

unfoldable pub run_tmp_fs_self_test : FileSystem → Bool × FileSystem
run_tmp_fs_self_test start =
    all_steps
      (add "/tmp" tmp_fs directory_mode true 0
        ∷ add "/tmp/session.sock" tmp_fs
            (FileMode.regular + FileMode.owner_read + FileMode.owner_write) false 0
        ∷ ask (λ fs.
          fs.pseudo_nodes.count == start.pseudo_nodes.count + 2
          && found "/tmp" tmp_fs fs (λ root. root.directory)
          && found "/tmp/session.sock" tmp_fs fs
              (λ socket. not socket.directory && has_mode socket.mode FileMode.owner_write))
        ∷ [])
      start

unfoldable pub run_proc_fs_self_test : FileSystem → Bool × FileSystem
run_proc_fs_self_test = all_steps (
    add "/proc" proc_fs shared_directory_mode true 0
    ∷ add "/proc/cpuinfo" proc_fs readable_mode false 128
    ∷ add "/proc/meminfo" proc_fs readable_mode false 96
    ∷ ask (λ fs.
      found "/proc/cpuinfo" proc_fs fs (λ cpuinfo. not (cpuinfo.size == 0))
      && found "/proc/meminfo" proc_fs fs (λ meminfo. not (meminfo.size == 0))
      && found "/proc/cpuinfo" proc_fs fs (λ cpuinfo. not cpuinfo.directory))
    ∷ [])

unfoldable pub run_dev_fs_self_test : FileSystem → Bool × FileSystem
run_dev_fs_self_test = all_steps (
    add "/dev" dev_fs (shared_directory_mode + FileMode.owner_write) true 0
    ∷ pseudo_fs_add_node (some (text "/dev/console")) dev_fs
        (FileMode.regular + FileMode.owner_read + FileMode.owner_write + FileMode.group_write) false
        0 5 1
    ∷ pseudo_fs_add_node (some (text "/dev/null")) dev_fs
        (readable_mode + FileMode.owner_write + FileMode.group_write + FileMode.other_write) false 0
        1 3
    ∷ ask (λ fs.
      found "/dev/console" dev_fs fs (λ console. console.major == 5 && console.minor == 1)
      && found "/dev/null" dev_fs fs
          (λ null_device. null_device.major == 1 && null_device.minor == 3))
    ∷ [])

unfoldable pub run_sys_fs_self_test : FileSystem → Bool × FileSystem
run_sys_fs_self_test = all_steps (
    add "/sys" sys_fs shared_directory_mode true 0
    ∷ add "/sys/kernel" sys_fs shared_directory_mode true 0
    ∷ add "/sys/kernel/version" sys_fs readable_mode false 32
    ∷ ask (λ fs.
      found "/sys/kernel" sys_fs fs (λ kernel. kernel.directory)
      && found "/sys/kernel/version" sys_fs fs (λ version. not (version.size == 0)))
    ∷ [])

pub record InitRamFsEntry : Type 0 where
  pub path : Option Text
  pub size : ℕ
  pub mode : ℕ

abbrev pub files : List InitRamFsEntry
files =
    record {
      path = some (text "/initrd/init");
      size = 4096;
      mode = FileMode.regular + FileMode.owner_read + FileMode.owner_execute;
    }
    ∷ record { path = some (text "/initrd/etc/profile"); size = 256; mode = readable_mode }
    ∷ []

-- The loop over the files, which counts each one that it added.
abbrev pub add_files : List InitRamFsEntry → FileSystem → Bool × FileSystem
add_files [] fs = (true, fs)
add_files (file ∷ rest) fs =
    let added = pseudo_fs_add_node file.path init_ram_fs file.mode false file.size 0 0 fs in
    let counted : FileSystem = record added.1 {
      initramfs_file_count = added.1.initramfs_file_count + 1;
    } in
    let others = add_files rest counted in if added.0 then others else (false, added.1)

unfoldable pub run_init_ram_fs_self_test : FileSystem → Bool × FileSystem
run_init_ram_fs_self_test =
    let image = write_le32 (write_le32 (replicate 8 0) 0 init_ram_fs_magic) 4 (length files) in
    all_steps (
      ask (λ fs. init_ram_fs_probe (some image) 8)
      ∷ add "/initrd" init_ram_fs
          (FileMode.directory + FileMode.owner_read + FileMode.owner_execute) true 0
      ∷ add_files files
      ∷ ask (λ fs.
        fs.initramfs_file_count == length files
        && found "/initrd/init" init_ram_fs fs (λ init. init.size == 4096)
        && found "/initrd/etc/profile" init_ram_fs fs (λ profile. profile.size == 256))
      ∷ [])
