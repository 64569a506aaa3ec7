-- ===== src/Filesystem/Tests.antt =====
-- The file system's theorems at concrete inputs.
use uefi_boot_system.Prelude.{
  ◌≡◌, ◌↔◌, refl, true, none, some, ◌∷◌, arith, replicate, if◌then◌else◌,
}
use uefi_boot_system.Prelude.Text.{text, string_equals}
use uefi_boot_system.Prelude.Registry
use uefi_boot_system.Prelude.Registry.{entries, or_else, empty-IsBounded}
use uefi_boot_system.Filesystem.Image.{read_le32, write_le32, read_le32-write_le32}
use uefi_boot_system.Filesystem.Paths.{path_has_prefix, Covers, path_has_prefix_iff}
use uefi_boot_system.Filesystem.Vfs.{
  ext2, fat32, FileSystem, max_fs_drivers, max_ram_fs_nodes, max_pseudo_fs_nodes, blank_driver,
  blank_mount, blank_node, blank_pseudo_node, nothing_ready, vfs_find_mount, ram_fs_add_node,
  ram_fs_find_node,
}
use uefi_boot_system.Filesystem.Vfs.Mounts.{Answers, vfs_find_mount-Answers}
use uefi_boot_system.Filesystem.Vfs.Nodes.{ram_node, ram_fs_find_node-ram_fs_add_node}

abbrev pub two_mounts : FileSystem
two_mounts = record {
  drivers = Registry.empty max_fs_drivers blank_driver;
  mounts = record {
    slots =
        record { path = some (text "/boot"); kind = fat32; active = true }
        ∷ record { path = some (text "/"); kind = ext2; active = true }
        ∷ replicate 10 blank_mount;
    count = 2;
  };
  ramfs_nodes = Registry.empty max_ram_fs_nodes blank_node;
  pseudo_nodes = Registry.empty max_pseudo_fs_nodes blank_pseudo_node;
  initramfs_file_count = 7;
  ready = nothing_ready;
}

read_le32-write_le32_example : read_le32 (write_le32 (replicate 8 9) 2 3735928559) 2 ≡ 3735928559
read_le32-write_le32_example =
    read_le32-write_le32 (replicate 8 9) 2 3735928559 (omega arith) (omega arith)

path_has_prefix_iff_example :
    (path_has_prefix (some (text "/boot/kernel.elf")) (some (text "/boot")) ≡ true)
    ↔ Covers (text "/boot") (text "/boot/kernel.elf")
path_has_prefix_iff_example = path_has_prefix_iff (text "/boot/kernel.elf") (text "/boot")

vfs_find_mount-Answers_example :
    Answers
      (some (text "/boot/kernel.elf"))
      (entries two_mounts.mounts)
      (vfs_find_mount (some (text "/boot/kernel.elf")) two_mounts)
vfs_find_mount-Answers_example = vfs_find_mount-Answers (some (text "/boot/kernel.elf")) two_mounts

added : (ram_fs_add_node (some (text "/ram")) 448 true none two_mounts).0 ≡ true
unfolding ram_fs_add_node Registry.empty Registry.register
added = refl

ram_fs_find_node-ram_fs_add_node_example :
    let after = (ram_fs_add_node (some (text "/ram")) 448 true none two_mounts).1 in
    Registry.IsBounded max_ram_fs_nodes after.ramfs_nodes
    × (ram_fs_find_node (some (text "/ram")) after
        ≡ or_else (ram_fs_find_node (some (text "/ram")) two_mounts) (
            if string_equals (some (text "/ram")) (some (text "/ram"))
            then some (ram_node (text "/ram") 448 true none)
            else none))
ram_fs_find_node-ram_fs_add_node_example =
    ram_fs_find_node-ram_fs_add_node (text "/ram") 448 true none two_mounts (text "/ram")
      (empty-IsBounded max_ram_fs_nodes blank_node) added
