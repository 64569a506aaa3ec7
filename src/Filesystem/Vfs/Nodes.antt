-- ===== src/Filesystem/Vfs/Nodes.antt =====
-- The node tables: what an added node answers to, and what a full table does.
use uefi_boot_system.Prelude.{
  ℕ, ◌≡◌, refl, Bool, true, not, ◌&&◌, [], ◌∷◌, Option, none, some, if◌then◌else◌, arith,
}
use uefi_boot_system.Prelude.Text.{Text, string_equals}
use uefi_boot_system.Prelude.Registry
use uefi_boot_system.Prelude.Registry.{
  Registry, entries, register, find, find-append, or_else, register_lem, register_full,
}
use uefi_boot_system.Filesystem.Vfs.{
  VfsNode, ram_fs, FileSystem, max_ram_fs_nodes, is_null, ram_fs_add_node, ram_fs_find_node,
}

-- The node that `RamFsAddNode` writes.
abbrev pub ram_node : Text → ℕ → Bool → Option Text → VfsNode
ram_node path mode directory target = record {
  path = some path;
  symlink_target = target;
  kind = ram_fs;
  mode = mode;
  directory = directory;
  symlink = not (is_null target);
  active = true;
}

module _ (path : Text) (mode : ℕ) (directory : Bool) (target : Option Text) (fs : FileSystem) where
  node : VfsNode
  node = ram_node path mode directory target

  -- The table after `RamFsAddNode`, when it took the node.
  added_table :
      (ram_fs_add_node (some path) mode directory target fs).0 ≡ true
      → (nodes : Registry VfsNode) × (register max_ram_fs_nodes node fs.ramfs_nodes ≡ some nodes)
        × ((ram_fs_add_node (some path) mode directory target fs).1
            ≡ record fs { ramfs_nodes = nodes })
  unfolding ram_fs_add_node node
  added_table ok = by_answer (register max_ram_fs_nodes node fs.ramfs_nodes) refl
    where
      by_answer :
          (answer : Option (Registry VfsNode))
          → register max_ram_fs_nodes node fs.ramfs_nodes ≡ answer
          → (nodes : Registry VfsNode) × (register max_ram_fs_nodes node fs.ramfs_nodes
              ≡ some nodes)
            × ((ram_fs_add_node (some path) mode directory target fs).1
                ≡ record fs { ramfs_nodes = nodes })
      by_answer none e = absurd (ground (arith, rw e at ok))
      by_answer (some nodes) e = (nodes, e, rw e)

  -- When `RamFsAddNode` answers true, the table stays within its bounds, and a search answers as
  -- before where it found a node before, and else finds the new node under its own path only.
  pub ram_fs_find_node-ram_fs_add_node :
      (other : Text)
      → Registry.IsBounded max_ram_fs_nodes fs.ramfs_nodes
      → (ram_fs_add_node (some path) mode directory target fs).0 ≡ true
      → let after = (ram_fs_add_node (some path) mode directory target fs).1 in
        Registry.IsBounded max_ram_fs_nodes after.ramfs_nodes
        × (ram_fs_find_node (some other) after
            ≡ or_else (ram_fs_find_node (some other) fs) (
                if string_equals (some path) (some other)
                then some (ram_node path mode directory target)
                else none))
  unfolding ram_fs_find_node node find
  ram_fs_find_node-ram_fs_add_node other b ok =
      let (nodes, e, after) = added_table ok in
      let (list, bounded, more) = register_lem max_ram_fs_nodes node fs.ramfs_nodes nodes b e in
      rw after (
        bounded,
        rw list (
            find-append (λ n. n.active && string_equals n.path (some other))
              (entries fs.ramfs_nodes) (node ∷ [])),
      )
