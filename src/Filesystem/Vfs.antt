-- ===== src/Filesystem/Vfs.antt =====
-- kernel/src/filesystem.cpp: the driver, mount, RamFS and pseudo file system tables.
pub mod Mounts
pub mod Nodes
use uefi_boot_system.Prelude.{
  ℕ, ◌+◌, ◌≡◌, refl, Bool, true, false, not, ◌&&◌, ◌||◌, List, [], ◌∷◌, Option, none, some,
  if◌then◌else◌, ltb, leb, ◌==◌, bit_and, arith,
}
use uefi_boot_system.Prelude.Text.{Text, text, string_equals, string_length}
use uefi_boot_system.Prelude.Registry
use uefi_boot_system.Prelude.Registry.{Registry, entries, register, find}
use uefi_boot_system.Filesystem.Paths.{path_has_prefix}

pub data FileSystemType : Type 0 where
  unknown fat32 ext2 ram_fs tmp_fs proc_fs dev_fs sys_fs init_ram_fs : FileSystemType

-- The enumerator's value, by which `==` compares.
abbrev pub type_value : FileSystemType → ℕ
type_value unknown = 0
type_value fat32 = 1
type_value ext2 = 2
type_value ram_fs = 3
type_value tmp_fs = 4
type_value proc_fs = 5
type_value dev_fs = 6
type_value sys_fs = 7
type_value init_ram_fs = 8

abbrev pub is_type : FileSystemType → FileSystemType → Bool
is_type a b = type_value a == type_value b

pub record VfsMount : Type 0 where
  pub path : Option Text
  pub kind : FileSystemType
  pub active : Bool

pub record VfsNode : Type 0 where
  pub path : Option Text
  pub symlink_target : Option Text
  pub kind : FileSystemType
  pub mode : ℕ
  pub directory : Bool
  pub symlink : Bool
  pub active : Bool

pub record FsDriver : Type 0 where
  pub name : Option Text
  pub kind : FileSystemType
  pub probe : Option (Option (List ℕ) → ℕ → Bool)

pub record PseudoFsNode : Type 0 where
  pub path : Option Text
  pub kind : FileSystemType
  pub mode : ℕ
  pub size : ℕ
  pub major : ℕ
  pub minor : ℕ
  pub directory : Bool
  pub active : Bool

abbrev pub max_fs_drivers : ℕ
max_fs_drivers = 9

abbrev pub max_mounts : ℕ
max_mounts = 12

abbrev pub max_ram_fs_nodes : ℕ
max_ram_fs_nodes = 16

abbrev pub max_pseudo_fs_nodes : ℕ
max_pseudo_fs_nodes = 24

-- FileSystemStatus without the counts, which stand in the registries.
pub record Readiness : Type 0 where
  pub vfs_ready : Bool
  pub fat32_supported : Bool
  pub ext2_supported : Bool
  pub file_permissions_ready : Bool
  pub symbolic_links_ready : Bool
  pub mount_manager_ready : Bool
  pub ramfs_ready : Bool
  pub tmpfs_ready : Bool
  pub procfs_ready : Bool
  pub devfs_ready : Bool
  pub sysfs_ready : Bool
  pub initramfs_ready : Bool

pub record FileSystem : Type 0 where
  pub drivers : Registry FsDriver
  pub mounts : Registry VfsMount
  pub ramfs_nodes : Registry VfsNode
  pub pseudo_nodes : Registry PseudoFsNode
  pub initramfs_file_count : ℕ
  pub ready : Readiness

abbrev pub blank_driver : FsDriver
blank_driver = record { name = none; kind = unknown; probe = none }

abbrev pub blank_mount : VfsMount
blank_mount = record { path = none; kind = unknown; active = false }

abbrev pub blank_node : VfsNode
blank_node = record {
  path = none;
  symlink_target = none;
  kind = unknown;
  mode = 0;
  directory = false;
  symlink = false;
  active = false;
}

abbrev pub blank_pseudo_node : PseudoFsNode
blank_pseudo_node = record {
  path = none;
  kind = unknown;
  mode = 0;
  size = 0;
  major = 0;
  minor = 0;
  directory = false;
  active = false;
}

abbrev pub nothing_ready : Readiness
nothing_ready = record {
  vfs_ready = false;
  fat32_supported = false;
  ext2_supported = false;
  file_permissions_ready = false;
  symbolic_links_ready = false;
  mount_manager_ready = false;
  ramfs_ready = false;
  tmpfs_ready = false;
  procfs_ready = false;
  devfs_ready = false;
  sysfs_ready = false;
  initramfs_ready = false;
}

-- Whatever was there before.
unfoldable pub reset_file_system_status : FileSystem → FileSystem
reset_file_system_status fs = record {
  drivers = Registry.empty max_fs_drivers blank_driver;
  mounts = Registry.empty max_mounts blank_mount;
  ramfs_nodes = Registry.empty max_ram_fs_nodes blank_node;
  pseudo_nodes = Registry.empty max_pseudo_fs_nodes blank_pseudo_node;
  initramfs_file_count = 0;
  ready = nothing_ready;
}

abbrev pub is_null {ℓ} : {A : Type ℓ} → Option A → Bool
is_null none = true
is_null (some a) = false

unfoldable pub vfs_register_driver :
    Option Text
    → FileSystemType
    → Option (Option (List ℕ) → ℕ → Bool)
    → FileSystem
    → Bool × FileSystem
vfs_register_driver name kind probe fs =
    if is_null name || is_null probe
    then (false, fs)
    else elim (register max_fs_drivers (record { name = name; kind = kind; probe = probe })
        fs.drivers) [ none ↦ (false, fs) | some drivers ↦ (true, record fs { drivers = drivers }) ]

unfoldable pub vfs_mount_path : Option Text → FileSystemType → FileSystem → Bool × FileSystem
vfs_mount_path path kind fs =
    if is_null path || is_type kind unknown
    then (false, fs)
    else elim (register max_mounts (record { path = path; kind = kind; active = true }) fs.mounts) [
      | none ↦ (false, fs)
      | some mounts ↦ (true, record fs { mounts = mounts })
    ]

-- The loop of `VfsFindMount`: the best mount so far, and the length of its path.
unfoldable pub find_mount_loop : Option Text → List VfsMount → Option VfsMount → ℕ → Option VfsMount
find_mount_loop path [] best best_length = best
find_mount_loop path (mount ∷ mounts) best best_length =
    let skip = find_mount_loop path mounts best best_length in
    let taken = find_mount_loop path mounts (some mount) (string_length mount.path) in
    if not mount.active || not (path_has_prefix path mount.path)
    then skip
    else if is_null best || ltb best_length (string_length mount.path)
    then taken
    else skip

unfoldable pub vfs_find_mount : Option Text → FileSystem → Option VfsMount
unfolding find_mount_loop
vfs_find_mount path fs = find_mount_loop path (entries fs.mounts) none 0

unfoldable pub ram_fs_add_node :
    Option Text → ℕ → Bool → Option Text → FileSystem → Bool × FileSystem
ram_fs_add_node path mode directory symlink_target fs =
    if is_null path
    then (false, fs)
    else let node : VfsNode = record {
      path = path;
      symlink_target = symlink_target;
      kind = ram_fs;
      mode = mode;
      directory = directory;
      symlink = not (is_null symlink_target);
      active = true;
    } in
      elim (register max_ram_fs_nodes node fs.ramfs_nodes) [
        | none ↦ (false, fs)
        | some nodes ↦ (true, record fs { ramfs_nodes = nodes })
      ]

unfoldable pub ram_fs_find_node : Option Text → FileSystem → Option VfsNode
ram_fs_find_node path fs =
    find (λ node. node.active && string_equals node.path path) (entries fs.ramfs_nodes)

unfoldable pub pseudo_fs_add_node :
    Option Text → FileSystemType → ℕ → Bool → ℕ → ℕ → ℕ → FileSystem → Bool × FileSystem
pseudo_fs_add_node path kind mode directory size major minor fs =
    if is_null path || is_type kind unknown
    then (false, fs)
    else let node : PseudoFsNode = record {
      path = path;
      kind = kind;
      mode = mode;
      size = size;
      major = major;
      minor = minor;
      directory = directory;
      active = true;
    } in
      elim (register max_pseudo_fs_nodes node fs.pseudo_nodes) [
        | none ↦ (false, fs)
        | some nodes ↦ (true, record fs { pseudo_nodes = nodes })
      ]

unfoldable pub pseudo_fs_find_node : Option Text → FileSystemType → FileSystem → Option PseudoFsNode
pseudo_fs_find_node path kind fs =
    find (λ node. node.active && is_type node.kind kind && string_equals node.path path)
      (entries fs.pseudo_nodes)

unfoldable pub has_permission : VfsNode → ℕ → Bool
has_permission node permission = bit_and node.mode permission == permission

unfoldable pub has_mode : ℕ → ℕ → Bool
has_mode mode permission = bit_and mode permission == permission
