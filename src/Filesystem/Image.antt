-- ===== src/Filesystem/Image.antt =====
-- kernel/src/filesystem.cpp: little-endian fields of a disk image, and the recognisers.
use uefi_boot_system.Prelude.{
  ℕ, ◌+◌, ◌*◌, ◌/◌, ◌%◌, ◌^◌, ◌≤◌, ◌<◌, ◌≡◌, Bool, true, false, not, ◌&&◌, List, Option, none, some,
  if◌then◌else◌, ltb, leb, ◌==◌, arith, length, get_or, set, length-set, get_or-set,
}

abbrev pub init_ram_fs_magic : ℕ
init_ram_fs_magic = 0x49524653

abbrev pub fat_boot_signature : ℕ
fat_boot_signature = 0xAA55

abbrev pub ext2_magic : ℕ
ext2_magic = 0xEF53

-- An image is its bytes, so the shifted bytes do not overlap and `|` is a sum.
unfoldable pub read_le16 : List ℕ → ℕ → ℕ
read_le16 bytes offset = get_or bytes offset 0 + get_or bytes (offset + 1) 0 * 2 ^ 8

unfoldable pub read_le32 : List ℕ → ℕ → ℕ
read_le32 bytes offset =
    get_or bytes offset 0
    + get_or bytes (offset + 1) 0 * 2 ^ 8
    + get_or bytes (offset + 2) 0 * 2 ^ 16
    + get_or bytes (offset + 3) 0 * 2 ^ 24

unfoldable pub write_le16 : List ℕ → ℕ → ℕ → List ℕ
write_le16 bytes offset value =
    set (set bytes offset (value % 2 ^ 8)) (offset + 1) (value / 2 ^ 8 % 2 ^ 8)

unfoldable pub write_le32 : List ℕ → ℕ → ℕ → List ℕ
write_le32 bytes offset value =
    let b0 = set bytes offset (value % 2 ^ 8) in
    let b1 = set b0 (offset + 1) (value / 2 ^ 8 % 2 ^ 8) in
    let b2 = set b1 (offset + 2) (value / 2 ^ 16 % 2 ^ 8) in
    set b2 (offset + 3) (value / 2 ^ 24 % 2 ^ 8)

-- A null image is `none`; `size` is the caller's word for its length.
unfoldable pub fat32_probe : Option (List ℕ) → ℕ → Bool
fat32_probe none size = false
fat32_probe (some image) size =
    if ltb size 512
    then false
    else let signature = read_le16 image 510 in
      let bytes_per_sector = read_le16 image 11 in
      let sectors_per_cluster = get_or image 13 0 in
      let reserved_sectors = read_le16 image 14 in
      let fat_count = get_or image 16 0 in
      let root_entry_count = read_le16 image 17 in
      let fat16_size = read_le16 image 22 in
      let fat32_size = read_le32 image 36 in
      let root_cluster = read_le32 image 44 in
      signature == fat_boot_signature
      && leb 512 bytes_per_sector
      && not (sectors_per_cluster == 0)
      && not (reserved_sectors == 0)
      && not (fat_count == 0)
      && root_entry_count == 0
      && fat16_size == 0
      && not (fat32_size == 0)
      && leb 2 root_cluster

unfoldable pub ext2_probe : Option (List ℕ) → ℕ → Bool
ext2_probe none size = false
ext2_probe (some image) size =
    if ltb size 2048
    then false
    else let superblock : ℕ = 1024 in
      let inode_count = read_le32 image (superblock + 0) in
      let block_count = read_le32 image (superblock + 4) in
      let magic = read_le16 image (superblock + 56) in
      magic == ext2_magic && not (inode_count == 0) && not (block_count == 0)

-- `RamFsProbe`, `TmpFsProbe`, `ProcFsProbe`, `DevFsProbe` and `SysFsProbe` accept anything.
unfoldable pub ram_fs_probe : Option (List ℕ) → ℕ → Bool
ram_fs_probe image size = true

-- The header is two 32-bit words at the start of the image.
unfoldable pub init_ram_fs_probe : Option (List ℕ) → ℕ → Bool
init_ram_fs_probe none size = false
init_ram_fs_probe (some image) size =
    if ltb size 8
    then false
    else read_le32 image 0 == init_ram_fs_magic && not (read_le32 image 4 == 0)

module _ (bytes : List ℕ) (offset value : ℕ) (room : offset + 4 ≤ length bytes) where
  b0 : List ℕ
  b0 = set bytes offset (value % 2 ^ 8)

  b1 : List ℕ
  unfolding b0
  b1 = set b0 (offset + 1) (value / 2 ^ 8 % 2 ^ 8)

  b2 : List ℕ
  unfolding b1
  b2 = set b1 (offset + 2) (value / 2 ^ 16 % 2 ^ 8)

  -- `WriteLe32` writes its four bytes and no other.
  get_or-write_le32 :
      (j : ℕ)
      → get_or (write_le32 bytes offset value) j 0 ≡ (
          if offset + 3 == j
          then value / 2 ^ 24 % 2 ^ 8
          else if offset + 2 == j
          then value / 2 ^ 16 % 2 ^ 8
          else if offset + 1 == j
          then value / 2 ^ 8 % 2 ^ 8
          else if offset == j
          then value % 2 ^ 8
          else get_or bytes j 0)
  unfolding write_le32 b2
  get_or-write_le32 j = ground (
    arith,
    get_or-set b2 (offset + 3) j (value / 2 ^ 24 % 2 ^ 8) 0,
    get_or-set b1 (offset + 2) j (value / 2 ^ 16 % 2 ^ 8) 0,
    get_or-set b0 (offset + 1) j (value / 2 ^ 8 % 2 ^ 8) 0,
    get_or-set bytes offset j (value % 2 ^ 8) 0,
    length-set b1 (offset + 2) (value / 2 ^ 16 % 2 ^ 8),
    length-set b0 (offset + 1) (value / 2 ^ 8 % 2 ^ 8),
    length-set bytes offset (value % 2 ^ 8),
  )

  -- A 32-bit field that `WriteLe32` writes reads back by `ReadLe32`.
  pub read_le32-write_le32 :
      value < 2 ^ 32 → read_le32 (write_le32 bytes offset value) offset ≡ value
  unfolding read_le32
  read_le32-write_le32 small = ground (
    arith,
    get_or-write_le32 offset,
    get_or-write_le32 (offset + 1),
    get_or-write_le32 (offset + 2),
    get_or-write_le32 (offset + 3),
  )
