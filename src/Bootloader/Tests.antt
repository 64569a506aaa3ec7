-- ===== src/Bootloader/Tests.antt =====
-- The memory map of the boot loader with five descriptors of 48 bytes.
use uefi_boot_system.Prelude.{◌+◌, ◌≤◌, ◌≡◌, refl, some, arith}
use uefi_boot_system.Bootloader.MemoryMap.{MemoryMap, get_entry, get_entry_count, get_entry-inside}

abbrev five : MemoryMap
five = record {
  buffer = 0x1000;
  map_size = 240;
  map_key = 7;
  descriptor_size = 48;
  descriptor_version = 1;
}

last_entry : get_entry 4 five ≡ some 0x10C0
unfolding get_entry get_entry_count
last_entry = refl

get_entry-inside_example : (0x1000 ≤ 0x10C0) × (0x10C0 + 48 ≤ 0x1000 + 240)
get_entry-inside_example = get_entry-inside 4 0x10C0 five (omega arith) last_entry
