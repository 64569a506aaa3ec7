-- ===== src/Memory/Paging/Tests.antt =====
-- VirtualMemoryManager at concrete inputs.
use uefi_boot_system.Prelude.{ℕ, List, replicate}
use uefi_boot_system.Memory.Pmm.Boot.{Statics}

abbrev statics : Statics
statics = record {
  bitmap_address = 0x180000;
  pml4_address = 0x102000;
  pdpt_address = 0x103000;
  page_directories_address = 0x104000;
}

abbrev zeros : List (List ℕ)
zeros = replicate 4 (replicate 512 0)
