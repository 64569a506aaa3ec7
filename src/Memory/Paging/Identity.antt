-- ===== src/Memory/Paging/Identity.antt =====
-- VirtualMemoryManager: the tables map every address below 4 GiB to itself.
use uefi_boot_system.Prelude.{ℕ, ◌+◌, ◌*◌, ◌%◌, ◌<◌, ◌≡◌, List, [], bit_or, get_or, length}
use uefi_boot_system.Memory.Pmm.Boot.{Statics}
use uefi_boot_system.Memory.Paging.{present_writable, page_size_2mib, large_page_size}

abbrev entry_of : ℕ → ℕ → ℕ
entry_of pd entry =
    bit_or (bit_or ((pd * 512 + entry) * large_page_size) present_writable) page_size_2mib

-- The static tables: four directories of 512 entries, whatever they hold, at aligned addresses.
pub record IsStatic (s : Statics) (before : List (List ℕ)) : Type 0 where
  pub four : length before ≡ 4
  pub sized : (pd : ℕ) → pd < 4 → length (get_or before pd []) ≡ 512
  pub pdpt_aligned : s.pdpt_address % 4096 ≡ 0
  pub directories_aligned : s.page_directories_address % 4096 ≡ 0
