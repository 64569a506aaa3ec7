-- ===== src/Memory/Mapping/Tests.antt =====
-- MemoryMappingManager at concrete inputs.
use uefi_boot_system.Prelude.{true, false, List, [], ◌∷◌, arith}
use uefi_boot_system.Memory.Pmm.Tests.{eight_free}
use uefi_boot_system.Memory.Frames.{Frames}
use uefi_boot_system.Memory.PageCache.{cache_init}
use uefi_boot_system.Memory.Mapping.{mapping_init}
use uefi_boot_system.Memory.Mapping.Disjoint.{IsDisjoint}
use uefi_boot_system.Memory.Mapping.Run.{
  MapCall, map_call, fault_call, unmap_call, run_mappings, run_mappings-IsDisjoint,
}

abbrev start : Frames
start = record { pmm = eight_free; bytes = λ _. 0 }

abbrev calls : List MapCall
calls =
    map_call 0 8192 true true
    ∷ fault_call 0x40000000 true
    ∷ map_call 7 4096 false false
    ∷ unmap_call 0x40000000
    ∷ map_call 0 1 true true
    ∷ []

run_mappings-IsDisjoint_example : IsDisjoint (run_mappings calls (mapping_init cache_init start))
run_mappings-IsDisjoint_example = run_mappings-IsDisjoint calls cache_init start (omega arith)
