-- ===== src/Memory/PageCache/Tests.antt =====
-- PageCache at concrete inputs.
use uefi_boot_system.Prelude.{List, [], ◌∷◌, arith}
use uefi_boot_system.Memory.Pmm.Tests.{eight_free, eight_free-IsValid, eight_free-used}
use uefi_boot_system.Memory.Frames.{Frames}
use uefi_boot_system.Memory.PageCache.{cache_init}
use uefi_boot_system.Memory.PageCache.Keys.{IsCache}
use uefi_boot_system.Memory.PageCache.Run.{
  CacheCall, acquire_call, evict_call, dirty_call, release_call, run_cache, run_cache-IsCache,
}

abbrev start : Frames
start = record { pmm = eight_free; bytes = λ _. 7 }

abbrev calls : List CacheCall
calls =
    acquire_call 3 0
    ∷ acquire_call 3 1
    ∷ dirty_call 0x200000
    ∷ release_call 0x200000
    ∷ evict_call 3 0
    ∷ acquire_call 3 0
    ∷ []

run_cache-IsCache_example :
    IsCache (run_cache calls cache_init start).0 (run_cache calls cache_init start).1
run_cache-IsCache_example =
    run_cache-IsCache calls start eight_free-IsValid (eight_free-used 0 (omega arith))
