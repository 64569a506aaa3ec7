-- ===== src/Memory/Mapping/Run.antt =====
-- MemoryMappingManager: sequences of calls.
use uefi_boot_system.Prelude.{
  ℕ, ◌+◌, ◌*◌, ◌^◌, ◌<◌, ◌≡◌, ap, Bool, false, List, [], ◌∷◌, arith, length, length-replicate,
  get_or-replicate,
}
use uefi_boot_system.Memory.Pmm.{page_size}
use uefi_boot_system.Memory.Frames.{Frames}
use uefi_boot_system.Memory.PageCache.{PageCache}
use uefi_boot_system.Memory.Mapping.{
  Mapping, Mappings, memory_mapping_count, mapping_max_pages, no_mapping, mapping_init, mapping_at,
  map_file, unmap, handle_page_fault,
}
use uefi_boot_system.Memory.Mapping.Extent.{unmap-Shrinks, handle_page_fault-Shrinks}
use uefi_boot_system.Memory.Mapping.Disjoint.{IsDisjoint, Shrinks-IsDisjoint, Keeps, map_file-Keeps}

-- A call of one of the operations, with any arguments.
pub data MapCall : Type 0 where
  map_call : ℕ → ℕ → Bool → Bool → MapCall
  fault_call : ℕ → Bool → MapCall
  unmap_call : ℕ → MapCall

pub map_step : MapCall → Mappings → Mappings
map_step (map_call file_id byte_count writable demand_paged) s =
    (map_file file_id byte_count writable demand_paged s).1
map_step (fault_call address writes) s = (handle_page_fault address writes s).1
map_step (unmap_call address) s = (unmap address s).1

pub run_mappings : List MapCall → Mappings → Mappings
run_mappings [] s = s
run_mappings (k ∷ ks) s = run_mappings ks (map_step k s)

map_step-Keeps :
    (k : MapCall) (s : Mappings)
    → IsDisjoint s
    → s.next_address + mapping_max_pages * page_size < 2 ^ 64
    → Keeps s (map_step k s)
unfolding map_step
map_step-Keeps (map_call file_id byte_count writable demand_paged) s d room =
    map_file-Keeps s d room file_id byte_count writable demand_paged
map_step-Keeps (fault_call address writes) s d room =
    let h = handle_page_fault-Shrinks address writes s in
    (Shrinks-IsDisjoint s _ h d, omega (arith, h.next_same))
map_step-Keeps (unmap_call address) s d room =
    let h = unmap-Shrinks address s in (Shrinks-IsDisjoint s _ h d, omega (arith, h.next_same))

run_mappings-keeps :
    (ks : List MapCall) (s : Mappings)
    → IsDisjoint s
    → s.next_address + length ks * (mapping_max_pages * page_size) < 2 ^ 64
    → IsDisjoint (run_mappings ks s)
unfolding run_mappings
run_mappings-keeps [] s d room = d
run_mappings-keeps (k ∷ ks) s d room =
    let (d', bound) = map_step-Keeps k s d (omega arith) in
    run_mappings-keeps ks (map_step k s) d' (omega (arith, bound))

-- After fewer than 2 to the 47 calls of Map, HandlePageFault and Unmap on the manager that `Init`
-- leaves, in any order and with any arguments, every active mapping ends at or below the next
-- address, and no two active mappings overlap.
pub run_mappings-IsDisjoint :
    (ks : List MapCall) (c : PageCache) (f : Frames)
    → length ks < 2 ^ 47
    → IsDisjoint (run_mappings ks (mapping_init c f))
unfolding mapping_init
run_mappings-IsDisjoint ks c f few =
    run_mappings-keeps ks (mapping_init c f)
      (record {
        sized = length-replicate memory_mapping_count no_mapping;
        below = λ i on. absurd (cc (on, off i));
        apart = λ i j _ on _. absurd (cc (on, off i));
      })
      (omega arith)
  where
    off : (i : ℕ) → (mapping_at (mapping_init c f) i).active ≡ false
    off i = ap (λ (v : Mapping). v.active) (get_or-replicate memory_mapping_count i no_mapping)
