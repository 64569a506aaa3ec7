-- ===== src/Memory/Boot.antt =====
-- kernel/src/kernel.cpp: `KernelMemoryInit`, which sets the managers up one after the other, and
-- `KernelMemorySelfTest`, which runs each of them.
use uefi_boot_system.Prelude.{
  ℕ, ◌-◌, ◌*◌, Bool, true, false, not, ◌&&◌, ◌||◌, [], ◌∷◌, none, some, if◌then◌else◌, ◌==◌,
  bit_and,
}
use uefi_boot_system.Prelude.Steps.{all_steps, ask}
use uefi_boot_system.Memory.Pmm.{PhysicalMemory, page_size, allocate_page, free_page}
use uefi_boot_system.Memory.Pmm.Boot.{BootInfo, Statics, init}
use uefi_boot_system.Memory.Paging.{PageTables, init_identity_map_4gib}
use uefi_boot_system.Memory.Heap.{KernelHeap, heap_init, heap_allocate}
use uefi_boot_system.Memory.Frames.{Frames, write}
use uefi_boot_system.Memory.CopyOnWrite.{
  CopyOnWrite, cow_init, cow_allocate_page, clone_page, resolve_write, release_page,
  reference_count, active_pages,
}
use uefi_boot_system.Memory.SharedMemory.{
  SharedMemory, shared_init, shared_create, shared_attach, shared_release, shared_page,
  shared_reference_count, active_segments,
}
use uefi_boot_system.Memory.Slab.{Slab, slab_init, prime, slab_allocate, slab_free}
use uefi_boot_system.Memory.HugePage.{
  huge_page_size, huge_allocate, huge_free, Numa, numa_init, numa_allocate_page, numa_free_page,
}
use uefi_boot_system.Memory.Swap.{Swap, swap_init, swap_out, swap_in}
use uefi_boot_system.Memory.PageCache.{cache_init, evict}
use uefi_boot_system.Memory.Mapping.{Mappings, mapping_init, map_file, unmap, handle_page_fault}

-- The static managers. The page manager, the bytes of memory and the page cache are those of
-- `mappings`; `huge_attached` says that the huge page manager was set up.
pub record Managers : Type 0 where
  pub tables : PageTables
  pub heap : KernelHeap
  pub cow : CopyOnWrite
  pub shared : SharedMemory
  pub slab : Slab
  pub huge_attached : Bool
  pub numa : Numa
  pub swap : Swap
  pub mappings : Mappings

abbrev Step : Type 0
Step = Managers → Bool × Managers

abbrev pub pmm_of : Managers → PhysicalMemory
pmm_of m = m.mappings.frames.pmm

abbrev pub put_frames : Frames → Managers → Managers
put_frames f m = record m { mappings = record m.mappings { frames = f } }

abbrev pub put_pmm : PhysicalMemory → Managers → Managers
put_pmm p m = put_frames (record m.mappings.frames { pmm = p }) m

abbrev byte_at : ℕ → Managers → ℕ
byte_at address m = m.mappings.frames.bytes address

abbrev put_byte : ℕ → ℕ → Managers → Managers
put_byte address v m =
    put_frames (record m.mappings.frames { bytes = write m.mappings.frames.bytes address v }) m

unfoldable pub test_huge_page : Step
test_huge_page m =
    let (page, p) = huge_allocate m.huge_attached (pmm_of m) in
    if page == 0 || not (bit_and page (huge_page_size - 1) == 0)
    then (false, put_pmm p m)
    else (true, put_pmm (huge_free m.huge_attached page p) m)

unfoldable pub test_local_page : Step
test_local_page m =
    let (page, n, p) = numa_allocate_page 0 m.numa (pmm_of m) in
    let (n', p') = numa_free_page 0 page n p in
    if page == 0 || (n.node_count == 0)
    then (false, put_pmm p (record m { numa = n }))
    else (true, put_pmm p' (record m { numa = n' }))

unfoldable pub test_anonymous_map : Step
test_anonymous_map m =
    let (address, v) = map_file 0 (page_size * 2) true true m.mappings in
    let (page, v') = handle_page_fault address true v in
    let (unmapped, v'') = unmap address v' in
    if address == 0
    then (false, record m { mappings = v })
    else if page == 0
    then (false, record m { mappings = v' })
    else (unmapped, record m { mappings = v'' })

-- The page fault comes before the test of the address.
unfoldable pub test_file_map : Step
test_file_map m =
    let (address, v) = map_file 7 page_size true true m.mappings in
    let (page, v') = handle_page_fault address true v in
    let (unmapped, v'') = unmap address v' in
    let (evicted, c, f) = evict 7 0 v''.cache v''.frames in
    if address == 0 || page == 0
    then (false, record m { mappings = v' })
    else if not unmapped
    then (false, record m { mappings = v'' })
    else (evicted, record m { mappings = record v'' { cache = c; frames = f } })

-- The part of the swap test with both pages.
unfoldable pub swap_there_and_back : ℕ → ℕ → Step
swap_there_and_back source destination m =
    let marked = put_byte source 0x6D m in
    let (slot, s, f) = swap_out source marked.swap marked.mappings.frames in
    let out = put_frames f (record marked { swap = s }) in
    elim slot [
      | none ↦ (false, out)
      | some i ↦
          let (back, s', f') = swap_in i destination s f in
          let in_again = put_frames f' (record out { swap = s' }) in
          if not back || not (byte_at destination in_again == 0x6D)
          then (false, in_again)
          else (true, put_pmm (free_page destination (free_page source (pmm_of in_again))) in_again)
    ]

unfoldable pub test_swap : Step
test_swap m =
    let (source, p) = allocate_page (pmm_of m) in
    let (destination, p') = allocate_page p in
    let run = swap_there_and_back source destination (put_pmm p' m) in
    if source == 0 || destination == 0 then (false, put_pmm p' m) else run

-- The part of the copy-on-write test from `ResolveWrite` on.
unfoldable pub write_private : ℕ → Step
write_private original m =
    let (own, c, f) = resolve_write original m.cow m.mappings.frames in
    let resolved = put_frames f (record m { cow = c }) in
    let marked = put_byte own 0xA5 resolved in
    let (c', f') = release_page original c marked.mappings.frames in
    let (c'', f'') = release_page own c' f' in
    if own == 0 || (own == original)
    then (false, resolved)
    else if not (byte_at original marked == 0x5A)
        || not (byte_at own marked == 0xA5)
        || not (reference_count original c == 1)
        || not (reference_count own c == 1)
    then (false, marked)
    else (true, put_frames f'' (record marked { cow = c'' }))

unfoldable pub test_copy_on_write : Step
test_copy_on_write m =
    let (original, c, f) = cow_allocate_page m.cow m.mappings.frames in
    let allocated = put_frames f (record m { cow = c }) in
    let (cloned, c') = clone_page original c in
    let both = put_byte original 0x5A (record allocated { cow = c' }) in
    let run = write_private original both in
    if original == 0
    then (false, allocated)
    else if not cloned || not (reference_count original c' == 2)
    then (false, both)
    else run

-- The part of the shared memory test with a page of the segment.
unfoldable pub share_page : ℕ → ℕ → Step
share_page segment page m =
    let marked = put_byte page 0xC3 m in
    let (s, f) = shared_release segment marked.shared marked.mappings.frames in
    let (s', f') = shared_release segment s f in
    if not (byte_at (shared_page segment 0 marked.shared) marked == 0xC3)
    then (false, marked)
    else (true, put_frames f' (record marked { shared = s' }))

unfoldable pub test_shared_memory : Step
test_shared_memory m =
    let (segment, s, f) = shared_create 2 m.shared m.mappings.frames in
    let created = put_frames f (record m { shared = s }) in
    let (attached, s') = shared_attach segment s in
    let both = record created { shared = s' } in
    let page = shared_page segment 0 s' in
    let run = share_page segment page both in
    if segment == 0
    then (false, created)
    else if not attached || not (shared_reference_count segment s' == 2) || page == 0
    then (false, both)
    else run

unfoldable pub test_slab : Step
test_slab m =
    let (a, s, p) = slab_allocate 24 m.slab (pmm_of m) in
    let (b, s', p') = slab_allocate 128 s p in
    let (a_free, s'') = slab_free a 24 s' in
    let (b_free, s''') = slab_free b 128 s'' in
    let allocated = put_pmm p' (record m { slab = s' }) in
    if a == 0 || (b == 0)
    then (false, allocated)
    else if not a_free
    then (false, record allocated { slab = s'' })
    else (b_free, record allocated { slab = s''' })

unfoldable pub kernel_memory_self_test : Step
kernel_memory_self_test = all_steps (
    test_huge_page
    ∷ test_local_page
    ∷ test_anonymous_map
    ∷ test_file_map
    ∷ test_swap
    ∷ test_copy_on_write
    ∷ test_shared_memory
    ∷ test_slab
    ∷ ask (λ m. (active_pages m.cow == 0) && (active_segments m.shared == 0))
    ∷ [])

-- The managers that `Init` sets up on the page manager of a heap that is there.
unfoldable pub init_managers : Managers → Managers
init_managers m = record m {
  cow = cow_init;
  shared = shared_init;
  slab = slab_init m.slab.links;
  huge_attached = true;
  numa = numa_init (pmm_of m);
  swap = swap_init;
  mappings = mapping_init cache_init m.mappings.frames;
}

-- The end of `KernelMemoryInit`.
unfoldable pub prime_and_test : Step
prime_and_test m =
    let (primed, s, p) = prime 4 0 m.slab (pmm_of m) in
    let ready = put_pmm p (record m { slab = s }) in
    let (probe, h) = heap_allocate 64 16 m.heap in
    let tested = kernel_memory_self_test (record ready { heap = h }) in
    if not primed then (false, ready) else if probe == 0 then (false, ready) else tested

unfoldable pub kernel_memory_init : BootInfo → Statics → Step
kernel_memory_init b s before =
    let (found, p) = init b s (pmm_of before) in
    let mapped =
      put_pmm p (record before { tables = init_identity_map_4gib s before.tables.directories }) in
    let (heaped, h, p') = heap_init before.heap p in
    let with_heap = put_pmm p' (record mapped { heap = h }) in
    let run = prime_and_test (init_managers with_heap) in
    if not found then (false, put_pmm p before) else if not heaped then (false, with_heap) else run
