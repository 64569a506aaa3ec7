-- ===== src/Memory/Slab/Tests.antt =====
-- SlabAllocator with one page cut into blocks of 32 bytes, one of them handed out.
use uefi_boot_system.Prelude.{ℕ, zero, suc, ◌-◌, ◌<◌, ◌^◌, ◌≡◌, refl, true, [], ◌∷◌, arith, ◌≢◌}
use uefi_boot_system.Prelude.Table.{find_first}
use uefi_boot_system.Memory.Pmm.{allocate_page}
use uefi_boot_system.Memory.Pmm.Page.{allocate_page_complete}
use uefi_boot_system.Memory.Pmm.Tests.{
  eight_free, eight_free-IsValid, eight_free-free, eight_free-used,
}
use uefi_boot_system.Memory.Slab.Grow.{IsFull, grow_cache-IsFull}
use uefi_boot_system.Memory.Slab.{
  grow_cache, Slab, empty_cache, cache_at, find_cache, slab_allocate, slab_free,
}
use uefi_boot_system.Memory.Slab.Reuse.{IsReused, slab_allocate-slab_free}

abbrev state : Slab
state = record {
  attached = true;
  caches =
      record {
        object_size = 32;
        page = 0x200000;
        free_list = 0x200040;
        total_objects = 128;
        free_objects = 126;
      }
      ∷ empty_cache 64
      ∷ empty_cache 128
      ∷ empty_cache 256
      ∷ [];
  links = λ address. address - 32;
}

few_free : (i : ℕ) → (cache_at state i).free_objects < 2 ^ 64
few_free zero = omega arith
few_free (suc zero) = omega arith
few_free (suc (suc zero)) = omega arith
few_free (suc (suc (suc zero))) = omega arith
few_free (suc (suc (suc (suc i)))) = omega arith

frees : (slab_free 0x200060 24 state).0 ≡ true
unfolding slab_free find_cache find_first
frees = refl

slab_allocate-slab_free_example :
    IsReused 0x200060 state eight_free (slab_allocate 24 (slab_free 0x200060 24 state).1 eight_free)
slab_allocate-slab_free_example =
    slab_allocate-slab_free 0x200060 24 state eight_free few_free frees

-- The second cache takes the page at the start of the eight free ones.
page_there : (allocate_page eight_free).0 ≢ 0
page_there =
    let (page, takes) =
      allocate_page_complete eight_free 512 eight_free-IsValid (eight_free-used 0 (omega arith))
        (omega arith) (eight_free-free 512 (omega arith) (omega arith)) in
    λ none. omega (arith, none, takes.address, takes.positive)

grows : (grow_cache 1 state eight_free).0 ≡ true
unfolding grow_cache
grows = ground (arith, page_there)

grow_cache-IsFull_example :
    IsFull 64 (cache_at (grow_cache 1 state eight_free).1 1) (grow_cache 1 state eight_free).1.links
grow_cache-IsFull_example = grow_cache-IsFull 1 state eight_free (omega arith) (omega arith) grows
