-- ===== src/Memory/Slab/Grow.antt =====
-- SlabAllocator: what a cache that grew holds.
use native.Mathlib.Nat.{div-mul-le_self}
use uefi_boot_system.Prelude.{
  ℕ, zero, suc, ◌+◌, ◌*◌, ◌/◌, ◌≤◌, ◌<◌, ◌≡◌, refl, sym, subst, Bool, true, not, ◌||◌, ◌==◌, arith,
  length, All, set, get_or, get_or-set_self,
}
use uefi_boot_system.Prelude.Cases.{by_if}
use uefi_boot_system.Memory.Pmm.{PhysicalMemory, page_size, allocate_page}
use uefi_boot_system.Memory.Slab.{Slab, SlabCache, empty_cache, cache_at, chain_blocks, grow_cache}
use uefi_boot_system.Memory.Slab.Chain.{Chain, blocks, chain_blocks-Chain, suc_times}

-- The blocks lie in the page, each with all its bytes.
inside :
    (n bound base size : ℕ)
    → n * size ≤ bound
    → All (λ b. (base ≤ b) × (b + size ≤ base + bound)) (blocks n base size)
inside zero bound base size fits = tt
inside (suc n) bound base size fits = (
  (omega arith, omega (arith, suc_times n size, fits)),
  inside n bound base size (omega (arith, suc_times n size, fits)),
)

-- The page of a cache, all of its blocks free and in the list, and the list inside the page.
abbrev pub IsFull : ℕ → SlabCache → (ℕ → ℕ) → Type 0
IsFull size c links =
    let all = blocks (page_size / size) c.page size in
    (0 < c.page)
    × (c.object_size ≡ size)
    × (c.free_objects ≡ page_size / size)
    × (c.total_objects ≡ page_size / size)
    × Chain links c.free_list all
    × All (λ b. (c.page ≤ b) × (b + size ≤ c.page + page_size)) all

-- When GrowCache of a cache in the table, whose blocks are not empty, answers true, the cache has a
-- page, its free list runs through as many blocks as fit the page, from the last one down and each
-- wholly inside the page, and both counts are their number.
pub grow_cache-IsFull :
    (i : ℕ) (s : Slab) (p : PhysicalMemory)
    → i < length s.caches
    → 0 < (cache_at s i).object_size
    → (grow_cache i s p).0 ≡ true
    → IsFull (cache_at s i).object_size (cache_at (grow_cache i s p).1 i) (grow_cache i s p).1.links
unfolding grow_cache
grow_cache-IsFull i s p low some_size =
    let c = cache_at s i in
    let size = c.object_size in
    let page = (allocate_page p).0 in
    let total = page_size / size in
    let r = chain_blocks total 0 page size 0 s.links in
    let put : SlabCache = record c {
      page = page;
      free_list = r.0;
      total_objects = total;
      free_objects = total;
    } in
    let P : Bool × Slab × PhysicalMemory → Type 0 =
      λ g. g.0 ≡ true → IsFull size (cache_at g.1 i) g.1.links in
    by_if P (not s.attached || not (c.page == 0)) _ _ (λ e ok. absurd (ground (arith, ok)))
      (λ e.
        by_if P (page == 0) _ _ (λ z ok. absurd (ground (arith, ok)))
          (λ nonzero ok.
            let positive : 0 < page = ground (arith, nonzero) in
            let at : get_or (set s.caches i put) i (empty_cache 0) ≡ put =
              get_or-set_self s.caches i put (empty_cache 0) low in
            let plain : total + 0 ≡ total = omega arith in
            let chained : Chain r.1 r.0 (blocks total page size) =
              subst (λ (t : ℕ). Chain r.1 r.0 (blocks t page size)) plain
                (chain_blocks-Chain total 0 page size 0 s.links positive some_size refl) in
            subst (λ (d : SlabCache). IsFull size d r.1) (sym at)
              (
                positive,
                refl,
                refl,
                refl,
                chained,
                inside total page_size page size (div-mul-le_self page_size size),
              )))
