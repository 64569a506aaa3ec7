-- ===== src/Memory/Slab/Reuse.antt =====
-- SlabAllocator: a block that was freed is the next one handed out.
use mathlib.Core.Option.{some-injective}
use uefi_boot_system.Prelude.{
  ℕ, ◌+◌, ◌-◌, ◌%◌, ◌^◌, ◌<◌, ◌≡◌, ◌≢◌, refl, ap, sym, ◌∙◌, subst, Bool, true, not, some, ◌==◌,
  arith, length, get_or, set, leb, get_or-set_self, set-set, set-get_or,
}
use uefi_boot_system.Prelude.Table.{find_first-set, find_first-lt}
use uefi_boot_system.Prelude.Cases.{by_option, by_if}
use uefi_boot_system.Memory.Pmm.{PhysicalMemory}
use uefi_boot_system.Memory.Frames.{write}
use uefi_boot_system.Memory.Slab.{
  Slab, SlabCache, empty_cache, cache_at, find_cache, contains, take_block, slab_allocate,
  slab_free,
}

-- What `Free` did, where it answered true: the cache of the block, and the state.
freed_state : ℕ → ℕ → Slab → Slab
freed_state object i s =
    let c = cache_at s i in
    record s {
      caches =
          set s.caches i
            (record c { free_list = object; free_objects = (c.free_objects + 1) % 2 ^ 64 });
      links = write s.links object c.free_list;
    }

abbrev Freed : ℕ → ℕ → Slab → Slab → Type 0
Freed object size s t =
    (object ≢ 0) × ((i : ℕ) × (find_cache size s ≡ some i) × (t ≡ freed_state object i s))

slab_free-Freed :
    (object size : ℕ) (s : Slab)
    → (slab_free object size s).0 ≡ true
    → Freed object size s (slab_free object size s).1
unfolding slab_free freed_state
slab_free-Freed object size s =
    let P : Bool × Slab → Type 0 = λ r. r.0 ≡ true → Freed object size s r.1 in
    by_if P (object == 0) _ _ (λ e ok. ground (arith, ok))
      (λ other.
        by_option P (find_cache size s) _ _ (λ e ok. ground (arith, ok))
          (λ i found.
            by_if P (not (contains (cache_at s i) object)) _ _ (λ e ok. ground (arith, ok))
              (λ e ok. (ground (arith, other), (i, found, refl)))))

-- The block comes back, with the memory as it was; only the word in the block differs.
abbrev pub IsReused : ℕ → Slab → PhysicalMemory → ℕ × Slab × PhysicalMemory → Type 0
IsReused object s p r =
    (r.0 ≡ object)
    × (r.1.caches ≡ s.caches)
    × (r.2 ≡ p)
    × ((address : ℕ) → address ≢ object → r.1.links address ≡ s.links address)

down_up : (n : ℕ) → n < 2 ^ 64 → ((n + 1) % 2 ^ 64 + (2 ^ 64 - 1)) % 2 ^ 64 ≡ n
down_up n small = omega (arith, small)

take_block-freed_state :
    (object i : ℕ) (s : Slab) (p : PhysicalMemory)
    → i < length s.caches
    → (cache_at s i).free_objects < 2 ^ 64
    → IsReused object s p
        ((take_block i (freed_state object i s)).0, (take_block i (freed_state object i s)).1, p)
unfolding take_block freed_state
take_block-freed_state object i s p inside small =
    let c = cache_at s i in
    let put : SlabCache = record c {
      free_list = object;
      free_objects = (c.free_objects + 1) % 2 ^ 64;
    } in
    let at : get_or (set s.caches i put) i (empty_cache 0) ≡ put =
      get_or-set_self s.caches i put (empty_cache 0) inside in
    let back : write s.links object c.free_list object ≡ c.free_list = ground arith in
    (
      ap (λ (d : SlabCache). d.free_list) at,
      rw (at, back, down_up c.free_objects small)
          (set-set s.caches i put c ∙ set-get_or s.caches i (empty_cache 0)),
      refl,
      λ address other. ground (arith, other),
    )

find_cache-lt : (size : ℕ) (s : Slab) (i : ℕ) → find_cache size s ≡ some i → i < length s.caches
unfolding find_cache
find_cache-lt size s i found =
    find_first-lt (λ (c : SlabCache). leb size c.object_size) s.caches i found

-- No size of a cache changes.
find_cache-freed_state :
    (object size i : ℕ) (s : Slab)
    → find_cache size s ≡ some i
    → find_cache size (freed_state object i s) ≡ some i
unfolding find_cache freed_state
find_cache-freed_state object size i s found =
    let c = cache_at s i in
    find_first-set (λ (c : SlabCache). leb size c.object_size) s.caches i
      (record c { free_list = object; free_objects = (c.free_objects + 1) % 2 ^ 64 })
      (empty_cache 0) refl
    ∙ found

reuse :
    (object size i : ℕ) (s : Slab) (p : PhysicalMemory)
    → object ≢ 0
    → i < length s.caches
    → (cache_at s i).free_objects < 2 ^ 64
    → find_cache size (freed_state object i s) ≡ some i
    → IsReused object s p (slab_allocate size (freed_state object i s) p)
unfolding slab_allocate take_block
reuse object size i s p some_block inside small again =
    let t = freed_state object i s in
    let P : ℕ × Slab × PhysicalMemory → Type 0 = λ r. IsReused object s p r in
    let taken = take_block-freed_state object i s p inside small in
    by_option P (find_cache size t) _ _ (λ e. absurd (cc (e, again)))
      (λ k e.
        let same : i ≡ k = some-injective _ _ (sym again ∙ e) in
        let at : IsReused object s p ((take_block k t).0, (take_block k t).1, p) =
          subst (λ (k : ℕ). IsReused object s p ((take_block k t).0, (take_block k t).1, p)) same
            taken in
        by_if P (not ((cache_at t k).free_list == 0)) _ _ (λ yes. at)
          (λ no. absurd (some_block (sym at.0 ∙ ground (arith, no)))))

-- When Free of a block answers true and no cache counts 2 to the 64 free blocks, the next Allocate of
-- that size hands out that block, and the caches, the page manager and all links but the one in the
-- block are as they were before Free.
pub slab_allocate-slab_free :
    (object size : ℕ) (s : Slab) (p : PhysicalMemory)
    → ((i : ℕ) → (cache_at s i).free_objects < 2 ^ 64)
    → (slab_free object size s).0 ≡ true
    → IsReused object s p (slab_allocate size (slab_free object size s).1 p)
slab_allocate-slab_free object size s p small ok =
    let (some_block, (i, found, is)) = slab_free-Freed object size s ok in
    let inside = find_cache-lt size s i found in
    subst (λ (t : Slab). IsReused object s p (slab_allocate size t p)) (sym is)
      (reuse object size i s p some_block inside (small i)
        (find_cache-freed_state object size i s found))
