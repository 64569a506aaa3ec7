-- ===== src/Memory/Slab.antt =====
-- kernel/src/kernel.cpp, class SlabAllocator: four caches of blocks of one size, each cut from a page
-- and chained in a free list. The `next` pointer of a free block is the word at its address; blocks
-- are handed back at the address they were handed out, so that words do not overlap.
pub mod Chain
pub mod Grow
pub mod Reuse
mod Tests
use uefi_boot_system.Prelude.{
  ℕ, zero, suc, ◌+◌, ◌-◌, ◌*◌, ◌/◌, ◌%◌, ◌^◌, Bool, true, false, not, ◌&&◌, ◌||◌, List, [], ◌∷◌,
  Option, none, some, if◌then◌else◌, ltb, leb, ◌==◌, get_or, set,
}
use uefi_boot_system.Prelude.Table.{find_first}
use uefi_boot_system.Memory.Pmm.{PhysicalMemory, page_size, allocate_page}
use uefi_boot_system.Memory.Frames.{write}

pub record SlabCache : Type 0 where
  pub object_size : ℕ
  pub page : ℕ
  pub free_list : ℕ
  pub total_objects : ℕ
  pub free_objects : ℕ

-- The words at the addresses of free blocks, their `next` pointers.
abbrev pub Links : Type 0
Links = ℕ → ℕ

pub record Slab : Type 0 where
  pub attached : Bool
  pub caches : List SlabCache
  pub links : Links

abbrev pub empty_cache : ℕ → SlabCache
empty_cache size = record {
  object_size = size;
  page = 0;
  free_list = 0;
  total_objects = 0;
  free_objects = 0;
}

abbrev pub cache_at : Slab → ℕ → SlabCache
cache_at s i = get_or s.caches i (empty_cache 0)

unfoldable pub slab_init : Links → Slab
slab_init links = record {
  attached = true;
  caches = empty_cache 32 ∷ empty_cache 64 ∷ empty_cache 128 ∷ empty_cache 256 ∷ [];
  links = links;
}

unfoldable pub find_cache : ℕ → Slab → Option ℕ
find_cache size s = find_first (λ (c : SlabCache). leb size c.object_size) s.caches

-- The loop of `GrowCache` from block `i` on, with `n` blocks left: the links and the head of the list.
unfoldable pub chain_blocks : ℕ → ℕ → ℕ → ℕ → ℕ → Links → ℕ × Links
chain_blocks zero i base size head links = (head, links)
chain_blocks (suc n) i base size head links =
    chain_blocks n (suc i) base size (base + i * size) (write links (base + i * size) head)

-- Whether the cache grew, the allocator and the page manager.
unfoldable pub grow_cache : ℕ → Slab → PhysicalMemory → Bool × Slab × PhysicalMemory
grow_cache i s p =
    let c = cache_at s i in
    let (page, p') = allocate_page p in
    let total = page_size / c.object_size in
    let (head, links) = chain_blocks total 0 page c.object_size 0 s.links in
    if not s.attached || not (c.page == 0)
    then (false, s, p)
    else if page == 0
    then (false, s, p')
    else (
      true,
      record s {
        caches = set s.caches i (record c {
          page = page;
          free_list = head;
          total_objects = total;
          free_objects = total;
        });
        links = links;
      },
      p',
    )

-- `Prime` from cache `i` on, with `n` caches left.
unfoldable pub prime : ℕ → ℕ → Slab → PhysicalMemory → Bool × Slab × PhysicalMemory
prime zero i s p = (true, s, p)
prime (suc n) i s p =
    let (grown, s', p') = grow_cache i s p in
    let rest = prime n (i + 1) s' p' in if grown then rest else (false, s', p')

-- The part of `Allocate` with a free block.
unfoldable pub take_block : ℕ → Slab → ℕ × Slab
take_block i s =
    let c = cache_at s i in
    (
      c.free_list,
      record s {
        caches = set s.caches i (record c {
          free_list = s.links c.free_list;
          free_objects = (c.free_objects + (2 ^ 64 - 1)) % 2 ^ 64;
        });
      },
    )

-- The block, 0 for null.
unfoldable pub slab_allocate : ℕ → Slab → PhysicalMemory → ℕ × Slab × PhysicalMemory
slab_allocate size s p = elim (find_cache size s) [
  | none ↦ (0, s, p)
  | some i ↦
      let (grown, s', p') = grow_cache i s p in
      let (block, taken) = take_block i s in
      let (block', taken') = take_block i s' in
      if not ((cache_at s i).free_list == 0)
      then (block, taken, p)
      else if grown
      then (block', taken', p')
      else (0, s', p')
]

abbrev contains : SlabCache → ℕ → Bool
contains c address = not (c.page == 0) && leb c.page address && ltb address (c.page + page_size)

unfoldable pub slab_free : ℕ → ℕ → Slab → Bool × Slab
slab_free object size s = if object == 0 then (false, s) else elim (find_cache size s) [
  | none ↦ (false, s)
  | some i ↦
      let c = cache_at s i in
      if not (contains c object) then (false, s) else (
        true,
        record s {
          caches =
              set s.caches i
                (record c { free_list = object; free_objects = (c.free_objects + 1) % 2 ^ 64 });
          links = write s.links object c.free_list;
        },
      )
]

sum_objects : List SlabCache → ℕ
sum_objects [] = 0
sum_objects (c ∷ cs) = c.total_objects + sum_objects cs

unfoldable pub slab_total_objects : Slab → ℕ
unfolding sum_objects
slab_total_objects s = sum_objects s.caches
