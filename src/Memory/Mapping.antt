-- ===== src/Memory/Mapping.antt =====
-- kernel/src/kernel.cpp, class MemoryMappingManager: ranges of virtual addresses backed by pages of a
-- file or by pages of their own, filled at once or on a page fault.
pub mod Extent
pub mod Disjoint
pub mod Run
mod Tests
use uefi_boot_system.Prelude.{
  ℕ, zero, suc, ◌+◌, ◌-◌, ◌*◌, ◌/◌, ◌%◌, ◌^◌, Bool, true, false, not, ◌&&◌, ◌||◌, List, Option,
  none, some, if◌then◌else◌, ltb, leb, ◌==◌, get_or, set, replicate,
}
use uefi_boot_system.Prelude.Table.{find_first}
use uefi_boot_system.Memory.Pmm.{page_size, allocate_page, free_page}
use uefi_boot_system.Memory.Frames.{Frames, clear_page}
use uefi_boot_system.Memory.PageCache.{PageCache, acquire, mark_dirty, release}

pub record Mapping : Type 0 where
  pub address : ℕ
  pub page_count : ℕ
  pub file_id : ℕ
  pub writable : Bool
  pub demand_paged : Bool
  pub active : Bool
  pub pages : List ℕ

-- The manager with the page cache and the memory it uses.
pub record Mappings : Type 0 where
  pub next_address : ℕ
  pub mappings : List Mapping
  pub cache : PageCache
  pub frames : Frames

abbrev pub memory_mapping_count : ℕ
memory_mapping_count = 16

abbrev pub mapping_max_pages : ℕ
mapping_max_pages = 16

abbrev pub no_mapping : Mapping
no_mapping = record {
  address = 0;
  page_count = 0;
  file_id = 0;
  writable = false;
  demand_paged = false;
  active = false;
  pages = replicate mapping_max_pages 0;
}

abbrev pub mapping_at : Mappings → ℕ → Mapping
mapping_at s i = get_or s.mappings i no_mapping

abbrev pub put_mapping : ℕ → Mapping → Mappings → Mappings
put_mapping i v s = record s { mappings = set s.mappings i v }

-- `Init` of the static, zeroed manager.
pub mapping_init : PageCache → Frames → Mappings
mapping_init c f = record {
  next_address = 0x40000000;
  mappings = replicate memory_mapping_count no_mapping;
  cache = c;
  frames = f;
}

abbrev pub covers : ℕ → Mapping → Bool
covers address v =
    v.active
    && leb v.address address
    && ltb address ((v.address + v.page_count * page_size) % 2 ^ 64)

pub find_mapping : ℕ → Mappings → Option ℕ
find_mapping address s = find_first (covers address) s.mappings

-- The address of the page, 0 for a failure, and the manager afterwards.
pub materialize : ℕ → ℕ → Mappings → ℕ × Mappings
materialize file_id page s =
    if not (file_id == 0)
    then (let (physical, c, f) = acquire file_id page s.cache s.frames in
        (physical, record s { cache = c; frames = f }))
    else let (physical, pmm) = allocate_page s.frames.pmm in
      let bytes =
        if not (physical == 0) then clear_page physical s.frames.bytes else s.frames.bytes in
      (physical, record s { frames = record { pmm = pmm; bytes = bytes } })

-- A page of a mapping goes back to the cache or to the page manager.
pub give_back : ℕ → ℕ → Mappings → Mappings
give_back file_id physical s =
    if physical == 0
    then s
    else if not (file_id == 0)
    then record s { cache = (release physical s.cache).1 }
    else record s { frames = record s.frames { pmm = free_page physical s.frames.pmm } }

-- The loop of `Unmap` from `page` on, with `n` rounds left.
pub give_back_all : ℕ → ℕ → Mapping → Mappings → Mappings
give_back_all zero page v s = s
give_back_all (suc n) page v s =
    give_back_all n (page + 1) v (give_back v.file_id (get_or v.pages page 0) s)

pub unmap : ℕ → Mappings → Bool × Mappings
unmap address s = elim (find_mapping address s) [
  | none ↦ (false, s)
  | some i ↦
      let v = mapping_at s i in
      if not (v.address == address)
      then (false, s)
      else (true, put_mapping i (record v { active = false }) (give_back_all v.page_count 0 v s))
]

-- The loop of `Map` that fills mapping `i` from `page` on, with `n` rounds left: the answer of `Map`.
pub fill : ℕ → ℕ → ℕ → Mappings → ℕ × Mappings
fill zero page i s = ((mapping_at s i).address, s)
fill (suc n) page i s =
    let (physical, t) = materialize (mapping_at s i).file_id page s in
    let v = mapping_at t i in
    let filled = put_mapping i (record v { pages = set v.pages page physical }) t in
    let rest = fill n (page + 1) i filled in
    if physical == 0 then (0, (unmap v.address filled).1) else rest

abbrev pub pages_of : ℕ → ℕ
pages_of byte_count = (byte_count + page_size + 2 ^ 64 - 1) % 2 ^ 64 / page_size

-- The round of the loop in `Map` that meets the first mapping that is not active.
pub map_at : ℕ → ℕ → ℕ → Bool → Bool → Mappings → ℕ × Mappings
map_at i file_id pages writable demand_paged s =
    let v : Mapping = record {
      address = s.next_address;
      page_count = pages;
      file_id = file_id;
      writable = writable;
      demand_paged = demand_paged;
      active = true;
      pages = replicate mapping_max_pages 0;
    } in
    let t : Mappings = record s {
      next_address = (s.next_address + pages * page_size) % 2 ^ 64;
      mappings = set s.mappings i v;
    } in
    let filled = fill pages 0 i t in if not demand_paged then filled else (v.address, t)

pub map_file : ℕ → ℕ → Bool → Bool → Mappings → ℕ × Mappings
map_file file_id byte_count writable demand_paged s =
    let pages = pages_of byte_count in
    if pages == 0 || ltb mapping_max_pages pages
    then (0, s)
    else elim (find_first (λ (v : Mapping). not v.active) s.mappings) [
      | none ↦ (0, s)
      | some i ↦ map_at i file_id pages writable demand_paged s
    ]

-- The page of a mapping, after it is filled.
pub fault_in : ℕ → ℕ → Mappings → Mappings
fault_in i page s =
    let (physical, t) = materialize (mapping_at s i).file_id page s in
    let v = mapping_at t i in
    if get_or (mapping_at s i).pages page 0 == 0
    then put_mapping i (record v { pages = set v.pages page physical }) t
    else s

pub handle_page_fault : ℕ → Bool → Mappings → ℕ × Mappings
handle_page_fault address writes s = elim (find_mapping address s) [
  | none ↦ (0, s)
  | some i ↦
      if writes && not (mapping_at s i).writable
      then (0, s)
      else (let page = (address - (mapping_at s i).address) / page_size in
          let t = fault_in i page s in
          let physical = get_or (mapping_at t i).pages page 0 in
          if writes && not ((mapping_at s i).file_id == 0)
          then (physical, record t { cache = mark_dirty physical t.cache })
          else (physical, t))
]
