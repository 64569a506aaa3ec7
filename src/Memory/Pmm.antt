-- ===== src/Memory/Pmm.antt =====
-- kernel/src/kernel.cpp, class PhysicalMemoryManager: the page bitmap, its counters, and the
-- first-fit search for an aligned run of pages.
pub mod Counting
pub mod Bitmap
pub mod Marking
pub mod Search
pub mod Allocate
pub mod Page
pub mod Reserve
pub mod Boot
pub mod Tests
use uefi_boot_system.Prelude.{
  ℕ, zero, suc, ◌+◌, ◌-◌, ◌*◌, ◌/◌, ◌%◌, ◌^◌, bit_and, bit_or, Bool, true, false, not, ◌&&◌, ◌||◌,
  List, [], ◌∷◌, Option, none, some, if◌then◌else◌, ltb, leb, ◌==◌, get_or, set, replicate,
}

abbrev pub page_size : ℕ
page_size = 4096

-- 4 GiB of pages.
abbrev pub managed_page_count : ℕ
managed_page_count = 0x100000

abbrev pub managed_memory_limit : ℕ
managed_memory_limit = 0x100000000

-- Bytes of the bitmap.
abbrev pub bitmap_size : ℕ
bitmap_size = 0x20000

abbrev pub efi_conventional_memory : ℕ
efi_conventional_memory = 7

-- A bit of the bitmap is 0 for a free page.
pub record PhysicalMemory : Type 0 where
  pub bitmap : List ℕ
  pub total_pages : ℕ
  pub free_pages : ℕ
  pub used_pages : ℕ

-- `value & ~(alignment - 1)` on 64 bits.
unfoldable pub align_down : ℕ → ℕ → ℕ
align_down value alignment = bit_and value (2 ^ 64 - 1 - (alignment - 1))

unfoldable pub align_up : ℕ → ℕ → ℕ
unfolding align_down
align_up value alignment = align_down ((value + alignment + 2 ^ 64 - 1) % 2 ^ 64) alignment

pub is_page_free : PhysicalMemory → ℕ → Bool
is_page_free p page = bit_and (get_or p.bitmap (page / 8) 0xFF) (2 ^ (page % 8)) == 0

-- The byte of the bitmap with one bit cleared or set; `0xFF - mask` is `static_cast<uint8_t>(~mask)`.
write_bit : ℕ → ℕ → Bool → ℕ
write_bit byte mask free = if free then bit_and byte (0xFF - mask) else bit_or byte mask

pub set_page : Bool → ℕ → PhysicalMemory → PhysicalMemory
unfolding write_bit
set_page free page p =
    let mask = 2 ^ (page % 8) in
    let was_free = is_page_free p page in
    let written = set p.bitmap (page / 8) (write_bit (get_or p.bitmap (page / 8) 0xFF) mask free) in
    if free && not was_free
    then record p {
      bitmap = written;
      free_pages = (p.free_pages + 1) % 2 ^ 64;
      used_pages = if ltb 0 p.used_pages then p.used_pages - 1 else p.used_pages;
    }
    else if not free && was_free
    then record p {
      bitmap = written;
      free_pages = if ltb 0 p.free_pages then p.free_pages - 1 else p.free_pages;
      used_pages = (p.used_pages + 1) % 2 ^ 64;
    }
    else record p { bitmap = written }

-- The loop of `MarkPages` from `page` up to `end`; `managed_page_count` rounds of fuel are enough,
-- since `page` grows and stays below that count.
pub mark_loop : ℕ → Bool → ℕ → ℕ → PhysicalMemory → PhysicalMemory
mark_loop zero free page end p = p
mark_loop (suc fuel) free page end p = elim (ltb page end && ltb page managed_page_count) [
  | true ↦ mark_loop fuel free (page + 1) end (set_page free page p)
  | false ↦ p
]

pub mark_pages : ℕ → ℕ → Bool → PhysicalMemory → PhysicalMemory
mark_pages start_page page_count free p =
    mark_loop managed_page_count free start_page ((start_page + page_count) % 2 ^ 64) p

pub mark_range : ℕ → ℕ → Bool → PhysicalMemory → PhysicalMemory
mark_range address page_count free p = mark_pages (address / page_size) page_count free p

pub reserve_range : ℕ → ℕ → PhysicalMemory → PhysicalMemory
reserve_range address byte_count p =
    if byte_count == 0 || leb managed_memory_limit address
    then p
    else let start = align_down address page_size in
      let end = align_up ((address + byte_count) % 2 ^ 64) page_size in
      mark_range start ((end + 2 ^ 64 - start) % 2 ^ 64 / page_size) false p

-- The scan of `AllocateAligned`, with `n` pages left from `page` on: the first aligned run of
-- `count` free pages.
pub find_run : (ℕ → Bool) → ℕ → ℕ → ℕ → ℕ → ℕ → ℕ → Option ℕ
find_run free count alignment zero page run_start run_length = none
find_run free count alignment (suc n) page run_start run_length =
    let skipped = find_run free count alignment n (page + 1) run_start run_length in
    let broken = find_run free count alignment n (page + 1) run_start 0 in
    let start = if run_length == 0 then page else run_start in
    let longer = find_run free count alignment n (page + 1) start (run_length + 1) in
    if free page
    then if run_length == 0 && not (bit_and page (alignment - 1) == 0)
      then skipped
      else if run_length + 1 == count
      then some start
      else longer
    else broken

-- The address, 0 for a failure, and the manager afterwards.
pub allocate_aligned : ℕ → ℕ → PhysicalMemory → ℕ × PhysicalMemory
allocate_aligned page_count alignment p =
    if page_count == 0 || ltb p.free_pages page_count
    then (0, p)
    else if alignment == 0 || not (bit_and alignment (alignment - 1) == 0)
    then (0, p)
    else elim (find_run (is_page_free p) page_count alignment managed_page_count 0 0 0) [
      | none ↦ (0, p)
      | some run_start ↦ (run_start * page_size, mark_pages run_start page_count false p)
    ]

pub allocate_contiguous : ℕ → PhysicalMemory → ℕ × PhysicalMemory
allocate_contiguous page_count p = allocate_aligned page_count 1 p

pub allocate_page : PhysicalMemory → ℕ × PhysicalMemory
unfolding allocate_contiguous
allocate_page p = allocate_contiguous 1 p

pub free_page : ℕ → PhysicalMemory → PhysicalMemory
free_page address p = mark_range address 1 true p

pub free_contiguous : ℕ → ℕ → PhysicalMemory → PhysicalMemory
free_contiguous address page_count p =
    if bit_and address (page_size - 1) == 0 && not (page_count == 0)
    then mark_range address page_count true p
    else p
