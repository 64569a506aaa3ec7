-- ===== src/Memory/Pmm/Tests.antt =====
-- PhysicalMemoryManager at concrete inputs.
use uefi_boot_system.Prelude.{ℕ, ◌≤◌, ◌<◌, ◌≡◌, refl, ◌∙◌, true, false, arith, ◌⊎◌}
use uefi_boot_system.Memory.Pmm.{
  PhysicalMemory, managed_page_count, is_page_free, set_page, mark_pages, reserve_range,
  allocate_aligned, free_contiguous,
}
use uefi_boot_system.Memory.Pmm.Bitmap.{IsValid, is_page_free-set_page, set_page-IsValid}
use uefi_boot_system.Memory.Pmm.Marking.{mark_pages-IsValid, is_page_free-mark_pages}
use uefi_boot_system.Memory.Pmm.Search.{Fits}
use uefi_boot_system.Memory.Pmm.Allocate.{
  Allocates, allocate_aligned_sound, allocate_aligned_complete, free_contiguous-allocate_aligned,
}
use uefi_boot_system.Memory.Pmm.Reserve.{is_page_free-reserve_range}
use uefi_boot_system.Memory.Pmm.Boot.{blank}
use uefi_boot_system.Memory.Pmm.Boot.Free.{blank-IsValid, is_page_free-blank}

-- Eight free pages from page 512 on.
abbrev pub eight_free : PhysicalMemory
eight_free = mark_pages 512 8 true blank

pub eight_free-IsValid : IsValid eight_free
eight_free-IsValid = mark_pages-IsValid 512 8 true blank blank-IsValid

pub eight_free-free : (page : ℕ) → 512 ≤ page → page < 520 → is_page_free eight_free page ≡ true
eight_free-free page low high =
    is_page_free-mark_pages 512 8 true blank page (omega arith) blank-IsValid ∙ ground arith

pub eight_free-used : (page : ℕ) → page < 512 → is_page_free eight_free page ≡ false
eight_free-used page low =
    is_page_free-mark_pages 512 8 true blank page (omega arith) blank-IsValid
    ∙ ground (arith, is_page_free-blank page)

eight_free_run : Fits (is_page_free eight_free) 4 2 managed_page_count 514
eight_free_run = record {
  inside = omega arith;
  aligned = refl;
  clear = λ q lo hi.
      is_page_free-mark_pages 512 8 true blank q (omega arith) blank-IsValid ∙ ground arith;
}

is_page_free-set_page_example : is_page_free (set_page true 9 eight_free) 9 ≡ true
is_page_free-set_page_example =
    is_page_free-set_page true 9 eight_free 9 (omega (arith, eight_free-IsValid.sized))

set_page-IsValid_example : IsValid (set_page true 9 eight_free)
set_page-IsValid_example = set_page-IsValid true 9 eight_free (omega arith) eight_free-IsValid

allocate_aligned_sound_example :
    (allocate_aligned 4 2 eight_free ≡ (0, eight_free))
    ⊎ ((start : ℕ) × Allocates 4 2 eight_free (allocate_aligned 4 2 eight_free) start)
allocate_aligned_sound_example = allocate_aligned_sound 4 2 eight_free eight_free-IsValid

allocate_aligned_complete_example :
    (first : ℕ) × Allocates 4 2 eight_free (allocate_aligned 4 2 eight_free) first × (first ≤ 514)
allocate_aligned_complete_example =
    allocate_aligned_complete 4 2 514 eight_free eight_free-IsValid (omega arith)
      (omega arith, refl) eight_free_run

free_contiguous-allocate_aligned_example :
    let r = allocate_aligned 4 2 eight_free in
    let q = free_contiguous r.0 4 r.1 in
    IsValid q
    × ((page : ℕ) → page < managed_page_count → is_page_free q page ≡ is_page_free eight_free page)
    × (q.free_pages ≡ eight_free.free_pages)
free_contiguous-allocate_aligned_example =
    free_contiguous-allocate_aligned 4 2 allocate_aligned_complete_example.0 eight_free
      eight_free-IsValid allocate_aligned_complete_example.1

is_page_free-reserve_range_example :
    is_page_free (reserve_range 0x201800 0x1000 eight_free) 514 ≡ false
is_page_free-reserve_range_example =
    is_page_free-reserve_range 0x201800 0x1000 eight_free 514 (omega arith) eight_free-IsValid
