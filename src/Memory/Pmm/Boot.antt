-- ===== src/Memory/Pmm/Boot.antt =====
-- `PhysicalMemoryManager::Init`: the free pages after boot, from the firmware's memory map.
pub mod Free
pub mod Init
mod Tests
use uefi_boot_system.Prelude.{
  ℕ, zero, suc, ◌+◌, ◌-◌, ◌*◌, ◌/◌, ◌%◌, ◌^◌, ◌≤◌, ◌<◌, ◌≡◌, refl, sym, ap, ◌∙◌, Bool, true, false,
  ◌&&◌, ◌||◌, if◌then◌else◌, ltb, leb, ◌==◌, arith, inl, inr, Bool-cases, List, get_or, replicate,
  [], ◌∷◌, not, every, every_holds, length, length-replicate, get_or-replicate,
}
use uefi_boot_system.Prelude.Bits.{test_bit}
use uefi_boot_system.Memory.Pmm.{
  PhysicalMemory, managed_page_count, managed_memory_limit, bitmap_size, page_size,
  efi_conventional_memory, is_page_free, mark_pages, mark_range, align_down, align_up,
  reserve_range,
}
use uefi_boot_system.Memory.Pmm.Bitmap.{IsValid, is_page_free-test_bit}
use uefi_boot_system.Memory.Pmm.Counting.{count_free, count_free-false}
use uefi_boot_system.Memory.Pmm.Marking.{within, mark_pages-IsValid, is_page_free-mark_pages}
use uefi_boot_system.Memory.Pmm.Reserve.{
  align_down_page, align_up_page, touches, reserve_range-IsValid, is_page_free-reserve_range,
}

-- KernelMemoryDescriptor, without its padding and the fields that `Init` does not read.
pub record Descriptor : Type 0 where
  pub kind : ℕ
  pub physical_start : ℕ
  pub number_of_pages : ℕ

-- What `Init` reads of BootInfo. `descriptor i` is what stands at `map + i * descriptor_size`.
pub record BootInfo : Type 0 where
  pub buffer : ℕ
  pub map_size : ℕ
  pub descriptor_size : ℕ
  pub descriptor : ℕ → Descriptor
  pub kernel_base : ℕ
  pub kernel_size : ℕ
  pub framebuffer_base : ℕ
  pub framebuffer_height : ℕ
  pub pixels_per_scanline : ℕ

-- Where the linker puts the statics that `Init` reserves.
pub record Statics : Type 0 where
  pub bitmap_address : ℕ
  pub pml4_address : ℕ
  pub pdpt_address : ℕ
  pub page_directories_address : ℕ

-- `n` bytes 0xFF: every page used.
pub all_used : ℕ → List ℕ
all_used zero = []
all_used (suc n) = 0xFF ∷ all_used n

pub blank : PhysicalMemory
blank = record {
  bitmap = all_used bitmap_size;
  total_pages = 0;
  free_pages = 0;
  used_pages = managed_page_count;
}

-- `sizeof(KernelMemoryDescriptor)`
abbrev pub descriptor_bytes : ℕ
descriptor_bytes = 40

-- The loop's body after `start` and `end` are known.
pub add_span : ℕ → ℕ → ℕ → PhysicalMemory → PhysicalMemory
add_span kind start end p =
    if leb end start || leb managed_memory_limit start
    then p
    else let clamped_end = if ltb managed_memory_limit end then managed_memory_limit else end in
      let page_count = (clamped_end - start) / page_size in
      let counted = record p { total_pages = (p.total_pages + page_count) % 2 ^ 64 } in
      if kind == efi_conventional_memory then mark_range start page_count true counted else counted

pub visit_descriptor : Descriptor → PhysicalMemory → PhysicalMemory
visit_descriptor d p =
    let start = align_up d.physical_start page_size in
    let end = align_down ((d.physical_start + d.number_of_pages * page_size) % 2 ^ 64) page_size in
    add_span d.kind start end p

-- The loop over the map: `n` descriptors left, from `i` on.
pub visit_map : ℕ → ℕ → (ℕ → Descriptor) → PhysicalMemory → PhysicalMemory
visit_map zero i descriptor p = p
visit_map (suc n) i descriptor p =
    visit_map n (i + 1) descriptor (visit_descriptor (descriptor i) p)

pub reserve_boot : BootInfo → Statics → PhysicalMemory → PhysicalMemory
reserve_boot b s p =
    let low = reserve_range 0 0x100000 p in
    let kernel = reserve_range b.kernel_base b.kernel_size low in
    let framebuffer =
      reserve_range b.framebuffer_base ((b.framebuffer_height * b.pixels_per_scanline * 4) % 2 ^ 64)
        kernel in
    let bitmap = reserve_range s.bitmap_address bitmap_size framebuffer in
    let pml4 = reserve_range s.pml4_address 4096 bitmap in
    let pdpt = reserve_range s.pdpt_address 4096 pml4 in
    reserve_range s.page_directories_address 16384 pdpt

-- The result and the manager; the manager is left as it was if there is no usable map.
pub init : BootInfo → Statics → PhysicalMemory → Bool × PhysicalMemory
init b s before =
    if b.buffer == 0 || ltb b.descriptor_size descriptor_bytes
    then (false, before)
    else let p =
        reserve_boot b s (visit_map (b.map_size / b.descriptor_size) 0 b.descriptor blank) in
      (ltb 0 p.free_pages, p)
