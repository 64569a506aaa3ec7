-- ===== src/Memory/Pmm/Boot/Tests.antt =====
-- `Init` at a small memory map.
use uefi_boot_system.Prelude.{ℕ, ◌<◌, ◌≡◌, refl, true, arith}
use uefi_boot_system.Memory.Pmm.{
  is_page_free, set_page, mark_loop, mark_pages, mark_range, align_up, reserve_range,
}
use uefi_boot_system.Memory.Pmm.Bitmap.{IsValid}
use uefi_boot_system.Memory.Pmm.Boot.{
  Descriptor, BootInfo, Statics, all_used, blank, add_span, visit_descriptor, visit_map,
  reserve_boot, init,
}
use uefi_boot_system.Memory.Pmm.Boot.Free.{Holds}
use uefi_boot_system.Memory.Pmm.Boot.Init.{IsSaneBoot, IsUnreserved, init-IsValid, init_free}

-- Two pages of conventional memory at 2 MiB, and everything else below 1 MiB.
abbrev small_map : ℕ → Descriptor
small_map i = record { kind = 7; physical_start = 0x200000; number_of_pages = 2 }

abbrev small_boot : BootInfo
small_boot = record {
  buffer = 0x9000;
  map_size = 48;
  descriptor_size = 48;
  descriptor = small_map;
  kernel_base = 0x201000;
  kernel_size = 0x10;
  framebuffer_base = 0x80000000;
  framebuffer_height = 1;
  pixels_per_scanline = 1;
}

abbrev low_statics : Statics
low_statics = record {
  bitmap_address = 0x10000;
  pml4_address = 0x40000;
  pdpt_address = 0x41000;
  page_directories_address = 0x42000;
}

small_boot_free : is_page_free (init small_boot low_statics blank).1 0x200 ≡ true
unfolding init is_page_free blank all_used visit_map visit_descriptor add_span reserve_boot
    reserve_range align_up mark_range mark_pages mark_loop set_page
small_boot_free = refl

small_boot-IsSaneBoot : IsSaneBoot small_boot low_statics
small_boot-IsSaneBoot = record {
  descriptors = λ j lt. omega arith;
  kernel = omega arith;
  framebuffer = omega arith;
  bitmap = omega arith;
  pml4 = omega arith;
  pdpt = omega arith;
  page_directories = omega arith;
}

init-IsValid_example : IsValid (init small_boot low_statics blank).1
init-IsValid_example = init-IsValid small_boot low_statics blank (omega arith) (omega arith)

init_free_example :
    IsUnreserved small_boot low_statics 0x200 × ((j : ℕ) × (j < 1) × Holds (small_map j) 0x200)
init_free_example =
    init_free small_boot low_statics blank 0x200 (omega arith) (omega arith) small_boot-IsSaneBoot
      (omega arith) small_boot_free
