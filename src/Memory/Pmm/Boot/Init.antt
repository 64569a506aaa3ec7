-- ===== src/Memory/Pmm/Boot/Init.antt =====
-- The whole of `PhysicalMemoryManager::Init`: validity, and where the free pages lie.
use uefi_boot_system.Prelude.{
  ℕ, ◌+◌, ◌*◌, ◌/◌, ◌%◌, ◌^◌, ◌≤◌, ◌<◌, ◌≡◌, ◌≢◌, sym, ◌∙◌, Bool, true, false, ◌||◌, ltb, ◌==◌,
  arith, inl, inr, Bool-cases,
}
use uefi_boot_system.Memory.Pmm.{
  PhysicalMemory, managed_page_count, bitmap_size, page_size, is_page_free, reserve_range,
}
use uefi_boot_system.Memory.Pmm.Bitmap.{IsValid}
use uefi_boot_system.Memory.Pmm.Reserve.{touches, reserve_range-IsValid, is_page_free-reserve_range}
use uefi_boot_system.Memory.Pmm.Boot.{
  BootInfo, Statics, blank, descriptor_bytes, visit_map, reserve_boot, init,
}
use uefi_boot_system.Memory.Pmm.Boot.Free.{
  IsSane, Holds, is_page_free-blank, blank-IsValid, visit_map-IsValid, visit_map_free,
}

-- No sum of an address and a size of the boot data leaves 64 bits.
pub record IsSaneBoot (b : BootInfo) (s : Statics) : Type 0 where
  pub descriptors : (j : ℕ) → j < b.map_size / b.descriptor_size → IsSane (b.descriptor j)
  pub kernel : b.kernel_base + b.kernel_size + page_size ≤ 2 ^ 64
  pub framebuffer :
      b.framebuffer_base + b.framebuffer_height * b.pixels_per_scanline * 4 + page_size ≤ 2 ^ 64
  pub bitmap : s.bitmap_address + bitmap_size + page_size ≤ 2 ^ 64
  pub pml4 : s.pml4_address + 4096 + page_size ≤ 2 ^ 64
  pub pdpt : s.pdpt_address + 4096 + page_size ≤ 2 ^ 64
  pub page_directories : s.page_directories_address + 16384 + page_size ≤ 2 ^ 64

-- The page holds no byte of low memory, the kernel, the framebuffer or the manager's tables.
pub record IsUnreserved (b : BootInfo) (s : Statics) (q : ℕ) : Type 0 where
  pub low : 0x100 ≤ q
  pub kernel : touches b.kernel_base b.kernel_size q ≡ false
  pub framebuffer :
      touches b.framebuffer_base (b.framebuffer_height * b.pixels_per_scanline * 4) q ≡ false
  pub bitmap : touches s.bitmap_address bitmap_size q ≡ false
  pub pml4 : touches s.pml4_address 4096 q ≡ false
  pub pdpt : touches s.pdpt_address 4096 q ≡ false
  pub page_directories : touches s.page_directories_address 16384 q ≡ false

-- What is still free after a reservation was free before, and is not touched.
reserve_range_free :
    (address byte_count : ℕ) (p : PhysicalMemory) (q : ℕ)
    → address + byte_count + page_size ≤ 2 ^ 64
    → IsValid p
    → is_page_free (reserve_range address byte_count p) q ≡ true
    → (touches address byte_count q ≡ false)
      × (is_page_free p q ≡ true)
      × IsValid (reserve_range address byte_count p)
reserve_range_free address byte_count p q small v h =
    let change = is_page_free-reserve_range address byte_count p q small v in
    elim (Bool-cases (touches address byte_count q)) [
      | inl e ↦
          absurd (not_both (is_page_free (reserve_range address byte_count p) q) h (rw e at change))
      | inr e ↦ (e, sym (rw e at change) ∙ h, reserve_range-IsValid address byte_count p v)
    ]
  where
    not_both : (x : Bool) → x ≡ true → x ≡ false → ⊥
    not_both x t f = ground arith

reserve_boot_free :
    (b : BootInfo) (s : Statics) (p : PhysicalMemory) (q : ℕ)
    → IsSaneBoot b s
    → q < managed_page_count
    → IsValid p
    → is_page_free (reserve_boot b s p) q ≡ true
    → IsUnreserved b s q × (is_page_free p q ≡ true)
unfolding reserve_boot
reserve_boot_free b s p q sane lt v h =
    let bytes = b.framebuffer_height * b.pixels_per_scanline * 4 in
    let plain : bytes % 2 ^ 64 ≡ bytes = omega (arith, sane.framebuffer) in
    let p1 = reserve_range 0 0x100000 p in
    let v1 = reserve_range-IsValid 0 0x100000 p v in
    let p2 = reserve_range b.kernel_base b.kernel_size p1 in
    let v2 = reserve_range-IsValid b.kernel_base b.kernel_size p1 v1 in
    let p3 = reserve_range b.framebuffer_base bytes p2 in
    let v3 = reserve_range-IsValid b.framebuffer_base bytes p2 v2 in
    let p4 = reserve_range s.bitmap_address bitmap_size p3 in
    let v4 = reserve_range-IsValid s.bitmap_address bitmap_size p3 v3 in
    let p5 = reserve_range s.pml4_address 4096 p4 in
    let v5 = reserve_range-IsValid s.pml4_address 4096 p4 v4 in
    let p6 = reserve_range s.pdpt_address 4096 p5 in
    let v6 = reserve_range-IsValid s.pdpt_address 4096 p5 v5 in
    let h7 =
      reserve_range_free s.page_directories_address 16384 p6 q sane.page_directories v6
        (rw plain at h) in
    let h6 = reserve_range_free s.pdpt_address 4096 p5 q sane.pdpt v5 h7.1 in
    let h5 = reserve_range_free s.pml4_address 4096 p4 q sane.pml4 v4 h6.1 in
    let h4 = reserve_range_free s.bitmap_address bitmap_size p3 q sane.bitmap v3 h5.1 in
    let h3 = reserve_range_free b.framebuffer_base bytes p2 q sane.framebuffer v2 h4.1 in
    let h2 = reserve_range_free b.kernel_base b.kernel_size p1 q sane.kernel v1 h3.1 in
    let h1 = reserve_range_free 0 0x100000 p q (omega arith) v h2.1 in
    (
      record {
        low = ground (arith, h1.0);
        kernel = h2.0;
        framebuffer = h3.0;
        bitmap = h4.0;
        pml4 = h5.0;
        pdpt = h6.0;
        page_directories = h7.0;
      },
      h1.1,
    )

reserve_boot-IsValid :
    (b : BootInfo) (s : Statics) (p : PhysicalMemory) → IsValid p → IsValid (reserve_boot b s p)
unfolding reserve_boot
reserve_boot-IsValid b s p v = reserve_range-IsValid _ _ _ (
    reserve_range-IsValid _ _ _ (
      reserve_range-IsValid _ _ _ (
        reserve_range-IsValid _ _ _ (
          reserve_range-IsValid _ _ _
            (reserve_range-IsValid _ _ _ (reserve_range-IsValid _ _ _ v))))))

-- With a memory map, `Init` leaves a bitmap and counters that agree.
pub init-IsValid :
    (b : BootInfo) (s : Statics) (before : PhysicalMemory)
    → b.buffer ≢ 0
    → descriptor_bytes ≤ b.descriptor_size
    → IsValid (init b s before).1
unfolding init
init-IsValid b s before mapped sized =
    let guard : (b.buffer == 0 || ltb b.descriptor_size descriptor_bytes) ≡ false = ground arith in
    rw guard (reserve_boot-IsValid b s _ (visit_map-IsValid _ 0 b.descriptor blank blank-IsValid))

-- After `Init` every free page lies inside conventional memory of the map, and holds no byte of
-- low memory, the kernel, the framebuffer or the manager's own tables.
pub init_free :
    (b : BootInfo) (s : Statics) (before : PhysicalMemory) (q : ℕ)
    → b.buffer ≢ 0
    → descriptor_bytes ≤ b.descriptor_size
    → IsSaneBoot b s
    → q < managed_page_count
    → is_page_free (init b s before).1 q ≡ true
    → IsUnreserved b s q
      × ((j : ℕ) × (j < b.map_size / b.descriptor_size) × Holds (b.descriptor j) q)
unfolding init
init_free b s before q mapped sized sane lt h =
    let entries = b.map_size / b.descriptor_size in
    let guard : (b.buffer == 0 || ltb b.descriptor_size descriptor_bytes) ≡ false = ground arith in
    let mapped_p = visit_map entries 0 b.descriptor blank in
    let kept =
      reserve_boot_free b s mapped_p q sane lt
        (visit_map-IsValid entries 0 b.descriptor blank blank-IsValid) (rw (guard, init) at h) in
    (
      kept.0,
      elim (visit_map_free entries 0 entries b.descriptor blank q (omega arith) sane.descriptors
          blank-IsValid kept.1) [
            | inl blank_free ↦ absurd (ground (arith, is_page_free-blank q))
            | inr found ↦ found
          ],
    )
