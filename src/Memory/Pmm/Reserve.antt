-- ===== src/Memory/Pmm/Reserve.antt =====
-- `AlignDown`, `AlignUp` and `ReserveRange` of PhysicalMemoryManager.
use uefi_boot_system.Prelude.{
  ℕ, ◌+◌, ◌-◌, ◌*◌, ◌/◌, ◌%◌, ◌^◌, ◌≤◌, ◌<◌, ◌≡◌, refl, ◌∙◌, Bool, false, ◌&&◌, ◌||◌, if◌then◌else◌,
  ltb, leb, ◌==◌, arith, inl, inr, Bool-cases,
}
use uefi_boot_system.Prelude.Bits.{bit_and_low, bit_and_shift}
use uefi_boot_system.Memory.Pmm.{
  PhysicalMemory, managed_page_count, managed_memory_limit, page_size, is_page_free, mark_range,
  mark_pages, mark_loop, align_down, align_up, reserve_range,
}
use uefi_boot_system.Memory.Pmm.Bitmap.{IsValid}
use uefi_boot_system.Memory.Pmm.Marking.{mark_pages-IsValid, is_page_free-mark_pages}

-- On 64 bits the mask of a page keeps the page number.
pub align_down_page :
    (value : ℕ) → value < 2 ^ 64 → align_down value page_size ≡ value / page_size * page_size
unfolding align_down
align_down_page value h =
    omega (arith, bit_and_shift 12 value (2 ^ 52 - 1), bit_and_low 52 (value / page_size))

pub align_up_page :
    (value : ℕ)
    → value + page_size ≤ 2 ^ 64
    → align_up value page_size ≡ (value + page_size - 1) / page_size * page_size
unfolding align_up
align_up_page value h =
    let plain : (value + page_size + 2 ^ 64 - 1) % 2 ^ 64 ≡ value + page_size - 1 = omega arith in
    rw plain (align_down_page (value + page_size - 1) (omega arith))

pub reserve_range-IsValid :
    (address byte_count : ℕ) (p : PhysicalMemory)
    → IsValid p
    → IsValid (reserve_range address byte_count p)
unfolding reserve_range mark_range
reserve_range-IsValid address byte_count p v =
    elim (Bool-cases (byte_count == 0 || leb managed_memory_limit address)) [
      | inl e ↦ rw e v
      | inr e ↦ rw e (mark_pages-IsValid _ _ false p v)
    ]

-- The pages that the bytes `[address, address + byte_count)` touch.
abbrev pub touches : ℕ → ℕ → ℕ → Bool
touches address byte_count q =
    ltb 0 byte_count
    && leb (address / page_size) q
    && ltb (q * page_size) (address + byte_count)
    && ltb q managed_page_count

-- Where the range and one page behind it stay within 2 to the 64, so that AlignUp does not wrap,
-- ReserveRange in a valid manager marks used every managed page that one of its bytes touches, and no
-- other page.
pub is_page_free-reserve_range :
    (address byte_count : ℕ) (p : PhysicalMemory) (q : ℕ)
    → address + byte_count + page_size ≤ 2 ^ 64
    → IsValid p
    → is_page_free (reserve_range address byte_count p) q
      ≡ (if touches address byte_count q then false else is_page_free p q)
unfolding reserve_range mark_range
is_page_free-reserve_range address byte_count p q small v =
    elim (Bool-cases (byte_count == 0 || leb managed_memory_limit address)) [
      | inl e ↦ rw e (ground arith)
      | inr e ↦
          let plain : (address + byte_count) % 2 ^ 64 ≡ address + byte_count = omega arith in
          let first : address / page_size * page_size / page_size ≡ address / page_size =
            omega arith in
          let count : ((address + byte_count + page_size - 1) / page_size * page_size
                  + 2 ^ 64
                  - address / page_size * page_size)
                % 2 ^ 64
                / page_size
              ≡ (address + byte_count + page_size - 1) / page_size - address / page_size =
            omega arith in
          rw
            (
              e,
              plain,
              align_down_page address (omega arith),
              align_up_page (address + byte_count) small,
              first,
              count,
            )
            (is_page_free-mark_pages (address / page_size)
                ((address + byte_count + page_size - 1) / page_size - address / page_size) false p q
                (omega arith) v
              ∙ ground arith)
    ]

mark_none : (p : PhysicalMemory) → mark_pages 0 0 false p ≡ p
unfolding mark_pages mark_loop
mark_none p = refl

-- Where AlignUp wraps, a range from address 0 reserves nothing.
pub reserve_range-wraps :
    (byte_count : ℕ) (p : PhysicalMemory)
    → 2 ^ 64 < byte_count + page_size
    → byte_count < 2 ^ 64
    → reserve_range 0 byte_count p ≡ p
unfolding reserve_range mark_range align_up
reserve_range-wraps byte_count p wraps small =
    let some_bytes : (byte_count == 0) ≡ false = ground (arith, wraps) in
    let plain : (0 + byte_count) % 2 ^ 64 ≡ byte_count = omega (arith, small) in
    let over : (byte_count + page_size + 2 ^ 64 - 1) % 2 ^ 64
        ≡ byte_count + page_size - 1 - 2 ^ 64 =
      omega (arith, wraps, small) in
    let top : (byte_count + page_size - 1 - 2 ^ 64) / page_size * page_size ≡ 0 =
      omega (arith, wraps, small) in
    rw
      (
        some_bytes,
        plain,
        over,
        align_down_page (byte_count + page_size - 1 - 2 ^ 64) (omega (arith, small)),
        top,
        align_down_page 0 (omega arith),
      )
      (mark_none p)
