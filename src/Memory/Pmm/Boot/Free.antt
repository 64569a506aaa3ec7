-- ===== src/Memory/Pmm/Boot/Free.antt =====
-- Which pages the loop of `PhysicalMemoryManager::Init` over the memory map frees.
use uefi_boot_system.Prelude.{
  ℕ, zero, suc, ◌+◌, ◌-◌, ◌*◌, ◌/◌, ◌%◌, ◌^◌, ◌≤◌, ◌<◌, ◌≡◌, refl, sym, ap, ◌∙◌, true, false, ◌||◌,
  if◌then◌else◌, ltb, leb, ◌==◌, arith, inl, inr, ◌⊎◌, Bool-cases, get_or, length, every,
  every_holds,
}
use uefi_boot_system.Prelude.Bits.{test_bit}
use uefi_boot_system.Memory.Pmm.{
  PhysicalMemory, managed_page_count, managed_memory_limit, bitmap_size, page_size,
  efi_conventional_memory, is_page_free, mark_pages, mark_range,
}
use uefi_boot_system.Memory.Pmm.Bitmap.{IsValid, is_page_free-test_bit}
use uefi_boot_system.Memory.Pmm.Counting.{count_free-false}
use uefi_boot_system.Memory.Pmm.Marking.{within, mark_pages-IsValid, is_page_free-mark_pages}
use uefi_boot_system.Memory.Pmm.Reserve.{align_down_page, align_up_page}
use uefi_boot_system.Memory.Pmm.Boot.{
  Descriptor, all_used, blank, add_span, visit_descriptor, visit_map,
}

length-all_used : (n : ℕ) → length (all_used n) ≡ n
unfolding all_used
length-all_used zero = refl
length-all_used (suc n) = ap suc (length-all_used n)

get_or-all_used : (n i : ℕ) → get_or (all_used n) i 0xFF ≡ 0xFF
unfolding all_used
get_or-all_used zero i = refl
get_or-all_used (suc n) zero = refl
get_or-all_used (suc n) (suc i) = get_or-all_used n i

ones : (k : ℕ) → k < 8 → test_bit 0xFF k ≡ true
unfolding every test_bit
ones k = every_holds (test_bit 0xFF) 8 k ones_table
  where
    ones_table : every (test_bit 0xFF) 8 ≡ true
    ones_table = refl

pub is_page_free-blank : (q : ℕ) → is_page_free blank q ≡ false
unfolding blank
is_page_free-blank q = rw (is_page_free-test_bit, get_or-all_used, ones (q % 8) (omega arith))

pub blank-IsValid : IsValid blank
unfolding blank
blank-IsValid = record {
  sized = length-all_used bitmap_size;
  counted = sym (count_free-false (is_page_free blank) managed_page_count is_page_free-blank);
  balanced = omega arith;
}

-- A count of the memory's pages is no part of the free set.
total-IsValid : (p : PhysicalMemory) (n : ℕ) → IsValid p → IsValid (record p { total_pages = n })
unfolding is_page_free
total-IsValid p n v = record { sized = v.sized; counted = v.counted; balanced = v.balanced }

is_page_free-total :
    (p : PhysicalMemory) (n q : ℕ)
    → is_page_free (record p { total_pages = n }) q ≡ is_page_free p q
unfolding is_page_free
is_page_free-total p n q = refl

add_span-IsValid :
    (kind start end : ℕ) (p : PhysicalMemory) → IsValid p → IsValid (add_span kind start end p)
unfolding add_span mark_range
add_span-IsValid kind start end p v =
    elim (Bool-cases (leb end start || leb managed_memory_limit start)) [
      | inl e ↦ rw e v
      | inr e ↦ elim (Bool-cases (kind == efi_conventional_memory)) [
        | inl c ↦ rw (e, c) (mark_pages-IsValid _ _ true _ (total-IsValid p _ v))
        | inr c ↦ rw (e, c) (total-IsValid p _ v)
      ]
    ]

-- A page that a span frees lies between its ends.
add_span_free :
    (kind start end : ℕ) (p : PhysicalMemory) (q : ℕ)
    → start % page_size ≡ 0
    → IsValid p
    → is_page_free (add_span kind start end p) q ≡ true
    → (is_page_free p q ≡ true)
      ⊎ ((kind ≡ efi_conventional_memory)
          × (start ≤ q * page_size)
          × (q * page_size + page_size ≤ end))
unfolding add_span mark_range
add_span_free kind start end p q aligned v h =
    elim (Bool-cases (leb end start || leb managed_memory_limit start)) [
      | inl e ↦ inl (rw (e, add_span) at h)
      | inr e ↦ elim (Bool-cases (kind == efi_conventional_memory)) [
        | inr c ↦ inl (sym (is_page_free-total p _ q) ∙ (rw (e, c, add_span) at h))
        | inl c ↦
            let count =
              ((if ltb managed_memory_limit end then managed_memory_limit else end) - start)
              / page_size in
            let total = record p { total_pages = (p.total_pages + count) % 2 ^ 64 } in
            let change =
              is_page_free-mark_pages (start / page_size) count true total q (ground arith)
                (total-IsValid p _ v) in
            let freed : is_page_free (mark_pages (start / page_size) count true total) q ≡ true =
              rw (e, c, add_span) at h in
            elim (Bool-cases (within (start / page_size) (start / page_size + count) q)) [
              | inl w ↦ inr (ground arith)
              | inr w ↦ inl (sym (is_page_free-total p _ q) ∙ sym (rw w at change) ∙ freed)
            ]
      ]
    ]

visit_descriptor-IsValid :
    (d : Descriptor) (p : PhysicalMemory) → IsValid p → IsValid (visit_descriptor d p)
unfolding visit_descriptor
visit_descriptor-IsValid d p v = add_span-IsValid d.kind _ _ p v

-- The descriptor's bytes end before the top of the address space.
abbrev pub IsSane : Descriptor → Type 0
IsSane d = d.physical_start + d.number_of_pages * page_size + page_size ≤ 2 ^ 64

-- The page lies wholly inside a descriptor of conventional memory.
abbrev pub Holds : Descriptor → ℕ → Type 0
Holds d q =
    (d.kind ≡ efi_conventional_memory)
    × (d.physical_start ≤ q * page_size)
    × (q * page_size + page_size ≤ d.physical_start + d.number_of_pages * page_size)

visit_descriptor_free :
    (d : Descriptor) (p : PhysicalMemory) (q : ℕ)
    → IsSane d
    → IsValid p
    → is_page_free (visit_descriptor d p) q ≡ true
    → (is_page_free p q ≡ true) ⊎ Holds d q
unfolding visit_descriptor
visit_descriptor_free d p q sane v h =
    let start = (d.physical_start + page_size - 1) / page_size * page_size in
    let end = (d.physical_start + d.number_of_pages * page_size) / page_size * page_size in
    let plain : (d.physical_start + d.number_of_pages * page_size) % 2 ^ 64
        ≡ d.physical_start + d.number_of_pages * page_size =
      omega arith in
    let spans : is_page_free (add_span d.kind start end p) q ≡ true =
      rw
        (
          plain,
          align_up_page d.physical_start (omega arith),
          align_down_page (d.physical_start + d.number_of_pages * page_size) (omega arith),
        )
        at h in
    ground (arith, add_span_free d.kind start end p q (omega arith) v spans)

pub visit_map-IsValid :
    (n i : ℕ) (descriptor : ℕ → Descriptor) (p : PhysicalMemory)
    → IsValid p
    → IsValid (visit_map n i descriptor p)
unfolding visit_map
visit_map-IsValid zero i descriptor p v = v
visit_map-IsValid (suc n) i descriptor p v =
    visit_map-IsValid n (i + 1) descriptor _ (visit_descriptor-IsValid (descriptor i) p v)

-- A free page was free before the map, or some descriptor holds it.
pub visit_map_free :
    (n i end : ℕ) (descriptor : ℕ → Descriptor) (p : PhysicalMemory) (q : ℕ)
    → i + n ≡ end
    → ((j : ℕ) → j < end → IsSane (descriptor j))
    → IsValid p
    → is_page_free (visit_map n i descriptor p) q ≡ true
    → (is_page_free p q ≡ true) ⊎ ((j : ℕ) × (j < end) × Holds (descriptor j) q)
unfolding visit_map
visit_map_free zero i end descriptor p q e sane v h = inl h
visit_map_free (suc n) i end descriptor p q e sane v h =
    elim (visit_map_free n (i + 1) end descriptor (visit_descriptor (descriptor i) p) q
      (omega arith) sane (visit_descriptor-IsValid (descriptor i) p v) h) [
        | inr later ↦ inr later
        | inl now ↦ elim (visit_descriptor_free (descriptor i) p q (sane i (omega arith)) v now) [
          | inl before ↦ inl before
          | inr holds ↦ inr (i, omega arith, holds)
        ]
      ]
