-- ===== src/Memory/Pmm/Bitmap.antt =====
-- The bitmap and counters of PhysicalMemoryManager against the set of free pages.
use uefi_boot_system.Prelude.{
  ℕ, ◌+◌, ◌-◌, ◌/◌, ◌%◌, ◌^◌, ◌≤◌, ◌<◌, ◌≡◌, refl, Bool, true, false, not, if◌then◌else◌, ◌==◌,
  length, get_or, set, arith, length-set, get_or-set_self, get_or-set_ne, inl, inr, Bool-cases,
  ==_iff, every, every_holds, same, same→eq,
}
use uefi_boot_system.Prelude.Bits.{
  test_bit, test_bit-and, test_bit-or, test_bit-mask, bit_and_mask, pow-pos,
}
use uefi_boot_system.Memory.Pmm.Counting.{count_free, weight, count_free_change, count_free_room}
use uefi_boot_system.Memory.Pmm.{
  PhysicalMemory, managed_page_count, bitmap_size, is_page_free, write_bit, set_page,
}

-- Well-formedness: a bitmap of full size, and counters that agree with it.
pub record IsValid (p : PhysicalMemory) : Type 0 where
  pub sized : length p.bitmap ≡ bitmap_size
  pub counted : p.free_pages ≡ count_free (is_page_free p) managed_page_count
  pub balanced : p.free_pages + p.used_pages ≡ managed_page_count

pub is_page_free-test_bit :
    (p : PhysicalMemory) (page : ℕ)
    → is_page_free p page ≡ not (test_bit (get_or p.bitmap (page / 8) 0xFF) (page % 8))
unfolding is_page_free
is_page_free-test_bit p page =
    ground (arith, bit_and_mask (page % 8) (get_or p.bitmap (page / 8) 0xFF), pow-pos (page % 8))

-- `~mask` clears one bit of a byte: checked for every pair of positions.
inverted_bits_table :
    every (λ j. every (λ k. same (test_bit (0xFF - 2 ^ j) k) (not (j == k))) 8) 8 ≡ true
unfolding every test_bit
inverted_bits_table = refl

inverted_bits : (j k : ℕ) → j < 8 → k < 8 → test_bit (0xFF - 2 ^ j) k ≡ not (j == k)
inverted_bits j k p q = same→eq _ _ (every_holds _ 8 k (every_holds _ 8 j inverted_bits_table p) q)

write_bit_lem :
    (byte j k : ℕ) (free : Bool)
    → j < 8
    → k < 8
    → not (test_bit (write_bit byte (2 ^ j) free) k)
      ≡ (if j == k then free else not (test_bit byte k))
unfolding write_bit
write_bit_lem byte j k true p q =
    ground (arith, test_bit-and k byte (0xFF - 2 ^ j), inverted_bits j k p q)
write_bit_lem byte j k false p q = ground (arith, test_bit-or k byte (2 ^ j), test_bit-mask j k)

bitmap-set_page :
    (free : Bool) (page : ℕ) (p : PhysicalMemory)
    → (set_page free page p).bitmap
      ≡ set p.bitmap (page / 8) (write_bit (get_or p.bitmap (page / 8) 0xFF) (2 ^ (page % 8)) free)
unfolding set_page
bitmap-set_page free page p = ground arith

-- `SetPage` changes one page and no other.
pub is_page_free-set_page :
    (free : Bool) (page : ℕ) (p : PhysicalMemory) (q : ℕ)
    → page / 8 < length p.bitmap
    → is_page_free (set_page free page p) q ≡ (if page == q then free else is_page_free p q)
is_page_free-set_page free page p q h =
    rw
      (
        is_page_free-test_bit (set_page free page p) q,
        is_page_free-test_bit p q,
        bitmap-set_page free page p,
      )
      (elim (Bool-cases (page / 8 == q / 8)) [
        | inl e ↦
            let here : page / 8 ≡ q / 8 = (==_iff (page / 8) (q / 8)).0 e in
            rw
              (
                ← here,
                get_or-set_self p.bitmap (page / 8)
                    (write_bit (get_or p.bitmap (page / 8) 0xFF) (2 ^ (page % 8)) free) 0xFF h,
                write_bit_lem (get_or p.bitmap (page / 8) 0xFF) (page % 8) (q % 8) free
                    (omega arith) (omega arith),
              )
              (ground arith)
        | inr e ↦
            rw
              (get_or-set_ne p.bitmap (page / 8) (q / 8)
                (write_bit (get_or p.bitmap (page / 8) 0xFF) (2 ^ (page % 8)) free) 0xFF
                (ground arith))
              (ground arith)
      ])

-- The counters follow the page, where their guards do not bite.
set_page_counters :
    (free : Bool) (page : ℕ) (p : PhysicalMemory)
    → p.free_pages + p.used_pages ≡ managed_page_count
    → weight (is_page_free p page) ≤ p.free_pages
    → p.free_pages < managed_page_count + weight (is_page_free p page)
    → ((set_page free page p).free_pages + weight (is_page_free p page)
        ≡ p.free_pages + weight free)
      × ((set_page free page p).free_pages + (set_page free page p).used_pages ≡ managed_page_count)
unfolding set_page
set_page_counters true page p h k m = elim (Bool-cases (is_page_free p page)) [
  | inl e ↦ ground arith
  | inr e ↦ ground arith
]
set_page_counters false page p h k m = elim (Bool-cases (is_page_free p page)) [
  | inl e ↦ ground arith
  | inr e ↦ ground arith
]

-- `SetPage` keeps the bitmap and its counters in step.
pub set_page-IsValid :
    (free : Bool) (page : ℕ) (p : PhysicalMemory)
    → page < managed_page_count
    → IsValid p
    → IsValid (set_page free page p)
set_page-IsValid free page p lt v = record {
  sized = rw (bitmap-set_page free page p, length-set) v.sized;
  counted = omega (arith, counters.0, change);
  balanced = counters.1;
}
  where
    change :
        count_free (is_page_free (set_page free page p)) managed_page_count
          + weight (is_page_free p page)
        ≡ count_free (is_page_free p) managed_page_count + weight free
    change =
        count_free_change (is_page_free p) (is_page_free (set_page free page p)) page free
          managed_page_count (λ q. is_page_free-set_page free page p q (omega (arith, v.sized))) lt

    bound :
        (weight (is_page_free p page) ≤ count_free (is_page_free p) managed_page_count)
        × (count_free (is_page_free p) managed_page_count
            < managed_page_count + weight (is_page_free p page))
    bound = count_free_room (is_page_free p) page managed_page_count lt

    counters :
        ((set_page free page p).free_pages + weight (is_page_free p page)
          ≡ p.free_pages + weight free)
        × ((set_page free page p).free_pages + (set_page free page p).used_pages
            ≡ managed_page_count)
    counters =
        set_page_counters free page p v.balanced (omega (arith, v.counted, bound.0))
          (omega (arith, v.counted, bound.1))
