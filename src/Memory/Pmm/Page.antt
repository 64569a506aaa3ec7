-- ===== src/Memory/Pmm/Page.antt =====
-- `AllocatePage` and `FreePage` of PhysicalMemoryManager, one page at a time.
use uefi_boot_system.Prelude.{
  ℕ, ◌*◌, ◌/◌, ◌<◌, ◌≡◌, ◌⊎◌, inl, inr, refl, ap, ◌∙◌, true, false, if◌then◌else◌, ◌==◌, arith,
  Bool-cases, ==_iff,
}
use uefi_boot_system.Memory.Pmm.{
  PhysicalMemory, managed_page_count, page_size, is_page_free, allocate_page, allocate_contiguous,
  allocate_aligned, free_page, mark_range,
}
use uefi_boot_system.Memory.Pmm.Bitmap.{IsValid}
use uefi_boot_system.Memory.Pmm.Marking.{mark_pages-IsValid, is_page_free-mark_pages}
use uefi_boot_system.Memory.Pmm.Allocate.{
  Allocates, allocate_aligned_sound, allocate_aligned_complete,
}
use uefi_boot_system.Memory.Pmm.Search.{Fits}
use uefi_boot_system.Prelude.Bits.{bit_and_low}

-- What an allocation of one page does: it takes a page that was free, not page 0, and no other.
pub record TakesPage (p : PhysicalMemory) (r : ℕ × PhysicalMemory) (page : ℕ) : Type 0 where
  pub positive : 0 < page
  pub managed : page < managed_page_count
  pub address : r.0 ≡ page * page_size
  pub was_free : is_page_free p page ≡ true
  pub valid : IsValid r.1
  pub taken : (q : ℕ) → is_page_free r.1 q ≡ (if q == page then false else is_page_free p q)

Allocates-TakesPage :
    (p : PhysicalMemory) (r : ℕ × PhysicalMemory) (page : ℕ)
    → is_page_free p 0 ≡ false
    → Allocates 1 1 p r page
    → TakesPage p r page
Allocates-TakesPage p r page reserved a =
    let was_free : is_page_free p page ≡ true = a.fits.clear page (omega arith) (omega arith) in
    record {
      positive = elim (Bool-cases (page == 0)) [
        | inl zeroth ↦
            absurd (let at : page ≡ 0 = (==_iff page 0).0 zeroth in cc (was_free, reserved, at))
        | inr other ↦ ground (arith, other)
      ];
      managed = omega (arith, a.fits.inside);
      address = a.address;
      was_free = was_free;
      valid = a.valid;
      taken = λ q. ground (arith, a.taken q, a.fits.inside);
    }

-- With page 0 reserved, `AllocatePage` fails and changes nothing, or takes one free page.
pub allocate_page_lem :
    (p : PhysicalMemory)
    → IsValid p
    → is_page_free p 0 ≡ false
    → (allocate_page p ≡ (0, p)) ⊎ ((page : ℕ) × TakesPage p (allocate_page p) page)
unfolding allocate_page allocate_contiguous
allocate_page_lem p v reserved = elim (allocate_aligned_sound 1 1 p v) [
  | inl failed ↦ inl failed
  | inr (page, a) ↦ inr (page, Allocates-TakesPage p (allocate_aligned 1 1 p) page reserved a)
]

-- It takes a page whenever one is free.
pub allocate_page_complete :
    (p : PhysicalMemory) (free : ℕ)
    → IsValid p
    → is_page_free p 0 ≡ false
    → free < managed_page_count
    → is_page_free p free ≡ true
    → (page : ℕ) × TakesPage p (allocate_page p) page
unfolding allocate_page allocate_contiguous
allocate_page_complete p free v reserved lt is_free =
    let single : Fits (is_page_free p) 1 1 managed_page_count free = record {
      inside = omega arith;
      aligned = bit_and_low 0 free ∙ omega arith;
      clear = λ q lo hi. let same : q ≡ free = omega arith in ap (is_page_free p) same ∙ is_free;
    } in
    let (page, a, _) =
      allocate_aligned_complete 1 1 free p v (omega arith) (omega arith, refl) single in
    (page, Allocates-TakesPage p (allocate_aligned 1 1 p) page reserved a)

-- `FreePage` of the address of a managed page frees that page, and no other.
pub free_page_lem :
    (page : ℕ) (p : PhysicalMemory)
    → page < managed_page_count
    → IsValid p
    → IsValid (free_page (page * page_size) p)
      × ((q : ℕ)
          → is_page_free (free_page (page * page_size) p) q
            ≡ (if q == page then true else is_page_free p q))
unfolding free_page mark_range
free_page_lem page p small v =
    let whole : page * page_size / page_size ≡ page = omega arith in
    rw whole (
      mark_pages-IsValid page 1 true p v,
      λ q. ground (arith, is_page_free-mark_pages page 1 true p q (omega arith) v),
    )
