-- ===== src/Memory/Pmm/Allocate.antt =====
-- `AllocateAligned`, `FreePage` and `FreeContiguous` of PhysicalMemoryManager, as a whole.
use uefi_boot_system.Prelude.{
  ℕ, ◌+◌, ◌-◌, ◌*◌, ◌/◌, ◌≤◌, ◌<◌, ◌≡◌, ◌≢◌, refl, sym, ◌∙◌, true, false, not, ◌&&◌, ◌||◌,
  if◌then◌else◌, ltb, ◌==◌, arith, inl, inr, ◌⊎◌, Bool-cases, Option-cases, bit_and,
}
use uefi_boot_system.Prelude.Bits.{bit_and_low}
use uefi_boot_system.Memory.Pmm.{
  PhysicalMemory, managed_page_count, page_size, is_page_free, mark_pages, mark_range, find_run,
  allocate_aligned, free_contiguous,
}
use uefi_boot_system.Memory.Pmm.Counting.{count_free_run, count_free_taken, count_free_ext}
use uefi_boot_system.Memory.Pmm.Bitmap.{IsValid}
use uefi_boot_system.Memory.Pmm.Marking.{within, mark_pages-IsValid, is_page_free-mark_pages}
use uefi_boot_system.Memory.Pmm.Search.{Fits, find_run_sound, find_run_complete}

-- `alignment_pages` passes the guard: a power of two, as the code tests it.
abbrev pub IsPowerOfTwo : ℕ → Type 0
IsPowerOfTwo alignment = (alignment ≢ 0) × (bit_and alignment (alignment - 1) ≡ 0)

-- What a successful allocation of `count` pages at page `start` does.
pub record Allocates (count alignment : ℕ) (p : PhysicalMemory) (r : ℕ × PhysicalMemory) (start : ℕ)
    : Type 0 where
  pub nonempty : 0 < count
  pub fits : Fits (is_page_free p) count alignment managed_page_count start
  pub address : r.0 ≡ start * page_size
  pub valid : IsValid r.1
  pub taken :
      (q : ℕ)
      → is_page_free r.1 q ≡ (if within start (start + count) q then false else is_page_free p q)
  pub counted : r.1.free_pages + count ≡ p.free_pages

taken_run :
    (count alignment start : ℕ) (p : PhysicalMemory)
    → 0 < count
    → IsValid p
    → Fits (is_page_free p) count alignment managed_page_count start
    → Allocates count alignment p (start * page_size, mark_pages start count false p) start
taken_run count alignment start p positive v fits = record {
  nonempty = positive;
  fits = fits;
  address = refl;
  valid = valid;
  taken = taken;
  counted = omega (
    arith,
    v.counted,
    valid.counted,
    count_free_taken (is_page_free p) (is_page_free (mark_pages start count false p)) start count
        managed_page_count fits.inside fits.clear (λ q lt. ground (arith, taken q)),
  );
}
  where
    valid : IsValid (mark_pages start count false p)
    valid = mark_pages-IsValid start count false p v

    taken :
        (q : ℕ)
        → is_page_free (mark_pages start count false p) q
          ≡ (if within start (start + count) q then false else is_page_free p q)
    taken q = is_page_free-mark_pages start count false p q (omega (arith, fits.inside)) v

-- `AllocateAligned` either returns 0 and changes nothing, or takes an aligned run of pages that
-- were free, and no other page.
pub allocate_aligned_sound :
    (count alignment : ℕ) (p : PhysicalMemory)
    → IsValid p
    → (allocate_aligned count alignment p ≡ (0, p))
      ⊎ ((start : ℕ) × Allocates count alignment p (allocate_aligned count alignment p) start)
unfolding allocate_aligned
allocate_aligned_sound count alignment p v =
    elim (Bool-cases (count == 0 || ltb p.free_pages count)) [
      | inl e ↦ inl (rw e)
      | inr e ↦ elim (Bool-cases (alignment == 0 || not (bit_and alignment (alignment - 1) == 0))) [
        | inl a ↦ inl (rw (e, a))
        | inr a ↦
            elim (Option-cases
              (find_run (is_page_free p) count alignment managed_page_count 0 0 0)) [
                | inl n ↦ inl (rw (e, a, n, allocate_aligned))
                | inr (start, f) ↦ inr (
                  start,
                  rw (e, a, f, allocate_aligned)
                      (taken_run count alignment start p (ground arith) v (
                        find_run_sound (is_page_free p) count alignment managed_page_count start
                          f)),
                )
              ]
      ]
    ]

-- Whenever an aligned run of free pages exists, `AllocateAligned` takes one that starts no later.
pub allocate_aligned_complete :
    (count alignment start : ℕ) (p : PhysicalMemory)
    → IsValid p
    → 0 < count
    → IsPowerOfTwo alignment
    → Fits (is_page_free p) count alignment managed_page_count start
    → (first : ℕ) × Allocates count alignment p (allocate_aligned count alignment p) first
      × (first ≤ start)
unfolding allocate_aligned
allocate_aligned_complete count alignment start p v positive power fits =
    let found =
      find_run_complete (is_page_free p) count alignment managed_page_count start positive fits in
    let room : count ≤ p.free_pages = omega (
      arith,
      v.counted,
      count_free_run (is_page_free p) start count managed_page_count fits.inside fits.clear,
    ) in
    let guard : (count == 0 || ltb p.free_pages count) ≡ false = ground arith in
    let guard_alignment : (alignment == 0 || not (bit_and alignment (alignment - 1) == 0)) ≡ false =
      ground (arith, power.0, power.1) in
    (
      found.0,
      rw (guard, guard_alignment, found.1, allocate_aligned)
          (taken_run count alignment found.0 p positive v
            (find_run_sound (is_page_free p) count alignment managed_page_count found.0 found.1)),
      found.2,
    )

free_contiguous_run :
    (start count : ℕ) (p : PhysicalMemory)
    → 0 < count
    → free_contiguous (start * page_size) count p ≡ mark_pages start count true p
unfolding free_contiguous mark_range
free_contiguous_run start count p positive =
    let page : start * page_size / page_size ≡ start = omega arith in
    let aligned : bit_and (start * page_size) (page_size - 1) ≡ 0 =
      bit_and_low 12 (start * page_size) ∙ omega arith in
    let guard : (bit_and (start * page_size) (page_size - 1) == 0 && not (count == 0)) ≡ true =
      ground (arith, aligned) in
    rw (guard, page)

-- Freeing an allocated run gives back the free set and the count from before.
pub free_contiguous-allocate_aligned :
    (count alignment start : ℕ) (p : PhysicalMemory)
    → IsValid p
    → Allocates count alignment p (allocate_aligned count alignment p) start
    → let r = allocate_aligned count alignment p in
      let q = free_contiguous r.0 count r.1 in
      IsValid q
      × ((page : ℕ) → page < managed_page_count → is_page_free q page ≡ is_page_free p page)
      × (q.free_pages ≡ p.free_pages)
free_contiguous-allocate_aligned count alignment start p v a =
    rw (a.address, free_contiguous_run start count r positive) (valid, restored, counted)
  where
    positive : 0 < count
    positive = a.nonempty

    r : PhysicalMemory
    r = (allocate_aligned count alignment p).1

    valid : IsValid (mark_pages start count true r)
    valid = mark_pages-IsValid start count true r a.valid

    restored :
        (page : ℕ)
        → page < managed_page_count
        → is_page_free (mark_pages start count true r) page ≡ is_page_free p page
    restored page lt = elim (Bool-cases (within start (start + count) page)) [
      | inl e ↦
          is_page_free-mark_pages start count true r page (omega (arith, a.fits.inside)) a.valid
          ∙ rw e (sym (a.fits.clear page (ground arith) (ground arith)))
      | inr e ↦
          is_page_free-mark_pages start count true r page (omega (arith, a.fits.inside)) a.valid
          ∙ rw e (a.taken page ∙ rw e)
    ]

    counted : (mark_pages start count true r).free_pages ≡ p.free_pages
    counted = valid.counted ∙ count_free_ext _ _ managed_page_count restored ∙ sym v.counted
