-- ===== src/Memory/Frames.antt =====
-- kernel/src/kernel.cpp: what the clients of PhysicalMemoryManager share, the page manager with the
-- bytes of memory, and the loops `ClearPage` and `CopyPage`.
pub mod Owned
use uefi_boot_system.Prelude.{
  ℕ, zero, suc, ◌+◌, ◌-◌, ◌*◌, ◌/◌, ◌≤◌, ◌<◌, ◌≡◌, ◌≢◌, ◌⊎◌, inl, inr, refl, ap, sym, ◌∙◌, Bool,
  true, false, ◌&&◌, if◌then◌else◌, ltb, leb, ◌==◌, arith, Bool-cases, ==_iff,
}
use uefi_boot_system.Memory.Pmm.{
  PhysicalMemory, managed_page_count, page_size, is_page_free, allocate_page, allocate_contiguous,
  allocate_aligned, free_page, mark_range, mark_pages,
}
use uefi_boot_system.Memory.Pmm.Bitmap.{IsValid}
use uefi_boot_system.Memory.Pmm.Marking.{mark_pages-IsValid, is_page_free-mark_pages}
use uefi_boot_system.Memory.Pmm.Allocate.{Allocates, allocate_aligned_sound}

-- A byte for each address.
abbrev pub Bytes : Type 0
Bytes = ℕ → ℕ

pub record Frames : Type 0 where
  pub pmm : PhysicalMemory
  pub bytes : Bytes

abbrev pub write : Bytes → ℕ → ℕ → Bytes
write m address v a = if a == address then v else m a

-- The loop of `ClearPage` from byte `i` on, with `n` rounds left.
pub clear_bytes : ℕ → ℕ → ℕ → Bytes → Bytes
clear_bytes zero i page m = m
clear_bytes (suc n) i page m = clear_bytes n (i + 1) page (write m (page + i) 0)

unfoldable pub clear_page : ℕ → Bytes → Bytes
clear_page physical m = clear_bytes page_size 0 physical m

-- The loop of `CopyPage` from byte `i` on, with `n` rounds left.
pub copy_bytes : ℕ → ℕ → ℕ → ℕ → Bytes → Bytes
copy_bytes zero i destination source m = m
copy_bytes (suc n) i destination source m =
    copy_bytes n (i + 1) destination source (write m (destination + i) (m (source + i)))

unfoldable pub copy_page : ℕ → ℕ → Bytes → Bytes
copy_page destination source m = copy_bytes page_size 0 destination source m

-- Whether an address lies in a page.
abbrev pub in_page : ℕ → ℕ → Bool
in_page page a = leb page a && ltb a (page + page_size)

clear_bytes_lem :
    (n i page : ℕ) (m : Bytes) (a : ℕ)
    → clear_bytes n i page m a ≡ (if leb (page + i) a && ltb a (page + i + n) then 0 else m a)
unfolding clear_bytes
clear_bytes_lem zero i page m a = ground arith
clear_bytes_lem (suc n) i page m a =
    ground (arith, clear_bytes_lem n (i + 1) page (write m (page + i) 0) a)

-- `ClearPage` writes zeros to the page, and nothing elsewhere.
pub clear_page_lem :
    (page : ℕ) (m : Bytes) (a : ℕ) → clear_page page m a ≡ (if in_page page a then 0 else m a)
unfolding clear_page
clear_page_lem page m a = ground (arith, clear_bytes_lem page_size 0 page m a)

-- Two pages that do not overlap.
abbrev pub Apart : ℕ → ℕ → Type 0
Apart d s = (d + page_size ≤ s) ⊎ (s + page_size ≤ d)

copy_bytes_lem :
    (n i d s : ℕ) (m : Bytes) (a : ℕ)
    → Apart d s
    → i + n ≡ page_size
    → copy_bytes n i d s m a ≡ (if leb (d + i) a && ltb a (d + i + n) then m (s + (a - d)) else m a)
unfolding copy_bytes
copy_bytes_lem zero i d s m a apart e = ground arith
copy_bytes_lem (suc n) i d s m a apart e =
    copy_bytes_lem n (i + 1) d s (write m (d + i) (m (s + i))) a apart (omega arith)
    ∙ elim (Bool-cases (a == d + i)) [
      | inl here ↦
          let at : a ≡ d + i = (==_iff a (d + i)).0 here in
          let offset : s + (a - d) ≡ s + i = omega (arith, at) in ground (arith, at, ap m offset)
      | inr other ↦ elim (Bool-cases (leb (d + (i + 1)) a && ltb a (d + (i + 1) + n))) [
        | inl inside ↦
            let untouched : (s + (a - d) == d + i) ≡ false = ground (arith, apart, inside) in
            ground (arith, inside, untouched)
        | inr outside ↦ ground (arith, outside, other)
      ]
    ]

-- `CopyPage` between pages that do not overlap copies the page, and changes nothing elsewhere.
pub copy_page_lem :
    (d s : ℕ) (m : Bytes) (a : ℕ)
    → Apart d s
    → copy_page d s m a ≡ (if in_page d a then m (s + (a - d)) else m a)
unfolding copy_page
copy_page_lem d s m a apart = ground (arith, copy_bytes_lem page_size 0 d s m a apart refl)

pub copy_page_same :
    (d s offset : ℕ) (m : Bytes)
    → Apart d s
    → offset < page_size
    → copy_page d s m (d + offset) ≡ m (s + offset)
copy_page_same d s offset m apart small =
    let shift : s + (d + offset - d) ≡ s + offset = omega arith in
    let inside : in_page d (d + offset) ≡ true = ground arith in
    copy_page_lem d s m (d + offset) apart ∙ rw inside (ap m shift)
