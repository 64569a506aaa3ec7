-- ===== src/Memory/Pmm/Marking.antt =====
-- `MarkPages` and `MarkRange` of PhysicalMemoryManager: which pages they change.
use uefi_boot_system.Prelude.{
  ℕ, zero, suc, ◌+◌, ◌%◌, ◌^◌, ◌≤◌, ◌<◌, ◌≡◌, Bool, ◌&&◌, if◌then◌else◌, ltb, leb, arith, inl, inr,
  Bool-cases,
}
use uefi_boot_system.Memory.Pmm.{
  PhysicalMemory, managed_page_count, is_page_free, set_page, mark_loop, mark_pages,
}
use uefi_boot_system.Memory.Pmm.Bitmap.{IsValid, is_page_free-set_page, set_page-IsValid}

-- Whether a page lies in `[start, end)`, within the managed range.
abbrev pub within : ℕ → ℕ → ℕ → Bool
within start end q = leb start q && ltb q end && ltb q managed_page_count

mark_loop-IsValid :
    (fuel : ℕ) (free : Bool) (page end : ℕ) (p : PhysicalMemory)
    → IsValid p
    → IsValid (mark_loop fuel free page end p)
unfolding mark_loop
mark_loop-IsValid zero free page end p v = v
mark_loop-IsValid (suc fuel) free page end p v =
    elim (Bool-cases (ltb page end && ltb page managed_page_count)) [
      | inl e ↦
          rw (e, mark_loop)
            (mark_loop-IsValid fuel free (page + 1) end (set_page free page p)
              (set_page-IsValid free page p (ground arith) v))
      | inr e ↦ rw (e, mark_loop) v
    ]

is_page_free-mark_loop :
    (fuel : ℕ) (free : Bool) (page end : ℕ) (p : PhysicalMemory) (q : ℕ)
    → managed_page_count ≤ page + fuel
    → IsValid p
    → is_page_free (mark_loop fuel free page end p) q
      ≡ (if within page end q then free else is_page_free p q)
unfolding mark_loop
is_page_free-mark_loop zero free page end p q enough v = ground arith
is_page_free-mark_loop (suc fuel) free page end p q enough v =
    elim (Bool-cases (ltb page end && ltb page managed_page_count)) [
      | inl e ↦
          rw (e, mark_loop)
            (ground (
              arith,
              is_page_free-mark_loop fuel free (page + 1) end (set_page free page p) q (omega arith)
                  (set_page-IsValid free page p (ground arith) v),
              is_page_free-set_page free page p q (ground (arith, v.sized)),
            ))
      | inr e ↦ rw (e, mark_loop) (ground arith)
    ]

pub mark_pages-IsValid :
    (start count : ℕ) (free : Bool) (p : PhysicalMemory)
    → IsValid p
    → IsValid (mark_pages start count free p)
unfolding mark_pages
mark_pages-IsValid start count free p v =
    mark_loop-IsValid managed_page_count free start ((start + count) % 2 ^ 64) p v

-- `MarkPages` sets exactly the managed pages of its range, where the end does not wrap.
pub is_page_free-mark_pages :
    (start count : ℕ) (free : Bool) (p : PhysicalMemory) (q : ℕ)
    → start + count < 2 ^ 64
    → IsValid p
    → is_page_free (mark_pages start count free p) q
      ≡ (if within start (start + count) q then free else is_page_free p q)
unfolding mark_pages
is_page_free-mark_pages start count free p q small v =
    let plain : (start + count) % 2 ^ 64 ≡ start + count = omega arith in
    rw plain
      (is_page_free-mark_loop managed_page_count free start (start + count) p q (omega arith) v)
