-- ===== src/Memory/CopyOnWrite.antt =====
-- kernel/src/kernel.cpp, class CopyOnWriteManager: pages that several owners share until one of them
-- writes. A null `m_PhysicalMemory` is `attached = false`.
pub mod Tracked
pub mod Resolve
pub mod Run
mod Tests
use uefi_boot_system.Prelude.{
  ℕ, zero, suc, ◌+◌, ◌-◌, ◌≡◌, Bool, true, false, not, ◌&&◌, ◌||◌, List, [], ◌∷◌, Option, none,
  some, if◌then◌else◌, leb, ◌==◌, get_or, set, replicate,
}
use uefi_boot_system.Prelude.Table.{find_first}
use uefi_boot_system.Memory.Pmm.{PhysicalMemory, allocate_page, free_page}
use uefi_boot_system.Memory.Frames.{Frames, clear_page, copy_page}

pub record CowPage : Type 0 where
  pub physical : ℕ
  pub references : ℕ
  pub active : Bool

pub record CopyOnWrite : Type 0 where
  pub attached : Bool
  pub pages : List CowPage

abbrev pub cow_tracked_pages : ℕ
cow_tracked_pages = 128

abbrev pub uint16_max : ℕ
uint16_max = 0xFFFF

abbrev pub blank_page : CowPage
blank_page = record { physical = 0; references = 0; active = false }

abbrev pub is_active : CowPage → Bool
is_active page = page.active

abbrev pub physical_of : CowPage → ℕ
physical_of page = page.physical

abbrev pub page_at : CopyOnWrite → ℕ → CowPage
page_at m i = get_or m.pages i blank_page

-- `Init` of any earlier manager.
pub cow_init : CopyOnWrite
cow_init = record { attached = true; pages = replicate cow_tracked_pages blank_page }

pub find_free_slot : CopyOnWrite → Option ℕ
find_free_slot m = find_first (λ page. not (is_active page)) m.pages

abbrev pub tracks : ℕ → CowPage → Bool
tracks physical page = page.active && (page.physical == physical)

pub find_page : ℕ → CopyOnWrite → Option ℕ
find_page physical m = find_first (tracks physical) m.pages

abbrev pub new_page : ℕ → CowPage
new_page physical = record { physical = physical; references = 1; active = true }

-- The part of `AllocatePage` with a free slot.
pub track_new : ℕ → CopyOnWrite → Frames → ℕ × CopyOnWrite × Frames
track_new i m f =
    let (physical, pmm) = allocate_page f.pmm in
    if physical == 0 then (0, m, record f { pmm = pmm }) else (
      physical,
      record m { pages = set m.pages i (new_page physical) },
      record { pmm = pmm; bytes = clear_page physical f.bytes },
    )

-- The address, 0 for a failure, the manager and the memory afterwards.
pub cow_allocate_page : CopyOnWrite → Frames → ℕ × CopyOnWrite × Frames
cow_allocate_page m f = elim (find_free_slot m) [
  | none ↦ (0, m, f)
  | some i ↦ if not m.attached then (0, m, f) else track_new i m f
]

pub clone_page : ℕ → CopyOnWrite → Bool × CopyOnWrite
clone_page physical m = elim (find_page physical m) [
  | none ↦ (false, m)
  | some i ↦
      let page = page_at m i in
      if page.references == uint16_max then (false, m) else (
        true,
        record m { pages = set m.pages i (record page { references = page.references + 1 }) },
      )
]

-- The part of `ResolveWrite` that gives the writer a page of its own: `i` is the slot of the shared
-- page, `k` a free one.
pub copy_out : ℕ → ℕ → ℕ → CopyOnWrite → Frames → ℕ × CopyOnWrite × Frames
copy_out physical i k m f =
    let (fresh, pmm) = allocate_page f.pmm in
    let page = page_at m i in
    if fresh == 0 then (0, m, record f { pmm = pmm }) else (
      fresh,
      record m {
        pages =
            set (set m.pages i (record page { references = page.references - 1 })) k
              (new_page fresh);
      },
      record { pmm = pmm; bytes = copy_page fresh physical f.bytes },
    )

pub resolve_write : ℕ → CopyOnWrite → Frames → ℕ × CopyOnWrite × Frames
resolve_write physical m f = elim (find_page physical m) [
  | none ↦ (0, m, f)
  | some i ↦ if leb (page_at m i).references 1 then (physical, m, f) else elim (find_free_slot m) [
    | none ↦ (0, m, f)
    | some k ↦ if not m.attached then (0, m, f) else copy_out physical i k m f
  ]
]

-- The last owner gives the page back. Its slot keeps a reference count of 0.
pub drop_reference : ℕ → CopyOnWrite → Frames → CopyOnWrite × Frames
drop_reference i m f =
    let page = page_at m i in
    if page.references - 1 == 0
    then (
      record m { pages = set m.pages i blank_page },
      record f { pmm = free_page page.physical f.pmm },
    )
    else (record m { pages = set m.pages i (record page { references = page.references - 1 }) }, f)

pub release_page : ℕ → CopyOnWrite → Frames → CopyOnWrite × Frames
release_page physical m f = elim (find_page physical m) [
  | none ↦ (m, f)
  | some i ↦ if (page_at m i).references == 0 then (m, f) else drop_reference i m f
]

pub reference_count : ℕ → CopyOnWrite → ℕ
reference_count physical m = elim (find_page physical m) [
  | none ↦ 0
  | some i ↦ (page_at m i).references
]

active_count : List CowPage → ℕ
active_count [] = 0
active_count (page ∷ pages) = (if page.active then 1 else 0) + active_count pages

pub active_pages : CopyOnWrite → ℕ
unfolding active_count
active_pages m = active_count m.pages
