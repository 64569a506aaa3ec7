-- ===== src/Memory/SharedMemory.antt =====
-- kernel/src/kernel.cpp, class SharedMemoryManager: segments of up to four pages that several owners
-- attach. A null `m_PhysicalMemory` is `attached = false`.
use uefi_boot_system.Prelude.{
  ℕ, zero, suc, ◌+◌, ◌-◌, ◌%◌, ◌^◌, Bool, true, false, not, ◌&&◌, ◌||◌, List, [], ◌∷◌, Option, none,
  some, if◌then◌else◌, ltb, leb, ◌==◌, get_or, set, replicate,
}
use uefi_boot_system.Prelude.Table.{find_first}
use uefi_boot_system.Memory.Pmm.{allocate_page, free_page}
use uefi_boot_system.Memory.Frames.{Frames, clear_page}

pub record SharedSegment : Type 0 where
  pub id : ℕ
  pub page_count : ℕ
  pub pages : List ℕ
  pub references : ℕ
  pub active : Bool

pub record SharedMemory : Type 0 where
  pub attached : Bool
  pub next_id : ℕ
  pub segments : List SharedSegment

abbrev pub shared_segment_count : ℕ
shared_segment_count = 8

abbrev pub shared_segment_max_pages : ℕ
shared_segment_max_pages = 4

abbrev pub no_segment : SharedSegment
no_segment = record {
  id = 0;
  page_count = 0;
  pages = replicate shared_segment_max_pages 0;
  references = 0;
  active = false;
}

abbrev pub segment_at : SharedMemory → ℕ → SharedSegment
segment_at m i = get_or m.segments i no_segment

abbrev put_segment : ℕ → SharedSegment → SharedMemory → SharedMemory
put_segment i v m = record m { segments = set m.segments i v }

unfoldable pub shared_init : SharedMemory
shared_init = record {
  attached = true;
  next_id = 1;
  segments = replicate shared_segment_count no_segment;
}

unfoldable pub find_segment : ℕ → SharedMemory → Option ℕ
find_segment id m = find_first (λ (v : SharedSegment). v.active && (v.id == id)) m.segments

-- The loop of `DestroyPartial`, with `n` pages left from `page` on: the pages and the memory.
unfoldable pub free_segment_pages : ℕ → ℕ → List ℕ → Frames → List ℕ × Frames
free_segment_pages zero page pages f = (pages, f)
free_segment_pages (suc n) page pages f =
    let freed =
      free_segment_pages n (page + 1) (set pages page 0)
        (record f { pmm = free_page (get_or pages page 0) f.pmm }) in
    let kept = free_segment_pages n (page + 1) pages f in
    if not (get_or pages page 0 == 0) then freed else kept

unfoldable pub destroy_partial : ℕ → SharedMemory → Frames → SharedMemory × Frames
destroy_partial i m f =
    let v = segment_at m i in
    let (pages, g) = free_segment_pages v.page_count 0 v.pages f in
    (
      put_segment i
          (record { id = 0; page_count = 0; pages = pages; references = 0; active = false }) m,
      g,
    )

-- The loop of `Create` on segment `i`, with `n` pages left from `page` on: the answer of `Create`.
unfoldable pub create_pages : ℕ → ℕ → ℕ → SharedMemory → Frames → ℕ × SharedMemory × Frames
create_pages zero page i m f = ((segment_at m i).id, m, f)
create_pages (suc n) page i m f =
    let (physical, pmm) = allocate_page f.pmm in
    let v = segment_at m i in
    let filled = put_segment i (record v { pages = set v.pages page physical }) m in
    let rest =
      create_pages n (page + 1) i filled
        (record { pmm = pmm; bytes = clear_page physical f.bytes }) in
    let (destroyed, g) = destroy_partial i filled (record f { pmm = pmm }) in
    if physical == 0 then (0, destroyed, g) else rest

unfoldable pub shared_create : ℕ → SharedMemory → Frames → ℕ × SharedMemory × Frames
shared_create page_count m f =
    if not m.attached || page_count == 0 || ltb shared_segment_max_pages page_count
    then (0, m, f)
    else elim (find_first (λ (v : SharedSegment). not v.active) m.segments) [
      | none ↦ (0, m, f)
      | some i ↦
          create_pages page_count 0 i
            (put_segment i
              (record (segment_at m i) {
                id = m.next_id;
                page_count = page_count;
                references = 1;
                active = true;
              })
              (record m { next_id = (m.next_id + 1) % 2 ^ 64 }))
            f
    ]

unfoldable pub shared_attach : ℕ → SharedMemory → Bool × SharedMemory
shared_attach id m = elim (find_segment id m) [
  | none ↦ (false, m)
  | some i ↦
      let v = segment_at m i in
      if v.references == 0xFFFF
      then (false, m)
      else (true, put_segment i (record v { references = v.references + 1 }) m)
]

unfoldable pub shared_release : ℕ → SharedMemory → Frames → SharedMemory × Frames
shared_release id m f = elim (find_segment id m) [
  | none ↦ (m, f)
  | some i ↦
      let v = segment_at m i in
      let fewer = put_segment i (record v { references = v.references - 1 }) m in
      if v.references == 0
      then (m, f)
      else if v.references - 1 == 0
      then destroy_partial i fewer f
      else (fewer, f)
]

unfoldable pub shared_page : ℕ → ℕ → SharedMemory → ℕ
shared_page id index m = elim (find_segment id m) [
  | none ↦ 0
  | some i ↦
      if leb (segment_at m i).page_count index then 0 else get_or (segment_at m i).pages index 0
]

unfoldable pub shared_reference_count : ℕ → SharedMemory → ℕ
shared_reference_count id m = elim (find_segment id m) [
  | none ↦ 0
  | some i ↦ (segment_at m i).references
]

active_segment_count : List SharedSegment → ℕ
active_segment_count [] = 0
active_segment_count (v ∷ vs) = (if v.active then 1 else 0) + active_segment_count vs

unfoldable pub active_segments : SharedMemory → ℕ
unfolding active_segment_count
active_segments m = active_segment_count m.segments
