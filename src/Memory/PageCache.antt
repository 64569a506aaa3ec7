-- ===== src/Memory/PageCache.antt =====
-- kernel/src/kernel.cpp, class PageCache: one page of memory for each page of a file in use. A null
-- `m_PhysicalMemory` is `attached = false`.
pub mod Keys
pub mod Run
mod Tests
use uefi_boot_system.Prelude.{
  ℕ, ◌+◌, ◌-◌, ◌%◌, ◌^◌, Bool, true, false, not, ◌&&◌, List, Option, none, some, if◌then◌else◌,
  ◌==◌, get_or, set, replicate, map,
}
use uefi_boot_system.Prelude.Table.{find_first}
use uefi_boot_system.Memory.Pmm.{PhysicalMemory, allocate_page, free_page}
use uefi_boot_system.Memory.Frames.{Frames, clear_page}

pub record CacheEntry : Type 0 where
  pub file_id : ℕ
  pub page_offset : ℕ
  pub physical : ℕ
  pub references : ℕ
  pub dirty : Bool
  pub active : Bool

pub record PageCache : Type 0 where
  pub attached : Bool
  pub entries : List CacheEntry

abbrev pub page_cache_entry_count : ℕ
page_cache_entry_count = 16

abbrev pub blank_entry : CacheEntry
blank_entry = record {
  file_id = 0;
  page_offset = 0;
  physical = 0;
  references = 0;
  dirty = false;
  active = false;
}

abbrev pub is_cached : CacheEntry → Bool
is_cached entry = entry.active

abbrev pub frame_of : CacheEntry → ℕ
frame_of entry = entry.physical

abbrev pub entry_at : PageCache → ℕ → CacheEntry
entry_at c i = get_or c.entries i blank_entry

pub cache_init : PageCache
cache_init = record { attached = true; entries = replicate page_cache_entry_count blank_entry }

abbrev pub caches : ℕ → ℕ → CacheEntry → Bool
caches file_id page_offset entry =
    entry.active && (entry.file_id == file_id) && (entry.page_offset == page_offset)

abbrev pub referenced : CacheEntry → CacheEntry
referenced entry = record entry { references = (entry.references + 1) % 2 ^ 16 }

abbrev pub new_entry : ℕ → ℕ → ℕ → CacheEntry
new_entry file_id page_offset physical = record {
  file_id = file_id;
  page_offset = page_offset;
  physical = physical;
  references = 1;
  dirty = false;
  active = true;
}

-- The round of the second loop of `Acquire` that meets the first free entry.
pub cache_new : ℕ → ℕ → ℕ → PageCache → Frames → ℕ × PageCache × Frames
cache_new i file_id page_offset c f =
    let (physical, pmm) = if c.attached then allocate_page f.pmm else (0, f.pmm) in
    if physical == 0 then (0, c, record f { pmm = pmm }) else (
      physical,
      record c { entries = set c.entries i (new_entry file_id page_offset physical) },
      record { pmm = pmm; bytes = clear_page physical f.bytes },
    )

pub acquire : ℕ → ℕ → PageCache → Frames → ℕ × PageCache × Frames
acquire file_id page_offset c f = elim (find_first (caches file_id page_offset) c.entries) [
  | some i ↦ (
    (entry_at c i).physical,
    record c { entries = set c.entries i (referenced (entry_at c i)) },
    f,
  )
  | none ↦ elim (find_first (λ entry. not (is_cached entry)) c.entries) [
    | none ↦ (0, c, f)
    | some i ↦ cache_new i file_id page_offset c f
  ]
]

dirtied : ℕ → CacheEntry → CacheEntry
dirtied physical entry =
    if entry.active && (entry.physical == physical) then record entry { dirty = true } else entry

pub mark_dirty : ℕ → PageCache → PageCache
unfolding dirtied
mark_dirty physical c = record c { entries = map (dirtied physical) c.entries }

pub release : ℕ → PageCache → Bool × PageCache
release physical c =
    let held = λ (entry : CacheEntry).
      entry.active && (entry.physical == physical) && not (entry.references == 0) in
    elim (find_first held c.entries) [
      | none ↦ (false, c)
      | some i ↦ (
        true,
        record c {
          entries =
              set c.entries i
                (record (entry_at c i) { references = (entry_at c i).references - 1 });
        },
      )
    ]

pub evict : ℕ → ℕ → PageCache → Frames → Bool × PageCache × Frames
evict file_id page_offset c f =
    let idle =
      λ (entry : CacheEntry). caches file_id page_offset entry && (entry.references == 0) in
    elim (find_first idle c.entries) [
      | none ↦ (false, c, f)
      | some i ↦ (
        true,
        record c { entries = set c.entries i blank_entry },
        record f { pmm = free_page (entry_at c i).physical f.pmm },
      )
    ]
