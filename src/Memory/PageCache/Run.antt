-- ===== src/Memory/PageCache/Run.antt =====
-- PageCache: sequences of calls.
use uefi_boot_system.Prelude.{ℕ, ◌≡◌, false, List, [], ◌∷◌}
use uefi_boot_system.Memory.Pmm.{is_page_free}
use uefi_boot_system.Memory.Pmm.Bitmap.{IsValid}
use uefi_boot_system.Memory.Frames.{Frames}
use uefi_boot_system.Memory.PageCache.{PageCache, cache_init, acquire, mark_dirty, release, evict}
use uefi_boot_system.Memory.PageCache.Keys.{
  IsCache, acquire-IsCache, mark_dirty-IsCache, release-IsCache, evict-IsCache, cache_init-IsCache,
}

-- A call of one of the operations of the cache, with any arguments.
pub data CacheCall : Type 0 where
  acquire_call evict_call : ℕ → ℕ → CacheCall
  dirty_call release_call : ℕ → CacheCall

pub cache_call : CacheCall → PageCache → Frames → PageCache × Frames
cache_call (acquire_call file_id page_offset) c f =
    let r = acquire file_id page_offset c f in (r.1, r.2)
cache_call (evict_call file_id page_offset) c f =
    let r = evict file_id page_offset c f in (r.1, r.2)
cache_call (dirty_call physical) c f = (mark_dirty physical c, f)
cache_call (release_call physical) c f = ((release physical c).1, f)

pub run_cache : List CacheCall → PageCache → Frames → PageCache × Frames
run_cache [] c f = (c, f)
run_cache (k ∷ ks) c f = run_cache ks (cache_call k c f).0 (cache_call k c f).1

cache_call-IsCache :
    (k : CacheCall) (c : PageCache) (f : Frames)
    → IsCache c f
    → IsCache (cache_call k c f).0 (cache_call k c f).1
unfolding cache_call
cache_call-IsCache (acquire_call file_id page_offset) c f w =
    acquire-IsCache file_id page_offset c f w
cache_call-IsCache (evict_call file_id page_offset) c f w = evict-IsCache file_id page_offset c f w
cache_call-IsCache (dirty_call physical) c f w = mark_dirty-IsCache physical c f w
cache_call-IsCache (release_call physical) c f w = release-IsCache physical c f w

run_cache-keeps :
    (ks : List CacheCall) (c : PageCache) (f : Frames)
    → IsCache c f
    → IsCache (run_cache ks c f).0 (run_cache ks c f).1
unfolding run_cache
run_cache-keeps [] c f w = w
run_cache-keeps (k ∷ ks) c f w =
    run_cache-keeps ks (cache_call k c f).0 (cache_call k c f).1 (cache_call-IsCache k c f w)

-- After any calls of Acquire, MarkDirty, Release and Evict on the cache that `Init` leaves, every
-- entry in use owns a page that the page manager holds used, no two entries the same page, and no
-- two entries in use stand for the same page of a file, where the page manager is valid and keeps
-- page 0 at the start.
pub run_cache-IsCache :
    (ks : List CacheCall) (f : Frames)
    → IsValid f.pmm
    → is_page_free f.pmm 0 ≡ false
    → IsCache (run_cache ks cache_init f).0 (run_cache ks cache_init f).1
run_cache-IsCache ks f valid reserved =
    run_cache-keeps ks cache_init f (cache_init-IsCache f valid reserved)
