-- ===== src/Memory/PageCache/Keys.antt =====
-- PageCache: every entry owns its page, and no page of a file has two entries.
use uefi_boot_system.Prelude.{
  ℕ, ◌<◌, ◌≡◌, ◌≢◌, ◌⊎◌, inl, inr, refl, ap, sym, ◌∙◌, subst, Bool, true, false, not, ◌&&◌, none,
  if◌then◌else◌, ◌==◌, arith, length, length-set, set, get_or, get_or-set_self, get_or-set_ne,
  get_or-replicate, length-replicate, map, length-map, get_or-map_same, ℕ_discrete, Bool-cases, ltb,
  get_or_beyond,
}
use uefi_boot_system.Prelude.Table.{find_first, find_first-lt, find_first-test, find_first-none}
use uefi_boot_system.Prelude.Cases.{by_option}
use uefi_boot_system.Memory.Pmm.{PhysicalMemory, allocate_page, is_page_free}
use uefi_boot_system.Memory.Pmm.Bitmap.{IsValid}
use uefi_boot_system.Memory.Pmm.Page.{TakesPage, allocate_page_lem}
use uefi_boot_system.Memory.Frames.{Frames}
use uefi_boot_system.Memory.Frames.Owned.{
  IsOwned, IsOwned-take, IsOwned-update, IsOwned-drop, IsOwned-replicate, IsOwned-map,
}
use uefi_boot_system.Memory.PageCache.{
  CacheEntry, PageCache, page_cache_entry_count, blank_entry, is_cached, frame_of, entry_at,
  cache_init, caches, new_entry, cache_new, acquire, dirtied, mark_dirty, release, evict,
}

-- Two entries in use for the same page of a file.
abbrev Clash : CacheEntry → CacheEntry → Type 0
Clash a b =
    (a.active ≡ true)
    × (b.active ≡ true)
    × (a.file_id ≡ b.file_id)
    × (a.page_offset ≡ b.page_offset)

pub record IsCache (c : PageCache) (f : Frames) : Type 0 where
  pub owned : IsOwned is_cached frame_of blank_entry c.entries f.pmm
  pub sized : length c.entries ≡ page_cache_entry_count
  pub distinct : (i j : ℕ) → Clash (entry_at c i) (entry_at c j) → i ≡ j

-- A write keeps the keys distinct, where no other entry has the new key.
distinct-set :
    (c : PageCache) (i : ℕ) (v : CacheEntry)
    → ((j k : ℕ) → Clash (entry_at c j) (entry_at c k) → j ≡ k)
    → ((j : ℕ) → i ≢ j → ¬ Clash v (entry_at c j))
    → i < length c.entries
    → (j k : ℕ)
    → Clash (get_or (set c.entries i v) j blank_entry) (get_or (set c.entries i v) k blank_entry)
    → j ≡ k
distinct-set c i v old alone lt j k h = elim (ℕ_discrete i j) [
  | yes e ↦ elim (ℕ_discrete i k) [
    | yes e' ↦ sym e ∙ e'
    | no ne ↦ absurd (
        alone k ne (
          subst (λ t. Clash t (entry_at c k)) here
            (subst (λ t. Clash (get_or (set c.entries i v) t blank_entry) (entry_at c k)) (sym e)
              (subst (λ t. Clash (get_or (set c.entries i v) j blank_entry) t) (there k ne) h))))
  ]
  | no ne ↦ elim (ℕ_discrete i k) [
    | yes e ↦
        let (on, on', same, same') =
          subst (λ t. Clash (entry_at c j) t) here
            (subst (λ t. Clash (entry_at c j) (get_or (set c.entries i v) t blank_entry)) (sym e)
              (subst (λ t. Clash t (get_or (set c.entries i v) k blank_entry)) (there j ne) h)) in
        absurd (alone j ne (on', on, sym same, sym same'))
    | no ne' ↦ old j k (
        subst (λ t. Clash t (entry_at c k)) (there j ne)
          (subst (λ t. Clash (get_or (set c.entries i v) j blank_entry) t) (there k ne') h))
  ]
]
  where
    here : get_or (set c.entries i v) i blank_entry ≡ v
    here = get_or-set_self c.entries i v blank_entry lt

    there : (j : ℕ) → i ≢ j → get_or (set c.entries i v) j blank_entry ≡ entry_at c j
    there j ne = get_or-set_ne c.entries i j v blank_entry ne

-- A write that keeps an entry's key, its page and its use.
update-IsCache :
    (c : PageCache) (f : Frames) (i : ℕ) (v : CacheEntry)
    → IsCache c f
    → i < length c.entries
    → (entry_at c i).active ≡ true
    → (v.active ≡ true)
      × (v.file_id ≡ (entry_at c i).file_id)
      × (v.page_offset ≡ (entry_at c i).page_offset)
      × (v.physical ≡ (entry_at c i).physical)
    → IsCache (record c { entries = set c.entries i v }) f
update-IsCache c f i v w lt on (on', file, offset, page) = record {
  owned = IsOwned-update is_cached frame_of blank_entry c.entries f.pmm i v w.owned on page lt;
  sized = length-set c.entries i v ∙ w.sized;
  distinct =
      distinct-set c i v w.distinct
        (λ j ne (_, on'', same, same').
          ne (w.distinct i j (on, on'', sym file ∙ same, sym offset ∙ same')))
        lt;
}

-- What the page manager answers, if there is one.
frame_lem :
    (attached : Bool) (p : PhysicalMemory)
    → IsValid p
    → is_page_free p 0 ≡ false
    → let r = if attached then allocate_page p else (0, p) in
      (r ≡ (0, p)) ⊎ ((page : ℕ) × TakesPage p r page)
frame_lem true p v reserved = allocate_page_lem p v reserved
frame_lem false p v reserved = inl refl

-- No entry in use has a key that the search does not find.
not_cached :
    (file_id page_offset j : ℕ) (c : PageCache)
    → find_first (caches file_id page_offset) c.entries ≡ none
    → (entry_at c j).active ≡ true
    → file_id ≡ (entry_at c j).file_id
    → page_offset ≢ (entry_at c j).page_offset
not_cached file_id page_offset j c absent on file offset =
    elim (Bool-cases (ltb j (length c.entries))) [
      | inl inside ↦
          let failed =
            find_first-none (caches file_id page_offset) c.entries j blank_entry absent
              (ground (arith, inside)) in
          absurd (ground (arith, failed, on, file, offset))
      | inr outside ↦
          cc (ap is_cached (get_or_beyond c.entries j blank_entry (ground (arith, outside))), on)
    ]

stored-IsCache :
    (i page file_id page_offset : ℕ) (r : ℕ × PhysicalMemory) (c : PageCache) (f : Frames)
    (b : ℕ → ℕ)
    → IsCache c f
    → i < length c.entries
    → find_first (caches file_id page_offset) c.entries ≡ none
    → TakesPage f.pmm r page
    → IsCache
        (record c { entries = set c.entries i (new_entry file_id page_offset r.0) })
        (record { pmm = r.1; bytes = b })
stored-IsCache i page file_id page_offset r c f b w lt absent t = record {
  owned = IsOwned-take is_cached frame_of blank_entry c.entries f.pmm r page i _ w.owned t refl lt;
  sized = length-set c.entries i _ ∙ w.sized;
  distinct =
      distinct-set c i (new_entry file_id page_offset r.0) w.distinct
        (λ j ne (_, on, file, offset). not_cached file_id page_offset j c absent on file offset) lt;
}

cache_new-IsCache :
    (i file_id page_offset : ℕ) (c : PageCache) (f : Frames)
    → IsCache c f
    → i < length c.entries
    → find_first (caches file_id page_offset) c.entries ≡ none
    → let r = cache_new i file_id page_offset c f in IsCache r.1 r.2
unfolding cache_new
cache_new-IsCache i file_id page_offset c f w lt absent =
    elim (frame_lem c.attached f.pmm w.owned.valid w.owned.reserved) [
      | inl failed ↦ rw failed w
      | inr (page, t) ↦
          let r : ℕ × PhysicalMemory = if c.attached then allocate_page f.pmm else (0, f.pmm) in
          let got : (r.0 == 0) ≡ false = ground (arith, t.address, t.positive) in
          rw got (stored-IsCache i page file_id page_offset r c f _ w lt absent t)
    ]

pub acquire-IsCache :
    (file_id page_offset : ℕ) (c : PageCache) (f : Frames)
    → IsCache c f
    → let r = acquire file_id page_offset c f in IsCache r.1 r.2
unfolding acquire
acquire-IsCache file_id page_offset c f w =
    let P : ℕ × PageCache × Frames → Type 0 = λ r. IsCache r.1 r.2 in
    by_option P (find_first (caches file_id page_offset) c.entries) _ _
      (λ absent.
        by_option P (find_first (λ entry. not (is_cached entry)) c.entries) _ _ (λ _. w)
          (λ i e.
            cache_new-IsCache i file_id page_offset c f w
              (find_first-lt (λ entry. not (is_cached entry)) c.entries i e) absent))
      (λ i e.
        let passes = find_first-test (caches file_id page_offset) c.entries i blank_entry e in
        update-IsCache c f i _ w (find_first-lt (caches file_id page_offset) c.entries i e)
          (ground (arith, passes)) (ground (arith, passes), refl, refl, refl))

pub release-IsCache :
    (physical : ℕ) (c : PageCache) (f : Frames) → IsCache c f → IsCache (release physical c).1 f
unfolding release
release-IsCache physical c f w =
    let held = λ (entry : CacheEntry).
      entry.active && (entry.physical == physical) && not (entry.references == 0) in
    by_option (λ (r : Bool × PageCache). IsCache r.1 f) (find_first held c.entries) _ _ (λ _. w)
      (λ i e.
        update-IsCache c f i _ w (find_first-lt held c.entries i e)
          (ground (arith, find_first-test held c.entries i blank_entry e))
          (ground (arith, find_first-test held c.entries i blank_entry e), refl, refl, refl))

pub evict-IsCache :
    (file_id page_offset : ℕ) (c : PageCache) (f : Frames)
    → IsCache c f
    → let r = evict file_id page_offset c f in IsCache r.1 r.2
unfolding evict
evict-IsCache file_id page_offset c f w =
    let idle =
      λ (entry : CacheEntry). caches file_id page_offset entry && (entry.references == 0) in
    by_option (λ (r : Bool × PageCache × Frames). IsCache r.1 r.2) (find_first idle c.entries) _ _
      (λ _. w)
      (λ i e.
        let lt = find_first-lt idle c.entries i e in
        record {
          owned =
              IsOwned-drop is_cached frame_of blank_entry c.entries f.pmm i blank_entry w.owned
                (ground (arith, find_first-test idle c.entries i blank_entry e)) refl lt;
          sized = length-set c.entries i _ ∙ w.sized;
          distinct =
              distinct-set c i blank_entry w.distinct (λ j _ (on, _, _, _). absurd (cc on)) lt;
        })

dirtied_keeps :
    (physical : ℕ) (entry : CacheEntry)
    → let e = dirtied physical entry in
      (e.active ≡ entry.active)
      × (e.physical ≡ entry.physical)
      × (e.file_id ≡ entry.file_id)
      × (e.page_offset ≡ entry.page_offset)
unfolding dirtied
dirtied_keeps physical entry = ground arith

pub mark_dirty-IsCache :
    (physical : ℕ) (c : PageCache) (f : Frames) → IsCache c f → IsCache (mark_dirty physical c) f
unfolding mark_dirty
mark_dirty-IsCache physical c f w =
    let key : (g : CacheEntry → ℕ)
        → ((a : CacheEntry) → g (dirtied physical a) ≡ g a)
        → (i : ℕ) → g (get_or (map (dirtied physical) c.entries) i blank_entry) ≡ g (entry_at c i) =
      λ g keeps i. get_or-map_same (dirtied physical) g c.entries i blank_entry keeps in
    let on = λ (i : ℕ).
      get_or-map_same (dirtied physical) is_cached c.entries i blank_entry
        (λ a. (dirtied_keeps physical a).0) in
    let file = key (λ a. a.file_id) (λ a. (dirtied_keeps physical a).2) in
    let offset = key (λ a. a.page_offset) (λ a. (dirtied_keeps physical a).3) in
    record {
      owned =
          IsOwned-map is_cached frame_of blank_entry (dirtied physical) c.entries f.pmm
            (λ a. (dirtied_keeps physical a).0) (λ a. (dirtied_keeps physical a).1) w.owned;
      sized = length-map (dirtied physical) c.entries ∙ w.sized;
      distinct = λ i j (h, h', same, same'). w.distinct i j (
        sym (on i) ∙ h,
        sym (on j) ∙ h',
        sym (file i) ∙ same ∙ file j,
        sym (offset i) ∙ same' ∙ offset j,
      );
    }

pub cache_init-IsCache :
    (f : Frames) → IsValid f.pmm → is_page_free f.pmm 0 ≡ false → IsCache cache_init f
unfolding cache_init
cache_init-IsCache f valid reserved = record {
  owned =
      IsOwned-replicate is_cached frame_of blank_entry page_cache_entry_count f.pmm refl valid
        reserved;
  sized = length-replicate page_cache_entry_count blank_entry;
  distinct = λ i j (on, _, _, _).
      absurd (cc (on, ap is_cached (get_or-replicate page_cache_entry_count i blank_entry)));
}
