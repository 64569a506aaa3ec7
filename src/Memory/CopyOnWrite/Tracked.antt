-- ===== src/Memory/CopyOnWrite/Tracked.antt =====
-- CopyOnWriteManager: the invariant of the table, and what its operations keep of it.
use uefi_boot_system.Prelude.{
  ℕ, ◌-◌, ◌≤◌, ◌<◌, ◌≡◌, inl, inr, refl, ap, sym, ◌∙◌, subst, Bool, true, false, not, some, ◌==◌,
  arith, length, get_or, set, length-set, get_or-set_cases,
}
use uefi_boot_system.Prelude.Table.{find_first-lt, find_first-test, find_first-some, find_first-set}
use uefi_boot_system.Prelude.Cases.{by_option, by_if}
use uefi_boot_system.Memory.Pmm.{allocate_page}
use uefi_boot_system.Memory.Pmm.Page.{allocate_page_lem}
use uefi_boot_system.Memory.Frames.{Frames}
use uefi_boot_system.Memory.Frames.Owned.{IsOwned, IsOwned-take, IsOwned-update, IsOwned-drop}
use uefi_boot_system.Memory.CopyOnWrite.{
  CowPage, CopyOnWrite, cow_tracked_pages, uint16_max, blank_page, is_active, physical_of, page_at,
  tracks, find_free_slot, find_page, track_new, cow_allocate_page, clone_page, drop_reference,
  release_page, reference_count,
}

-- A tracked page has an owner, and its count fits its 16 bits.
abbrev pub IsCounted : CowPage → Type 0
IsCounted page = page.active ≡ true → (0 < page.references) × (page.references ≤ uint16_max)

-- Every active slot owns a used page of its own, and counts at least one reference to it.
pub record IsCow (m : CopyOnWrite) (f : Frames) : Type 0 where
  pub owned : IsOwned is_active physical_of blank_page m.pages f.pmm
  pub sized : length m.pages ≡ cow_tracked_pages
  pub counted : (i : ℕ) → IsCounted (page_at m i)

-- What a search for a page finds.
pub record Tracks (physical : ℕ) (m : CopyOnWrite) (i : ℕ) : Type 0 where
  pub inside : i < length m.pages
  pub on : (page_at m i).active ≡ true
  pub here : (page_at m i).physical ≡ physical

pub find_page-Tracks :
    (physical : ℕ) (m : CopyOnWrite) (i : ℕ) → find_page physical m ≡ some i → Tracks physical m i
unfolding find_page
find_page-Tracks physical m i e =
    let passes = find_first-test (tracks physical) m.pages i blank_page e in
    record {
      inside = find_first-lt (tracks physical) m.pages i e;
      on = ground (arith, passes);
      here = ground (arith, passes);
    }

pub find_page-set :
    (physical : ℕ) (m : CopyOnWrite) (i : ℕ) (v : CowPage)
    → tracks physical v ≡ tracks physical (page_at m i)
    → find_page physical (record m { pages = set m.pages i v }) ≡ find_page physical m
unfolding find_page
find_page-set physical m i v e = find_first-set (tracks physical) m.pages i v blank_page e

pub IsCounted-set :
    (m : CopyOnWrite) (i : ℕ) (v : CowPage)
    → ((j : ℕ) → IsCounted (page_at m j))
    → IsCounted v
    → (j : ℕ) → IsCounted (get_or (set m.pages i v) j blank_page)
IsCounted-set m i v old new j = elim (get_or-set_cases m.pages i j v blank_page) [
  | inl (same, e) ↦ subst IsCounted (sym e) new
  | inr e ↦ subst IsCounted (sym e) (old j)
]

-- A tracked page is found in its own slot.
pub reference_count-Tracks :
    (physical : ℕ) (m : CopyOnWrite) (f : Frames) (i : ℕ)
    → IsOwned is_active physical_of blank_page m.pages f.pmm
    → Tracks physical m i
    → reference_count physical m ≡ (page_at m i).references
unfolding reference_count find_page
reference_count-Tracks physical m f i o t =
    let passes : tracks physical (page_at m i) ≡ true = ground (arith, t.on, t.here) in
    let (j, found, _) = find_first-some (tracks physical) m.pages i blank_page t.inside passes in
    let u = find_page-Tracks physical m j found in
    let same : j ≡ i = o.apart j i u.on t.on (u.here ∙ sym t.here) in
    rw (found, reference_count) (ap (λ k. (page_at m k).references) same)

track_new-IsCow :
    (i : ℕ) (m : CopyOnWrite) (f : Frames)
    → IsCow m f
    → i < length m.pages
    → IsCow (track_new i m f).1 (track_new i m f).2
unfolding track_new
track_new-IsCow i m f c lt = elim (allocate_page_lem f.pmm c.owned.valid c.owned.reserved) [
  | inl failed ↦ rw failed c
  | inr (page, t) ↦
      let got : ((allocate_page f.pmm).0 == 0) ≡ false = ground (arith, t.address, t.positive) in
      rw got (record {
        owned =
            IsOwned-take is_active physical_of blank_page m.pages f.pmm (allocate_page f.pmm) page i
              _ c.owned t refl lt;
        sized = length-set m.pages i _ ∙ c.sized;
        counted = IsCounted-set m i _ c.counted (λ _. omega arith);
      })
]

pub cow_allocate_page-IsCow :
    (m : CopyOnWrite) (f : Frames) → IsCow m f → let r = cow_allocate_page m f in IsCow r.1 r.2
unfolding cow_allocate_page find_free_slot
cow_allocate_page-IsCow m f c =
    let P : ℕ × CopyOnWrite × Frames → Type 0 = λ r. IsCow r.1 r.2 in
    by_option P (find_free_slot m) _ _ (λ _. c)
      (λ i e.
        by_if P (not m.attached) _ _ (λ _. c)
          (λ _. track_new-IsCow i m f c (find_first-lt (λ page. not (is_active page)) m.pages i e)))

pub clone_page-IsCow :
    (physical : ℕ) (m : CopyOnWrite) (f : Frames) → IsCow m f → IsCow (clone_page physical m).1 f
unfolding clone_page
clone_page-IsCow physical m f c =
    let P : Bool × CopyOnWrite → Type 0 = λ r. IsCow r.1 f in
    by_option P (find_page physical m) _ _ (λ _. c)
      (λ i e.
        let t = find_page-Tracks physical m i e in
        by_if P ((page_at m i).references == uint16_max) _ _ (λ _. c)
          (λ room. record {
            owned =
                IsOwned-update is_active physical_of blank_page m.pages f.pmm i _ c.owned t.on refl
                  t.inside;
            sized = length-set m.pages i _ ∙ c.sized;
            counted = IsCounted-set m i _ c.counted (λ on. ground (arith, room, c.counted i on));
          }))

drop_reference-IsCow :
    (physical i : ℕ) (m : CopyOnWrite) (f : Frames)
    → IsCow m f
    → Tracks physical m i
    → IsCow (drop_reference i m f).0 (drop_reference i m f).1
unfolding drop_reference
drop_reference-IsCow physical i m f c t =
    by_if (λ (r : CopyOnWrite × Frames). IsCow r.0 r.1) ((page_at m i).references - 1 == 0) _ _
      (λ _. record {
        owned =
            IsOwned-drop is_active physical_of blank_page m.pages f.pmm i _ c.owned t.on refl
              t.inside;
        sized = length-set m.pages i _ ∙ c.sized;
        counted = IsCounted-set m i _ c.counted (λ on. cc on);
      })
      (λ more. record {
        owned =
            IsOwned-update is_active physical_of blank_page m.pages f.pmm i _ c.owned t.on refl
              t.inside;
        sized = length-set m.pages i _ ∙ c.sized;
        counted = IsCounted-set m i _ c.counted (λ on. ground (arith, more, c.counted i on));
      })

pub release_page-IsCow :
    (physical : ℕ) (m : CopyOnWrite) (f : Frames)
    → IsCow m f
    → let r = release_page physical m f in IsCow r.0 r.1
unfolding release_page
release_page-IsCow physical m f c =
    let P : CopyOnWrite × Frames → Type 0 = λ r. IsCow r.0 r.1 in
    by_option P (find_page physical m) _ _ (λ _. c)
      (λ i e.
        by_if P ((page_at m i).references == 0) _ _ (λ _. c)
          (λ _. drop_reference-IsCow physical i m f c (find_page-Tracks physical m i e)))
