-- ===== src/Memory/CopyOnWrite/Run.antt =====
-- CopyOnWriteManager: sequences of calls, and an owner that comes and goes.
use mathlib.Core.Option.{some-injective}
use uefi_boot_system.Prelude.{
  ℕ, ◌+◌, ◌-◌, ◌<◌, ◌≡◌, refl, ap, sym, ◌∙◌, subst, Bool, true, false, List, [], ◌∷◌, some, ◌==◌,
  arith, get_or-replicate, set, set-set, set-get_or, get_or-set_self, length-replicate,
}
use uefi_boot_system.Prelude.Cases.{by_option, by_if}
use uefi_boot_system.Memory.Pmm.{is_page_free}
use uefi_boot_system.Memory.Pmm.Bitmap.{IsValid}
use uefi_boot_system.Memory.Frames.{Frames}
use uefi_boot_system.Memory.Frames.Owned.{IsOwned-replicate}
use uefi_boot_system.Memory.CopyOnWrite.{
  CopyOnWrite, CowPage, cow_tracked_pages, uint16_max, blank_page, is_active, physical_of, page_at,
  cow_init, find_page, cow_allocate_page, clone_page, resolve_write, release_page, drop_reference,
}
use uefi_boot_system.Memory.CopyOnWrite.Tracked.{
  IsCow, Tracks, find_page-Tracks, find_page-set, cow_allocate_page-IsCow, clone_page-IsCow,
  release_page-IsCow,
}
use uefi_boot_system.Memory.CopyOnWrite.Resolve.{resolve_write-IsCow}

-- A call of one of the operations that change the manager, on any address.
pub data CowCall : Type 0 where
  allocate_call : CowCall
  clone_call resolve_call release_call : ℕ → CowCall

pub call : CowCall → CopyOnWrite → Frames → CopyOnWrite × Frames
call allocate_call m f = let r = cow_allocate_page m f in (r.1, r.2)
call (clone_call physical) m f = ((clone_page physical m).1, f)
call (resolve_call physical) m f = let r = resolve_write physical m f in (r.1, r.2)
call (release_call physical) m f = release_page physical m f

pub run_calls : List CowCall → CopyOnWrite → Frames → CopyOnWrite × Frames
run_calls [] m f = (m, f)
run_calls (c ∷ cs) m f = run_calls cs (call c m f).0 (call c m f).1

call-IsCow :
    (c : CowCall) (m : CopyOnWrite) (f : Frames) → IsCow m f → IsCow (call c m f).0 (call c m f).1
unfolding call
call-IsCow allocate_call m f h = cow_allocate_page-IsCow m f h
call-IsCow (clone_call physical) m f h = clone_page-IsCow physical m f h
call-IsCow (resolve_call physical) m f h = resolve_write-IsCow physical m f h
call-IsCow (release_call physical) m f h = release_page-IsCow physical m f h

run_calls-keeps :
    (cs : List CowCall) (m : CopyOnWrite) (f : Frames)
    → IsCow m f
    → IsCow (run_calls cs m f).0 (run_calls cs m f).1
unfolding run_calls
run_calls-keeps [] m f h = h
run_calls-keeps (c ∷ cs) m f h =
    run_calls-keeps cs (call c m f).0 (call c m f).1 (call-IsCow c m f h)

-- After any calls on the manager that `Init` leaves, every active slot owns a page that the page
-- manager holds used, no two slots the same, with a reference count from 1 to 65535, where the page
-- manager is valid and keeps page 0 from the start.
pub run_calls-IsCow :
    (cs : List CowCall) (f : Frames)
    → IsValid f.pmm
    → is_page_free f.pmm 0 ≡ false
    → IsCow (run_calls cs cow_init f).0 (run_calls cs cow_init f).1
unfolding cow_init
run_calls-IsCow cs f valid reserved = run_calls-keeps cs cow_init f (record {
  owned =
      IsOwned-replicate is_active physical_of blank_page cow_tracked_pages f.pmm refl valid
        reserved;
  sized = length-replicate cow_tracked_pages blank_page;
  counted =
      λ i on. absurd (cc (on, ap is_active (get_or-replicate cow_tracked_pages i blank_page)));
})

-- The manager after one more reference to the page of slot `i`.
abbrev more_by_one : ℕ → CopyOnWrite → CopyOnWrite
more_by_one i m = record m {
  pages = set m.pages i (record (page_at m i) { references = (page_at m i).references + 1 });
}

release-more_by_one :
    (physical i : ℕ) (m : CopyOnWrite) (f : Frames)
    → IsCow m f
    → find_page physical m ≡ some i
    → release_page physical (more_by_one i m) f ≡ (m, f)
unfolding release_page drop_reference
release-more_by_one physical i m f c e =
    by_option P (find_page physical n) _ _ (λ absent. absurd (cc (absent, found)))
      (λ j here.
        let same : j ≡ i = some-injective _ _ (sym here ∙ found) in
        by_if P ((page_at n j).references == 0) _ _
          (λ empty. absurd (ground (arith, empty, ap (λ t. (page_at n t).references) same, count)))
          (λ _.
            by_if P ((page_at n j).references - 1 == 0) _ _
              (λ last.
                absurd (
                  ground (arith, last, ap (λ t. (page_at n t).references) same, count, some_owner)))
              (λ _.
                subst
                  (λ t. P (
                    record n {
                      pages =
                          set n.pages t
                            (record (page_at n t) { references = (page_at n t).references - 1 });
                    },
                    f,
                  ))
                  (sym same) undone)))
  where
    P : CopyOnWrite × Frames → Type 0
    P r = r ≡ (m, f)

    n : CopyOnWrite
    n = more_by_one i m

    t : Tracks physical m i
    t = find_page-Tracks physical m i e

    at : page_at n i ≡ record (page_at m i) { references = (page_at m i).references + 1 }
    at = get_or-set_self m.pages i _ blank_page t.inside

    count : (page_at n i).references ≡ (page_at m i).references + 1
    count = ap (λ (v : CowPage). v.references) at

    some_owner : 0 < (page_at m i).references
    some_owner = (c.counted i t.on).0

    found : find_page physical n ≡ some i
    found = find_page-set physical m i _ refl ∙ e

    undone : P (
      record n {
        pages = set n.pages i (record (page_at n i) { references = (page_at n i).references - 1 });
      },
      f,
    )
    undone =
        let v : CowPage = page_at m i in
        let number : v.references + 1 - 1 ≡ v.references = omega arith in
        let restored : record (page_at n i) { references = (page_at n i).references - 1 } ≡ v =
          ap (λ (w : CowPage). record w { references = w.references - 1 }) at
          ∙ ap (λ t. record v { references = t }) number in
        ap (λ t. (record m { pages = t }, f))
          (ap (λ t. set n.pages i t) restored
            ∙ set-set m.pages i _ v
            ∙ set-get_or m.pages i blank_page)

-- `ReleasePage` after a `ClonePage` that answers true gives back the manager and the memory from
-- before, where the manager is in order.
pub release_page-clone_page :
    (physical : ℕ) (m : CopyOnWrite) (f : Frames)
    → IsCow m f
    → (clone_page physical m).0 ≡ true
    → release_page physical (clone_page physical m).1 f ≡ (m, f)
unfolding clone_page
release_page-clone_page physical m f c =
    let P : Bool × CopyOnWrite → Type 0 = λ r. r.0 ≡ true → release_page physical r.1 f ≡ (m, f) in
    by_option P (find_page physical m) _ _ (λ _ done. absurd (cc done))
      (λ i e.
        by_if P ((page_at m i).references == uint16_max) _ _ (λ _ done. absurd (cc done))
          (λ room _. release-more_by_one physical i m f c e))
