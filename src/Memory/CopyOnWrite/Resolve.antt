-- ===== src/Memory/CopyOnWrite/Resolve.antt =====
-- `ResolveWrite` of CopyOnWriteManager: the writer gets a page of its own with the same bytes.
use uefi_boot_system.Prelude.{
  ℕ, ◌+◌, ◌-◌, ◌<◌, ◌≡◌, ◌≢◌, ◌⊎◌, inl, inr, refl, ap, sym, ◌∙◌, subst, false, not, leb, ◌==◌,
  arith, length, set, length-set, get_or-set_self, get_or-set_ne,
}
use uefi_boot_system.Prelude.Table.{find_first-lt, find_first-test}
use uefi_boot_system.Prelude.Cases.{by_option, by_if}
use uefi_boot_system.Memory.Pmm.{page_size, allocate_page}
use uefi_boot_system.Memory.Pmm.Page.{TakesPage, allocate_page_lem}
use uefi_boot_system.Memory.Frames.{
  Frames, Apart, in_page, copy_page, copy_page_lem, copy_page_same,
}
use uefi_boot_system.Memory.Frames.Owned.{fresh-Apart, IsOwned-take, IsOwned-update}
use uefi_boot_system.Memory.CopyOnWrite.{
  CowPage, CopyOnWrite, blank_page, new_page, is_active, physical_of, page_at, find_free_slot,
  find_page, copy_out, resolve_write, reference_count,
}
use uefi_boot_system.Memory.CopyOnWrite.Tracked.{
  IsCow, Tracks, find_page-Tracks, IsCounted-set, reference_count-Tracks,
}

-- Page `address` of the second memory holds what page `physical` of the first one held.
abbrev pub SameBytes : ℕ → Frames → ℕ → Frames → Type 0
SameBytes physical f address g =
    (offset : ℕ) → offset < page_size → g.bytes (address + offset) ≡ f.bytes (physical + offset)

-- The writer's page: it has one reference, holds the bytes, and the memory outside it has not changed.
-- It is the page asked for, which nobody else refers to, or a fresh one, and then the page asked for
-- has lost one reference.
pub record Resolves (physical : ℕ) (m : CopyOnWrite) (f : Frames) (r : ℕ × CopyOnWrite × Frames)
    : Type 0 where
  pub own : reference_count r.0 r.1 ≡ 1
  pub same_bytes : SameBytes physical f r.0 r.2
  pub elsewhere : (a : ℕ) → in_page r.0 a ≡ false → r.2.bytes a ≡ f.bytes a
  pub shared :
      ((r.0 ≡ physical) × (r.1 ≡ m) × (r.2 ≡ f))
      ⊎ ((r.0 ≢ physical) × (reference_count physical r.1 + 1 ≡ reference_count physical m))
  pub keeps : IsCow r.1 r.2

-- What a call of `ResolveWrite` may do: it answers 0 and changes nothing, or it resolves the write.
abbrev pub Outcome : ℕ → CopyOnWrite → Frames → ℕ × CopyOnWrite × Frames → Type 0
Outcome physical m f r = ((r.0 ≡ 0) × (r.1 ≡ m) × (r.2 ≡ f)) ⊎ ((r.0 ≢ 0) × Resolves physical m f r)

module _ (physical i k : ℕ) (m : CopyOnWrite) (f : Frames) (c : IsCow m f) (t : Tracks physical m i)
    (more : 1 < (page_at m i).references) (lt : k < length m.pages)
    (free : (page_at m k).active ≡ false) where
  apart_slots : i ≢ k
  apart_slots e = cc (t.on, free, e)

  module _ (page : ℕ) (taken : TakesPage f.pmm (allocate_page f.pmm) page) where
    abbrev fresh : ℕ
    fresh = (allocate_page f.pmm).0

    abbrev fewer : CowPage
    fewer = record (page_at m i) { references = (page_at m i).references - 1 }

    abbrev halfway : CopyOnWrite
    halfway = record m { pages = set m.pages i fewer }

    abbrev after : CopyOnWrite
    after = record m { pages = set (set m.pages i fewer) k (new_page fresh) }

    abbrev memory : Frames
    memory = record { pmm = (allocate_page f.pmm).1; bytes = copy_page fresh physical f.bytes }

    after-IsCow : IsCow after memory
    after-IsCow = record {
      owned =
          IsOwned-take is_active physical_of blank_page halfway.pages f.pmm (allocate_page f.pmm)
            page k (new_page fresh)
            (IsOwned-update is_active physical_of blank_page m.pages f.pmm i fewer c.owned t.on refl
              t.inside)
            taken refl (omega (arith, length-set m.pages i fewer, lt));
      sized = length-set halfway.pages k _ ∙ length-set m.pages i _ ∙ c.sized;
      counted =
          IsCounted-set halfway k (new_page fresh)
            (IsCounted-set m i fewer c.counted (λ on. ground (arith, more, c.counted i on)))
            (λ _. omega arith);
    }

    fresh-Tracks : Tracks fresh after k
    fresh-Tracks =
        let at : page_at after k ≡ new_page fresh =
          get_or-set_self halfway.pages k (new_page fresh) blank_page
            (omega (arith, length-set m.pages i fewer, lt)) in
        record {
          inside =
              omega (
                arith,
                length-set halfway.pages k (new_page fresh),
                length-set m.pages i fewer,
                lt,
              );
          on = ap is_active at;
          here = ap physical_of at;
        }

    old_slot : page_at after i ≡ fewer
    old_slot =
        get_or-set_ne halfway.pages k i (new_page fresh) blank_page (λ e. apart_slots (sym e))
        ∙ get_or-set_self m.pages i fewer blank_page t.inside

    old-Tracks : Tracks physical after i
    old-Tracks = record {
      inside = omega (
        arith,
        length-set halfway.pages k (new_page fresh),
        length-set m.pages i fewer,
        t.inside,
      );
      on = ap is_active old_slot ∙ t.on;
      here = ap physical_of old_slot ∙ t.here;
    }

    copied-Apart : Apart fresh physical
    copied-Apart =
        subst (Apart fresh) t.here
          (fresh-Apart f.pmm (allocate_page f.pmm) page _ taken (c.owned.used i t.on))

    copied : Resolves physical m f (fresh, after, memory)
    copied =
        let count = reference_count-Tracks fresh after memory k after-IsCow.owned fresh-Tracks in
        let old_count =
          reference_count-Tracks physical after memory i after-IsCow.owned old-Tracks in
        let before = reference_count-Tracks physical m f i c.owned t in
        record {
          own =
              count
              ∙ ap (λ (v : CowPage). v.references)
                  (get_or-set_self halfway.pages k (new_page fresh) blank_page
                    (omega (arith, length-set m.pages i fewer, lt)));
          same_bytes =
              λ offset small. copy_page_same fresh physical offset f.bytes copied-Apart small;
          elsewhere = λ a outside. copy_page_lem fresh physical f.bytes a copied-Apart ∙ rw outside;
          shared = inr (
            (λ e. ground (arith, copied-Apart, e)),
            omega (arith, old_count, ap (λ (v : CowPage). v.references) old_slot, before, more),
          );
          keeps = after-IsCow;
        }

  copy_out-Outcome : Outcome physical m f (copy_out physical i k m f)
  unfolding copy_out
  copy_out-Outcome = elim (allocate_page_lem f.pmm c.owned.valid c.owned.reserved) [
    | inl failed ↦ inl (rw failed (refl, refl, refl))
    | inr (page, taken) ↦
        let got : ((allocate_page f.pmm).0 == 0) ≡ false =
          ground (arith, taken.address, taken.positive) in
        let real : (allocate_page f.pmm).0 ≢ 0 = ground (arith, got) in
        inr (rw got (real, copied page taken))
  ]

-- `ResolveWrite` on a manager in order: it answers 0 and changes nothing, or it answers a page with a
-- single reference and the bytes of the page asked for, and no byte outside that page has changed.
pub resolve_write-Outcome :
    (physical : ℕ) (m : CopyOnWrite) (f : Frames)
    → IsCow m f
    → Outcome physical m f (resolve_write physical m f)
unfolding resolve_write find_free_slot
resolve_write-Outcome physical m f c =
    let P = Outcome physical m f in
    by_option P (find_page physical m) _ _ (λ _. inl (refl, refl, refl))
      (λ i e.
        let t = find_page-Tracks physical m i e in
        let mine = c.owned.used i t.on in
        by_if P (leb (page_at m i).references 1) _ _
          (λ single. inr (
            (ground (arith, t.here, mine.address_of, mine.positive)),
            record {
              own = ground (
                arith,
                single,
                reference_count-Tracks physical m f i c.owned t,
                c.counted i t.on,
              );
              same_bytes = λ offset _. refl;
              elsewhere = λ a _. refl;
              shared = inl (refl, refl, refl);
              keeps = c;
            },
          ))
          (λ more.
            by_option P (find_free_slot m) _ _ (λ _. inl (refl, refl, refl))
              (λ k free.
                by_if P (not m.attached) _ _ (λ _. inl (refl, refl, refl))
                  (λ _.
                    copy_out-Outcome physical i k m f c t (ground (arith, more))
                      (find_first-lt (λ page. not (is_active page)) m.pages k free)
                      (ground (
                        arith,
                        find_first-test (λ page. not (is_active page)) m.pages k blank_page free,
                      ))))))

pub resolve_write-IsCow :
    (physical : ℕ) (m : CopyOnWrite) (f : Frames)
    → IsCow m f
    → let r = resolve_write physical m f in IsCow r.1 r.2
resolve_write-IsCow physical m f c = elim (resolve_write-Outcome physical m f c) [
  | inl (_, same, same') ↦ rw (same, same') c
  | inr (_, r) ↦ r.keeps
]
