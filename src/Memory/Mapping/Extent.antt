-- ===== src/Memory/Mapping/Extent.antt =====
-- MemoryMappingManager: what filling and emptying a mapping leaves of the table, its extents.
use uefi_boot_system.Prelude.{
  ℕ, zero, suc, ◌+◌, ◌-◌, ◌/◌, ◌≡◌, inl, inr, refl, ap, sym, ◌∙◌, subst, Bool, true, false, not,
  ◌&&◌, List, ◌==◌, length, length-set, set, get_or, get_or-set_cases,
}
use uefi_boot_system.Prelude.Cases.{by_option, by_if}
use uefi_boot_system.Memory.Pmm.{page_size}
use uefi_boot_system.Memory.Mapping.{
  Mapping, Mappings, no_mapping, mapping_at, put_mapping, find_mapping, materialize, give_back,
  give_back_all, unmap, fill, fault_in, handle_page_fault,
}

-- The second table has the extents of the first one, and no mapping that is active in it only.
pub record Shrinks (s t : Mappings) : Type 0 where
  pub next_same : t.next_address ≡ s.next_address
  pub sized : length t.mappings ≡ length s.mappings
  pub address_same : (i : ℕ) → (mapping_at t i).address ≡ (mapping_at s i).address
  pub count_same : (i : ℕ) → (mapping_at t i).page_count ≡ (mapping_at s i).page_count
  pub active_before : (i : ℕ) → (mapping_at t i).active ≡ true → (mapping_at s i).active ≡ true

-- Only the table and the next address matter.
pub Shrinks-same :
    (s t : Mappings) → t.next_address ≡ s.next_address → t.mappings ≡ s.mappings → Shrinks s t
Shrinks-same s t next table = record {
  next_same = next;
  sized = ap length table;
  address_same = λ i. ap (λ (m : List Mapping). (get_or m i no_mapping).address) table;
  count_same = λ i. ap (λ (m : List Mapping). (get_or m i no_mapping).page_count) table;
  active_before =
      λ i on. sym (ap (λ (m : List Mapping). (get_or m i no_mapping).active) table) ∙ on;
}

pub Shrinks-trans : (s t u : Mappings) → Shrinks s t → Shrinks t u → Shrinks s u
Shrinks-trans s t u a b = record {
  next_same = b.next_same ∙ a.next_same;
  sized = b.sized ∙ a.sized;
  address_same = λ i. b.address_same i ∙ a.address_same i;
  count_same = λ i. b.count_same i ∙ a.count_same i;
  active_before = λ i on. a.active_before i (b.active_before i on);
}

-- A write to a mapping that keeps its extent and does not make it active.
pub Shrinks-put :
    (i : ℕ) (v : Mapping) (s : Mappings)
    → v.address ≡ (mapping_at s i).address
    → v.page_count ≡ (mapping_at s i).page_count
    → (v.active ≡ true → (mapping_at s i).active ≡ true)
    → Shrinks s (put_mapping i v s)
Shrinks-put i v s address count on = record {
  next_same = refl;
  sized = length-set s.mappings i v;
  address_same = same (λ m. m.address) address;
  count_same = same (λ m. m.page_count) count;
  active_before = λ j e. elim (get_or-set_cases s.mappings i j v no_mapping) [
    | inl (here, is) ↦
        subst (λ k. (mapping_at s k).active ≡ true) here
          (on (sym (ap (λ (m : Mapping). m.active) is) ∙ e))
    | inr is ↦ sym (ap (λ (m : Mapping). m.active) is) ∙ e
  ];
}
  where
    same :
        (g : Mapping → ℕ)
        → g v ≡ g (mapping_at s i)
        → (j : ℕ) → g (get_or (set s.mappings i v) j no_mapping) ≡ g (mapping_at s j)
    same g e j = elim (get_or-set_cases s.mappings i j v no_mapping) [
      | inl (here, is) ↦ ap g is ∙ e ∙ ap (λ k. g (mapping_at s k)) here
      | inr is ↦ ap g is
    ]

pub materialize-same :
    (file_id page : ℕ) (s : Mappings)
    → let t = (materialize file_id page s).1 in
      (t.next_address ≡ s.next_address) × (t.mappings ≡ s.mappings)
unfolding materialize
materialize-same file_id page s =
    by_if (λ (r : ℕ × Mappings). (r.1.next_address ≡ s.next_address) × (r.1.mappings ≡ s.mappings))
      (not (file_id == 0)) _ _ (λ _. (refl, refl)) (λ _. (refl, refl))

give_back-same :
    (file_id physical : ℕ) (s : Mappings)
    → let t = give_back file_id physical s in
      (t.next_address ≡ s.next_address) × (t.mappings ≡ s.mappings)
unfolding give_back
give_back-same file_id physical s =
    let P : Mappings → Type 0 =
      λ t. (t.next_address ≡ s.next_address) × (t.mappings ≡ s.mappings) in
    by_if P (physical == 0) _ _ (λ _. (refl, refl))
      (λ _. by_if P (not (file_id == 0)) _ _ (λ _. (refl, refl)) (λ _. (refl, refl)))

give_back_all-same :
    (n page : ℕ) (v : Mapping) (s : Mappings)
    → let t = give_back_all n page v s in
      (t.next_address ≡ s.next_address) × (t.mappings ≡ s.mappings)
unfolding give_back_all
give_back_all-same zero page v s = (refl, refl)
give_back_all-same (suc n) page v s =
    let (next, table) = give_back-same v.file_id (get_or v.pages page 0) s in
    let (next', table') =
      give_back_all-same n (page + 1) v (give_back v.file_id (get_or v.pages page 0) s) in
    (next' ∙ next, table' ∙ table)

pub unmap-Shrinks : (address : ℕ) (s : Mappings) → Shrinks s (unmap address s).1
unfolding unmap
unmap-Shrinks address s =
    let P : Bool × Mappings → Type 0 = λ r. Shrinks s r.1 in
    by_option P (find_mapping address s) _ _ (λ _. Shrinks-same s s refl refl)
      (λ i e.
        let v = mapping_at s i in
        by_if P (not (v.address == address)) _ _ (λ _. Shrinks-same s s refl refl)
          (λ _.
            let (next, table) = give_back_all-same v.page_count 0 v s in
            let t = give_back_all v.page_count 0 v s in
            let same = Shrinks-same s t next table in
            Shrinks-trans s t _ same (
              Shrinks-put i (record v { active = false }) t (sym (same.address_same i))
                (sym (same.count_same i)) (λ on. absurd (cc on)))))

-- The mapping gets a page, whatever the page is.
pub paged-Shrinks :
    (file_id page i number : ℕ) (s : Mappings)
    → let t = (materialize file_id page s).1 in
      let v = mapping_at t i in
      Shrinks s (put_mapping i (record v { pages = set v.pages page number }) t)
paged-Shrinks file_id page i number s =
    let t = (materialize file_id page s).1 in
    let (next, table) = materialize-same file_id page s in
    Shrinks-trans s t _ (Shrinks-same s t next table) (Shrinks-put i _ t refl refl (λ on. on))

pub fill-Shrinks : (n page i : ℕ) (s : Mappings) → Shrinks s (fill n page i s).1
unfolding fill
fill-Shrinks zero page i s = Shrinks-same s s refl refl
fill-Shrinks (suc n) page i s =
    let r = materialize (mapping_at s i).file_id page s in
    let v = mapping_at r.1 i in
    let filled = put_mapping i (record v { pages = set v.pages page r.0 }) r.1 in
    let first = paged-Shrinks (mapping_at s i).file_id page i r.0 s in
    by_if (λ (q : ℕ × Mappings). Shrinks s q.1) (r.0 == 0) _ _
      (λ _. Shrinks-trans s filled _ first (unmap-Shrinks v.address filled))
      (λ _. Shrinks-trans s filled _ first (fill-Shrinks n (page + 1) i filled))

fault_in-Shrinks : (i page : ℕ) (s : Mappings) → Shrinks s (fault_in i page s)
unfolding fault_in
fault_in-Shrinks i page s =
    by_if (λ (t : Mappings). Shrinks s t) (get_or (mapping_at s i).pages page 0 == 0) _ _
      (λ _.
        paged-Shrinks (mapping_at s i).file_id page i
          (materialize (mapping_at s i).file_id page s).0 s)
      (λ _. Shrinks-same s s refl refl)

pub handle_page_fault-Shrinks :
    (address : ℕ) (writes : Bool) (s : Mappings) → Shrinks s (handle_page_fault address writes s).1
unfolding handle_page_fault
handle_page_fault-Shrinks address writes s =
    let P : ℕ × Mappings → Type 0 = λ r. Shrinks s r.1 in
    let stay = Shrinks-same s s refl refl in
    by_option P (find_mapping address s) _ _ (λ _. stay)
      (λ i e.
        let page = (address - (mapping_at s i).address) / page_size in
        let t = fault_in i page s in
        by_if P (writes && not (mapping_at s i).writable) _ _ (λ _. stay)
          (λ _.
            by_if P (writes && not ((mapping_at s i).file_id == 0)) _ _
              (λ _. Shrinks-trans s t _ (fault_in-Shrinks i page s) (Shrinks-same t _ refl refl))
              (λ _. fault_in-Shrinks i page s)))
