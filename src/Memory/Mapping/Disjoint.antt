-- ===== src/Memory/Mapping/Disjoint.antt =====
-- MemoryMappingManager: the ranges of active mappings do not overlap.
use uefi_boot_system.Prelude.{
  ℕ, ◌+◌, ◌*◌, ◌%◌, ◌^◌, ◌≤◌, ◌<◌, ◌≡◌, ◌≢◌, ◌⊎◌, inl, inr, refl, ap, sym, ◌∙◌, subst, Bool, true,
  not, ◌||◌, ltb, ◌==◌, arith, length, length-set, set, get_or-set_self, get_or-set_ne, ℕ_discrete,
}
use uefi_boot_system.Prelude.Table.{find_first, find_first-lt}
use uefi_boot_system.Prelude.Cases.{by_option, by_if}
use uefi_boot_system.Memory.Pmm.{page_size}
use uefi_boot_system.Memory.Mapping.{
  Mapping, Mappings, memory_mapping_count, mapping_max_pages, no_mapping, mapping_at, pages_of,
  map_at, map_file,
}
use uefi_boot_system.Memory.Mapping.Extent.{Shrinks, fill-Shrinks}

-- The first address after a mapping.
abbrev pub end_of : Mapping → ℕ
end_of v = v.address + v.page_count * page_size

-- Every active mapping ends at or below the next address, and no two of them overlap.
pub record IsDisjoint (s : Mappings) : Type 0 where
  pub sized : length s.mappings ≡ memory_mapping_count
  pub below : (i : ℕ) → (mapping_at s i).active ≡ true → end_of (mapping_at s i) ≤ s.next_address
  pub apart :
      (i j : ℕ)
      → i ≢ j
      → (mapping_at s i).active ≡ true
      → (mapping_at s j).active ≡ true
      → (end_of (mapping_at s i) ≤ (mapping_at s j).address)
        ⊎ (end_of (mapping_at s j) ≤ (mapping_at s i).address)

pub Shrinks-IsDisjoint : (s t : Mappings) → Shrinks s t → IsDisjoint s → IsDisjoint t
Shrinks-IsDisjoint s t h d = record {
  sized = h.sized ∙ d.sized;
  below = λ i on.
      omega
        (arith, d.below i (h.active_before i on), h.address_same i, h.count_same i, h.next_same);
  apart = λ i j ne on on'. elim (d.apart i j ne (h.active_before i on) (h.active_before j on')) [
    | inl low ↦ inl (omega (arith, low, h.address_same i, h.count_same i, h.address_same j))
    | inr low ↦ inr (omega (arith, low, h.address_same j, h.count_same j, h.address_same i))
  ];
}

-- What one call keeps, with `room` bytes for the addresses it may use up.
abbrev pub Keeps : Mappings → Mappings → Type 0
Keeps s t = IsDisjoint t × (t.next_address ≤ s.next_address + mapping_max_pages * page_size)

module _ (s : Mappings) (d : IsDisjoint s)
    (room : s.next_address + mapping_max_pages * page_size < 2 ^ 64) where
  stays : Keeps s s
  stays = (d, omega arith)

  module _ (i pages : ℕ) (v : Mapping) (lt : i < length s.mappings)
      (few : pages ≤ mapping_max_pages) (at : v.address ≡ s.next_address)
      (count : v.page_count ≡ pages) where
    abbrev added : Mappings
    added = record s {
      next_address = (s.next_address + pages * page_size) % 2 ^ 64;
      mappings = set s.mappings i v;
    }

    grown : added.next_address ≡ s.next_address + pages * page_size
    grown = omega (arith, room, few)

    here : mapping_at added i ≡ v
    here = get_or-set_self s.mappings i v no_mapping lt

    there : (j : ℕ) → i ≢ j → mapping_at added j ≡ mapping_at s j
    there j ne = get_or-set_ne s.mappings i j v no_mapping ne

    old_below :
        (j : ℕ)
        → i ≢ j
        → (mapping_at added j).active ≡ true
        → end_of (mapping_at added j) ≤ s.next_address
    old_below j ne on =
        subst (λ t. end_of t ≤ s.next_address) (sym (there j ne))
          (d.below j (sym (ap (λ (t : Mapping). t.active) (there j ne)) ∙ on))

    -- The new mapping starts where the old ones end.
    new_above : s.next_address ≡ (mapping_at added i).address
    new_above = sym (ap (λ (t : Mapping). t.address) here ∙ at)

    added-IsDisjoint : IsDisjoint added
    added-IsDisjoint = record {
      sized = length-set s.mappings i v ∙ d.sized;
      below = λ j on. elim (ℕ_discrete i j) [
        | yes e ↦
            subst (λ k. end_of (mapping_at added k) ≤ added.next_address) e
              (omega (arith, grown, new_above, ap (λ (t : Mapping). t.page_count) here, count))
        | no ne ↦ omega (arith, old_below j ne on, grown)
      ];
      apart = λ j k ne on on'. elim (ℕ_discrete i j) [
        | yes e ↦
            let ne' : i ≢ k = λ e'. ne (sym e ∙ e') in
            inr (
              subst (λ n. end_of (mapping_at added k) ≤ (mapping_at added n).address) e
                (omega (arith, old_below k ne' on', new_above)))
        | no ne' ↦ elim (ℕ_discrete i k) [
          | yes e ↦ inl (
              subst (λ n. end_of (mapping_at added j) ≤ (mapping_at added n).address) e
                (omega (arith, old_below j ne' on, new_above)))
          | no ne'' ↦
              let left = there j ne' in
              let right = there k ne'' in
              subst
                (λ t.
                  (end_of t ≤ (mapping_at added k).address)
                  ⊎ (end_of (mapping_at added k) ≤ t.address))
                (sym left)
                (subst
                  (λ t.
                    (end_of (mapping_at s j) ≤ t.address) ⊎ (end_of t ≤ (mapping_at s j).address))
                  (sym right)
                  (d.apart j k ne (sym (ap (λ (t : Mapping). t.active) left) ∙ on)
                    (sym (ap (λ (t : Mapping). t.active) right) ∙ on')))
        ]
      ];
    }

    added-Keeps : Keeps s added
    added-Keeps = (added-IsDisjoint, omega (arith, grown, few))

  pub map_file-Keeps :
      (file_id byte_count : ℕ) (writable demand_paged : Bool)
      → Keeps s (map_file file_id byte_count writable demand_paged s).1
  unfolding map_file map_at
  map_file-Keeps file_id byte_count writable demand_paged =
      let P : ℕ × Mappings → Type 0 = λ r. Keeps s r.1 in
      let pages = pages_of byte_count in
      by_if P (pages == 0 || ltb mapping_max_pages pages) _ _ (λ _. stays)
        (λ go.
          by_option P (find_first (λ (v : Mapping). not v.active) s.mappings) _ _ (λ _. stays)
            (λ i e.
              let lt = find_first-lt (λ (v : Mapping). not v.active) s.mappings i e in
              let (disjoint, bound) = added-Keeps i pages _ lt (ground (arith, go)) refl refl in
              by_if P (not demand_paged) _ _
                (λ _.
                  let h = fill-Shrinks pages 0 i _ in
                  (Shrinks-IsDisjoint _ _ h disjoint, omega (arith, h.next_same, bound)))
                (λ _. (disjoint, bound))))
