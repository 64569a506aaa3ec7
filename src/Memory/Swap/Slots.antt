-- ===== src/Memory/Swap/Slots.antt =====
-- SwapManager: every used slot owns its backing page.
use uefi_boot_system.Prelude.{
  ℕ, ◌<◌, ◌≡◌, inl, inr, refl, ◌∙◌, Bool, true, false, not, ◌||◌, Option, leb, ◌==◌, arith, length,
  length-set, set,
}
use uefi_boot_system.Prelude.Table.{find_first, find_first-lt}
use uefi_boot_system.Prelude.Cases.{by_option, by_if}
use uefi_boot_system.Memory.Pmm.{allocate_page}
use uefi_boot_system.Memory.Pmm.Page.{TakesPage, allocate_page_lem}
use uefi_boot_system.Memory.Frames.{Frames}
use uefi_boot_system.Memory.Frames.Owned.{IsOwned, IsOwned-take, IsOwned-drop}
use uefi_boot_system.Memory.Swap.{
  Swap, swap_slot_count, blank_slot, is_used, backing_of, slot_at, swap_to, swap_out, swap_in,
}

pub record IsSwap (s : Swap) (f : Frames) : Type 0 where
  pub owned : IsOwned is_used backing_of blank_slot s.slots f.pmm
  pub sized : length s.slots ≡ swap_slot_count

pub taken-IsSwap :
    (i page : ℕ) (s : Swap) (f : Frames)
    → IsSwap s f
    → i < length s.slots
    → TakesPage f.pmm (allocate_page f.pmm) page
    → (b : ℕ → ℕ)
    → IsSwap
        (record s {
          slots = set s.slots i (record { backing = (allocate_page f.pmm).0; used = true });
        })
        (record { pmm = (allocate_page f.pmm).1; bytes = b })
taken-IsSwap i page s f w lt t b = record {
  owned =
      IsOwned-take is_used backing_of blank_slot s.slots f.pmm (allocate_page f.pmm) page i _
        w.owned t refl lt;
  sized = length-set s.slots i _ ∙ w.sized;
}

pub swap_out-IsSwap :
    (physical : ℕ) (s : Swap) (f : Frames)
    → IsSwap s f
    → let r = swap_out physical s f in IsSwap r.1 r.2
unfolding swap_out swap_to
swap_out-IsSwap physical s f w =
    let P : Option ℕ × Swap × Frames → Type 0 = λ r. IsSwap r.1 r.2 in
    by_if P (not s.attached || physical == 0) _ _ (λ _. w)
      (λ _.
        by_option P (find_first (λ slot. not (is_used slot)) s.slots) _ _ (λ _. w)
          (λ i e. elim (allocate_page_lem f.pmm w.owned.valid w.owned.reserved) [
            | inl failed ↦ rw failed w
            | inr (page, t) ↦
                let got : ((allocate_page f.pmm).0 == 0) ≡ false =
                  ground (arith, t.address, t.positive) in
                rw got (
                  taken-IsSwap i page s f w (find_first-lt (λ slot. not (is_used slot)) s.slots i e)
                    t _)
          ]))

pub swap_in-IsSwap :
    (slot destination : ℕ) (s : Swap) (f : Frames)
    → IsSwap s f
    → let r = swap_in slot destination s f in IsSwap r.1 r.2
unfolding swap_in
swap_in-IsSwap slot destination s f w =
    by_if (λ (r : Bool × Swap × Frames). IsSwap r.1 r.2)
      (not s.attached || leb swap_slot_count slot || not (slot_at s slot).used || destination == 0)
      _ _ (λ _. w)
      (λ go. record {
        owned =
            IsOwned-drop is_used backing_of blank_slot s.slots f.pmm slot blank_slot w.owned
              (ground (arith, go)) refl (ground (arith, go, w.sized));
        sized = length-set s.slots slot _ ∙ w.sized;
      })
