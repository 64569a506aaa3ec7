-- ===== src/Memory/Swap/Return.antt =====
-- SwapManager: what a page holds when it comes back.
use mathlib.Core.Option.{some-injective}
use uefi_boot_system.Prelude.{
  ℕ, ◌+◌, ◌<◌, ◌≡◌, ◌≢◌, inl, inr, refl, ap, ◌∙◌, subst, true, false, not, ◌||◌, Option, some, leb,
  ◌==◌, arith, length, set, get_or-set_self,
}
use uefi_boot_system.Prelude.Table.{find_first, find_first-lt}
use uefi_boot_system.Prelude.Cases.{by_option, by_if}
use uefi_boot_system.Memory.Pmm.{allocate_page, page_size}
use uefi_boot_system.Memory.Pmm.Page.{TakesPage, allocate_page_lem}
use uefi_boot_system.Memory.Frames.{Frames, Bytes, Apart, copy_page, copy_page_same}
use uefi_boot_system.Memory.Frames.Owned.{Uses, fresh-Apart}
use uefi_boot_system.Memory.Swap.{
  Swap, SwapSlot, swap_slot_count, blank_slot, is_used, backing_of, slot_at, swap_to, swap_out,
  swap_in,
}
use uefi_boot_system.Memory.Swap.Slots.{IsSwap, taken-IsSwap, swap_in-IsSwap}

-- The slot holds a backing page with the bytes of page `physical`.
pub record Holds (physical i : ℕ) (f : Frames) (s : Swap) (g : Frames) : Type 0 where
  pub keeps : IsSwap s g
  pub set_up : s.attached ≡ true
  pub inside : i < swap_slot_count
  pub taken : (slot_at s i).used ≡ true
  pub bytes :
      (offset : ℕ)
      → offset < page_size
      → g.bytes ((slot_at s i).backing + offset) ≡ f.bytes (physical + offset)

module _ (physical k page : ℕ) (s : Swap) (f : Frames) (w : IsSwap s f) (u : Uses f.pmm physical)
    (ready : s.attached ≡ true) (lt : k < length s.slots)
    (t : TakesPage f.pmm (allocate_page f.pmm) page) where
  abbrev entry : SwapSlot
  entry = record { backing = (allocate_page f.pmm).0; used = true }

  abbrev after : Swap
  after = record s { slots = set s.slots k entry }

  abbrev memory : Frames
  memory = record {
    pmm = (allocate_page f.pmm).1;
    bytes = copy_page (allocate_page f.pmm).0 physical f.bytes;
  }

  written : slot_at after k ≡ entry
  written = get_or-set_self s.slots k entry blank_slot lt

  after-Holds : Holds physical k f after memory
  after-Holds = record {
    keeps = taken-IsSwap k page s f w lt t _;
    set_up = ready;
    inside = omega (arith, lt, w.sized);
    taken = ap is_used written;
    bytes = λ offset small.
        ap (λ a. memory.bytes (a + offset)) (ap backing_of written)
        ∙ copy_page_same entry.backing physical offset f.bytes
            (fresh-Apart f.pmm (allocate_page f.pmm) page physical t u) small;
  }

  after-Holds_at : (i : ℕ) → k ≡ i → Holds physical i f after memory
  after-Holds_at i e = subst (λ n. Holds physical n f after memory) e after-Holds

swap_out-Holds :
    (physical : ℕ) (s : Swap) (f : Frames) (i : ℕ)
    → IsSwap s f
    → Uses f.pmm physical
    → (swap_out physical s f).0 ≡ some i
    → let r = swap_out physical s f in Holds physical i f r.1 r.2
unfolding swap_out swap_to
swap_out-Holds physical s f i w u =
    let P : Option ℕ × Swap × Frames → Type 0 = λ r. r.0 ≡ some i → Holds physical i f r.1 r.2 in
    by_if P (not s.attached || physical == 0) _ _ (λ _ done. absurd (cc done))
      (λ go.
        by_option P (find_first (λ slot. not (is_used slot)) s.slots) _ _
          (λ _ done. absurd (cc done))
          (λ k e. elim (allocate_page_lem f.pmm w.owned.valid w.owned.reserved) [
            | inl failed ↦ rw failed (λ done. absurd (cc done))
            | inr (page, t) ↦
                let got : ((allocate_page f.pmm).0 == 0) ≡ false =
                  ground (arith, t.address, t.positive) in
                let lt = find_first-lt (λ slot. not (is_used slot)) s.slots k e in
                rw got (λ done.
                  after-Holds_at physical k page s f w u (ground (arith, go)) lt t i
                    (some-injective _ _ done))
          ]))

returned :
    (physical destination i : ℕ) (f : Frames) (s : Swap) (g : Frames)
    → Holds physical i f s g
    → destination ≢ 0
    → Apart destination (slot_at s i).backing
    → let back = swap_in i destination s g in
      (back.0 ≡ true)
      × ((offset : ℕ)
          → offset < page_size
          → back.2.bytes (destination + offset) ≡ f.bytes (physical + offset))
      × IsSwap back.1 back.2
      × (slot_at back.1 i ≡ blank_slot)
unfolding swap_in
returned physical destination i f s g h real apart =
    let guard : (not s.attached
          || leb swap_slot_count i
          || not (slot_at s i).used
          || destination == 0)
        ≡ false =
      ground (arith, h.set_up, h.inside, h.taken, real) in
    (
      rw guard refl,
      λ offset small. rw guard (
          copy_page_same destination (slot_at s i).backing offset g.bytes apart small
          ∙ h.bytes offset small),
      swap_in-IsSwap i destination s g h.keeps,
      rw guard (
          get_or-set_self s.slots i blank_slot blank_slot (omega (arith, h.inside, h.keeps.sized))),
    )

-- When `SwapOut` of a used page answers a slot, with the manager in order, `SwapIn` of that slot
-- answers true and brings back the bytes that the page held, whatever bytes were written meanwhile
-- outside the backing page, to any destination that is not null and does not overlap the backing
-- page; the manager stays in order and the slot is free again.
pub swap_in-swap_out :
    (physical destination : ℕ) (s : Swap) (f : Frames) (i : ℕ) (b : Bytes)
    → IsSwap s f
    → Uses f.pmm physical
    → (swap_out physical s f).0 ≡ some i
    → (let r = swap_out physical s f in
        let backing = (slot_at r.1 i).backing in
        destination ≢ 0
        → Apart destination backing
        → ((offset : ℕ) → offset < page_size → b (backing + offset) ≡ r.2.bytes (backing + offset))
        → let back = swap_in i destination r.1 (record { pmm = r.2.pmm; bytes = b }) in
          (back.0 ≡ true)
          × ((offset : ℕ)
              → offset < page_size
              → back.2.bytes (destination + offset) ≡ f.bytes (physical + offset))
          × IsSwap back.1 back.2
          × (slot_at back.1 i ≡ blank_slot))
swap_in-swap_out physical destination s f i b w u done real apart same =
    let r = swap_out physical s f in
    let h = swap_out-Holds physical s f i w u done in
    returned physical destination i f r.1 (record { pmm = r.2.pmm; bytes = b })
      (record {
        keeps = record { owned = h.keeps.owned; sized = h.keeps.sized };
        set_up = h.set_up;
        inside = h.inside;
        taken = h.taken;
        bytes = λ offset small. same offset small ∙ h.bytes offset small;
      })
      real apart
