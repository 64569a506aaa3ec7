-- ===== src/Memory/Swap.antt =====
-- kernel/src/kernel.cpp, class SwapManager: pages copied out to backing pages, and back. The slot -1
-- of a failure is `none`, and a null `m_PhysicalMemory` is `attached = false`.
pub mod Slots
pub mod Return
mod Tests
use uefi_boot_system.Prelude.{
  ℕ, ◌≡◌, Bool, true, false, not, ◌||◌, List, Option, none, some, if◌then◌else◌, leb, ◌==◌, get_or,
  set, replicate,
}
use uefi_boot_system.Prelude.Table.{find_first}
use uefi_boot_system.Memory.Pmm.{allocate_page, free_page}
use uefi_boot_system.Memory.Frames.{Frames, copy_page}

pub record SwapSlot : Type 0 where
  pub backing : ℕ
  pub used : Bool

pub record Swap : Type 0 where
  pub attached : Bool
  pub slots : List SwapSlot

abbrev pub swap_slot_count : ℕ
swap_slot_count = 16

abbrev pub blank_slot : SwapSlot
blank_slot = record { backing = 0; used = false }

abbrev pub is_used : SwapSlot → Bool
is_used slot = slot.used

abbrev pub backing_of : SwapSlot → ℕ
backing_of slot = slot.backing

abbrev pub slot_at : Swap → ℕ → SwapSlot
slot_at s i = get_or s.slots i blank_slot

pub swap_init : Swap
swap_init = record { attached = true; slots = replicate swap_slot_count blank_slot }

-- The round of the loop in `SwapOut` that meets the first free slot.
pub swap_to : ℕ → ℕ → Swap → Frames → Option ℕ × Swap × Frames
swap_to i physical s f =
    let (backing, pmm) = allocate_page f.pmm in
    if backing == 0 then (none, s, record f { pmm = pmm }) else (
      some i,
      record s { slots = set s.slots i (record { backing = backing; used = true }) },
      record { pmm = pmm; bytes = copy_page backing physical f.bytes },
    )

pub swap_out : ℕ → Swap → Frames → Option ℕ × Swap × Frames
swap_out physical s f =
    if not s.attached || physical == 0
    then (none, s, f)
    else elim (find_first (λ slot. not (is_used slot)) s.slots) [
      | none ↦ (none, s, f)
      | some i ↦ swap_to i physical s f
    ]

pub swap_in : ℕ → ℕ → Swap → Frames → Bool × Swap × Frames
swap_in slot destination s f =
    let entry = slot_at s slot in
    if not s.attached || leb swap_slot_count slot || not entry.used || destination == 0
    then (false, s, f)
    else (
      true,
      record s { slots = set s.slots slot blank_slot },
      record {
        pmm = free_page entry.backing f.pmm;
        bytes = copy_page destination entry.backing f.bytes;
      },
    )
