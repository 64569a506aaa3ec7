-- ===== src/Memory/Swap/Tests.antt =====
-- SwapManager at concrete inputs.
use uefi_boot_system.Prelude.{
  ℕ, ◌+◌, ◌<◌, ◌≡◌, refl, true, false, some, arith, inl, inr, length-replicate, ◌==◌,
}
use uefi_boot_system.Prelude.Table.{find_first}
use uefi_boot_system.Memory.Pmm.{page_size, allocate_page}
use uefi_boot_system.Memory.Pmm.Page.{TakesPage, allocate_page_complete}
use uefi_boot_system.Memory.Pmm.Tests.{
  eight_free, eight_free-IsValid, eight_free-used, eight_free-free,
}
use uefi_boot_system.Memory.Frames.{Frames, Apart}
use uefi_boot_system.Memory.Frames.Owned.{Uses, fresh-Apart, IsOwned-replicate}
use uefi_boot_system.Memory.Swap.{
  swap_slot_count, blank_slot, is_used, backing_of, slot_at, swap_init, swap_to, swap_out, swap_in,
}
use uefi_boot_system.Memory.Swap.Slots.{IsSwap}
use uefi_boot_system.Memory.Swap.Return.{swap_in-swap_out}

abbrev start : Frames
start = record { pmm = eight_free; bytes = λ a. a }

start-IsSwap : IsSwap swap_init start
unfolding swap_init
start-IsSwap = record {
  owned =
      IsOwned-replicate is_used backing_of blank_slot swap_slot_count eight_free refl
        eight_free-IsValid (eight_free-used 0 (omega arith));
  sized = length-replicate swap_slot_count blank_slot;
}

page_five : Uses eight_free 0x5000
page_five = record {
  page = 5;
  positive = omega arith;
  managed = omega arith;
  address_of = refl;
  is_used = eight_free-used 5 (omega arith);
}

got : (page : ℕ) × TakesPage eight_free (allocate_page eight_free) page
got =
    allocate_page_complete eight_free 512 eight_free-IsValid (eight_free-used 0 (omega arith))
      (omega arith) (eight_free-free 512 (omega arith) (omega arith))

some_page : ((allocate_page eight_free).0 == 0) ≡ false
some_page = ground (arith, got.1.address, got.1.positive)

stored : (swap_out 0x5000 swap_init start).0 ≡ some 0
unfolding swap_out swap_to swap_init find_first
stored = rw some_page refl

away : Apart 0x5000 (slot_at (swap_out 0x5000 swap_init start).1 0).backing
unfolding swap_out swap_to swap_init find_first
away =
    rw some_page
      (elim (fresh-Apart eight_free (allocate_page eight_free) got.0 0x5000 got.1 page_five) [
        | inl before ↦ inr before
        | inr after ↦ inl after
      ])

swap_in-swap_out_example :
    let r = swap_out 0x5000 swap_init start in
    let back = swap_in 0 0x5000 r.1 (record { pmm = r.2.pmm; bytes = r.2.bytes }) in
    (back.0 ≡ true)
    × ((offset : ℕ)
        → offset < page_size
        → back.2.bytes (0x5000 + offset) ≡ start.bytes (0x5000 + offset))
    × IsSwap back.1 back.2
    × (slot_at back.1 0 ≡ blank_slot)
swap_in-swap_out_example =
    swap_in-swap_out 0x5000 0x5000 swap_init start 0 (swap_out 0x5000 swap_init start).2.bytes
      start-IsSwap page_five stored (omega arith) away (λ offset small. refl)
