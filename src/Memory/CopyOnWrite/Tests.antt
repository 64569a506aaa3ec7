-- ===== src/Memory/CopyOnWrite/Tests.antt =====
-- CopyOnWriteManager at concrete inputs.
use uefi_boot_system.Prelude.{
  refl, true, List, [], ◌∷◌, arith, set, replicate, get_or-replicate, ap,
}
use uefi_boot_system.Memory.Pmm.Tests.{eight_free, eight_free-IsValid, eight_free-used}
use uefi_boot_system.Memory.Frames.{Frames}
use uefi_boot_system.Memory.Frames.Owned.{IsOwned-set, IsOwned-replicate}
use uefi_boot_system.Memory.CopyOnWrite.{
  CopyOnWrite, cow_init, resolve_write, is_active, physical_of, blank_page,
}
use uefi_boot_system.Memory.CopyOnWrite.Tracked.{IsCow, IsCounted-set}
use uefi_boot_system.Memory.CopyOnWrite.Resolve.{Outcome, resolve_write-Outcome}
use uefi_boot_system.Memory.CopyOnWrite.Run.{
  CowCall, allocate_call, clone_call, resolve_call, release_call, run_calls, run_calls-IsCow,
}

abbrev start : Frames
start = record { pmm = eight_free; bytes = λ _. 7 }

abbrev calls : List CowCall
calls = allocate_call ∷ clone_call 0x200000 ∷ resolve_call 0x200000 ∷ release_call 0x200000 ∷ []

run_calls-IsCow_example :
    IsCow (run_calls calls cow_init start).0 (run_calls calls cow_init start).1
run_calls-IsCow_example =
    run_calls-IsCow calls start eight_free-IsValid (eight_free-used 0 (omega arith))

-- Slot 0 shares page 0x1000, which two owners refer to.
abbrev shared : CopyOnWrite
shared = record {
  attached = true;
  pages = set cow_init.pages 0 (record { physical = 0x1000; references = 2; active = true });
}

shared-IsCow : IsCow shared start
unfolding cow_init
shared-IsCow = record {
  owned =
      IsOwned-set is_active physical_of blank_page (replicate 128 blank_page) eight_free eight_free
        0 (record { physical = 0x1000; references = 2; active = true })
        (IsOwned-replicate is_active physical_of blank_page 128 eight_free refl eight_free-IsValid
          (eight_free-used 0 (omega arith)))
        eight_free-IsValid (eight_free-used 0 (omega arith))
        (λ j _ on. absurd (cc (on, ap is_active (get_or-replicate 128 j blank_page))))
        (λ _. record {
          page = 1;
          positive = omega arith;
          managed = omega arith;
          address_of = refl;
          is_used = eight_free-used 1 (omega arith);
        })
        (λ j _ _ on. absurd (cc (on, ap is_active (get_or-replicate 128 j blank_page))))
        (omega arith);
  sized = refl;
  counted =
      IsCounted-set cow_init 0 _
        (λ j on. absurd (cc (on, ap is_active (get_or-replicate 128 j blank_page))))
        (λ _. omega arith);
}

resolve_write-Outcome_example : Outcome 0x1000 shared start (resolve_write 0x1000 shared start)
resolve_write-Outcome_example = resolve_write-Outcome 0x1000 shared start shared-IsCow
