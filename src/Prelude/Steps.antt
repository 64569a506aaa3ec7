-- ===== src/Prelude/Steps.antt =====
-- Operations on a state that answer `bool`, and the way the sources chain them.
use mathlib.Core.Bool.{Bool, true, false}
use mathlib.Core.List.{List, [], ◌∷◌}
use uefi_boot_system.Prelude.Tests.{if◌then◌else◌}

module _ {S : Type 0} where
  -- `if (!step()) return false;` for each step, or `step() && step() && ...`.
  abbrev pub all_steps : List (S → Bool × S) → S → Bool × S
  all_steps [] s = (true, s)
  all_steps (step ∷ steps) s =
      let r = step s in let rest = all_steps steps r.1 in if r.0 then rest else (false, r.1)

  -- A test that reads the state.
  abbrev pub ask : (S → Bool) → S → Bool × S
  ask test s = (test s, s)
