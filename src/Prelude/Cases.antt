-- ===== src/Prelude/Cases.antt =====
-- A property of a result, by the case that computes it.
use mathlib.Core.Path.{◌≡◌, refl}
use mathlib.Core.Bool.{Bool, true, false}
use mathlib.Core.Option.{Option, none, some}
use uefi_boot_system.Prelude.Tests.{if◌then◌else◌}

pub by_option :
    {A B : Type 0} (P : B → Type 0) (o : Option A) (b : B) (f : A → B)
    → (o ≡ none → P b)
    → ((a : A) → o ≡ some a → P (f a))
    → P (elim o [ none ↦ b | some a ↦ f a ])
by_option P none b f absent present = absent refl
by_option P (some a) b f absent present = present a refl

pub by_if :
    {B : Type 0} (P : B → Type 0) (test : Bool) (x y : B)
    → (test ≡ true → P x)
    → (test ≡ false → P y)
    → P (if test then x else y)
by_if P true x y holds fails = holds refl
by_if P false x y holds fails = fails refl
