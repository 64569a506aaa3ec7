-- ===== src/Prelude/Text.antt =====
-- C strings, and the helpers that several kernel files repeat: `StringEquals` and `StringLength`.
-- A text is its bytes before the terminator; a pointer that may be null is an option.
use Prim.Native.Char.{code}
use Prim.Native.String.{String}
use Prim.Native.Nat.{ℕ}
use mathlib.Core.Path.{◌≡◌, refl, sym, ap}
use mathlib.Core.Logic.{◌↔◌}
use mathlib.Core.Bool.{Bool, true, false}
use mathlib.Core.List.{List, [], ◌∷◌}
use mathlib.Core.Option.{Option, none, some, some-injective}
use native.Mathlib.Omega.{arith}
use uefi_boot_system.Prelude.Tests.{◌==◌, if◌then◌else◌}
use uefi_boot_system.Prelude.Lists.{length}

abbrev pub Text : Type 0
Text = List ℕ

-- A literal of the source.
abbrev pub text : String → Text
text String.[] = []
text (String.◌∷◌ c s) = code c ∷ text s

-- The loop of `StringEquals`, and the test after it.
unfoldable pub equals_loop : Text → Text → Bool
equals_loop [] [] = true
equals_loop [] (y ∷ ys) = false
equals_loop (x ∷ xs) [] = false
equals_loop (x ∷ xs) (y ∷ ys) = if x == y then equals_loop xs ys else false

unfoldable pub string_equals : Option Text → Option Text → Bool
unfolding equals_loop
string_equals (some a) (some b) = equals_loop a b
string_equals (some a) none = false
string_equals none b = false

unfoldable pub string_length : Option Text → ℕ
string_length none = 0
string_length (some s) = length s

equals_loop_sound : (a b : Text) → equals_loop a b ≡ true → a ≡ b
unfolding equals_loop
equals_loop_sound [] [] h = refl
equals_loop_sound [] (y ∷ ys) h = cc
equals_loop_sound (x ∷ xs) [] h = cc
equals_loop_sound (x ∷ xs) (y ∷ ys) h = ground (arith, equals_loop_sound xs ys)

equals_loop_refl : (a : Text) → equals_loop a a ≡ true
unfolding equals_loop
equals_loop_refl [] = refl
equals_loop_refl (x ∷ xs) = ground (arith, equals_loop_refl xs)

-- `StringEquals` is equality of texts, and false on a null pointer.
pub string_equals_iff :
    (a b : Option Text) → (string_equals a b ≡ true) ↔ ((t : Text) × (a ≡ some t) × (b ≡ some t))
unfolding string_equals
string_equals_iff (some a) (some b) = (
  λ h. (a, refl, ap some (sym (equals_loop_sound a b h))),
  λ e.
      let left : a ≡ e.0 = some-injective _ _ e.1 in
      let right : b ≡ e.0 = some-injective _ _ e.2 in rw (left, right) (equals_loop_refl e.0),
)
string_equals_iff (some a) none = (λ h. cc, λ e. absurd (ground (arith, e.2)))
string_equals_iff none b = (λ h. cc, λ e. absurd (ground (arith, e.1)))

pub string_equals_sound : (a b : Text) → string_equals (some a) (some b) ≡ true → a ≡ b
unfolding string_equals
string_equals_sound = equals_loop_sound

pub string_equals_refl : (a : Text) → string_equals (some a) (some a) ≡ true
unfolding string_equals
string_equals_refl = equals_loop_refl
