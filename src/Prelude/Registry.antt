-- ===== src/Prelude/Registry.antt =====
-- Tables that only grow: `if (count >= kMax) return false; table[count] = entry; count++;`.
-- The entries are the slots below the count.
use Prim.Native.Nat.{ℕ, zero, suc, ◌+◌, ◌≤◌, ◌<◌}
use mathlib.Core.Path.{◌≡◌, refl, ap, ◌∙◌, subst}
use mathlib.Core.Logic.{inl, inr}
use mathlib.Core.Bool.{Bool, true, false}
use mathlib.Core.List.{List, [], ◌∷◌, ◌++◌}
use mathlib.Core.Option.{Option, none, some, some-injective}
use native.Mathlib.Numerals.{add-one}
use native.Mathlib.Omega.{arith}
use uefi_boot_system.Prelude.Tests.{Bool-cases, if◌then◌else◌, leb}
use uefi_boot_system.Prelude.Lists.{length, set, take, replicate, length-set, length-replicate}

pub record Registry {ℓ} (A : Type ℓ) : Type ℓ where
  pub slots : List A
  pub count : ℕ

module _ {ℓ} {A : Type ℓ} where
  unfoldable pub empty : ℕ → A → Registry A
  empty max a = record { slots = replicate max a; count = 0 }

  unfoldable pub entries : Registry A → List A
  entries r = take r.count r.slots

  -- `none` when the table is full.
  unfoldable pub register : ℕ → A → Registry A → Option (Registry A)
  register max a r =
      if leb max r.count
      then none
      else some (record { slots = set r.slots r.count a; count = r.count + 1 })

  -- The first entry that passes a test.
  unfoldable pub find : (A → Bool) → List A → Option A
  find test [] = none
  find test (x ∷ xs) = if test x then some x else find test xs

  pub record IsBounded (max : ℕ) (r : Registry A) : Type 0 where
    pub sized : length r.slots ≡ max
    pub counted : r.count ≤ max

  pub empty-IsBounded : (max : ℕ) (a : A) → IsBounded max (empty max a)
  unfolding empty
  empty-IsBounded max a = record { sized = length-replicate max a; counted = omega arith }

  take-set :
      (xs : List A) (n : ℕ) (a : A)
      → n < length xs
      → take (suc n) (set xs n a) ≡ take n xs ++ a ∷ []
  take-set [] n a h = absurd (omega arith)
  take-set (x ∷ xs) zero a h = refl
  take-set (x ∷ xs) (suc n) a h = ap (λ t. x ∷ t) (take-set xs n a (omega arith))

  -- A registration appends one entry and keeps the table within its bounds.
  pub register_lem :
      (max : ℕ) (a : A) (r r' : Registry A)
      → IsBounded max r
      → register max a r ≡ some r'
      → (entries r' ≡ entries r ++ a ∷ []) × IsBounded max r' × (r'.count ≡ r.count + 1)
  unfolding register entries
  register_lem max a r r' b e = elim (Bool-cases (leb max r.count)) [
    | inl full ↦ absurd (ground arith)
    | inr room ↦
        subst (λ q. (entries q ≡ entries r ++ a ∷ []) × IsBounded max q × (q.count ≡ r.count + 1))
          (some-injective _ _ (rw (room, register) at e)) (appended room)
  ]
    where
      appended :
          leb max r.count ≡ false
          → let q : Registry A = record { slots = set r.slots r.count a; count = r.count + 1 } in
            (entries q ≡ entries r ++ a ∷ []) × IsBounded max q × (q.count ≡ r.count + 1)
      appended room = (
        rw add-one (take-set r.slots r.count a (ground arith)),
        record { sized = length-set r.slots r.count a ∙ b.sized; counted = ground arith },
        refl,
      )

  -- It is refused exactly when the table is full.
  pub register_full :
      (max : ℕ) (a : A) (r : Registry A) → IsBounded max r → register max a r ≡ none → r.count ≡ max
  unfolding register
  register_full max a r b e = ground arith

  -- The first answer, or else the second.
  abbrev pub or_else : Option A → Option A → Option A
  or_else none b = b
  or_else (some a) b = some a

  pub find-append :
      (test : A → Bool) (xs ys : List A)
      → find test (xs ++ ys) ≡ or_else (find test xs) (find test ys)
  unfolding find
  find-append test [] ys = refl
  find-append test (x ∷ xs) ys = ground (arith, find-append test xs ys)

  pub find-test : (test : A → Bool) (xs : List A) (x : A) → find test xs ≡ some x → test x ≡ true
  unfolding find
  find-test test [] x e = cc
  find-test test (y ∷ ys) x e = ground (arith, find-test test ys x)
