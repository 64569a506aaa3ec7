-- ===== src/Prelude/Table.antt =====
-- Fixed tables of slots: the loops `for (i = 0; i < kMax; i++) if (test(slot[i])) return &slot[i];`.
-- A pointer into a table is the index of its slot, and a null pointer is `none`.
use Prim.Native.Nat.{ℕ, zero, suc, ◌≤◌, ◌<◌}
use mathlib.Core.Path.{◌≡◌, refl}
use mathlib.Core.Bool.{Bool, true, false}
use mathlib.Core.List.{List, [], ◌∷◌}
use mathlib.Core.Option.{Option, none, some}
use native.Mathlib.Omega.{arith}
use uefi_boot_system.Prelude.Tests.{if◌then◌else◌}
use uefi_boot_system.Prelude.Lists.{length, get_or, set}

abbrev pub next_slot : Option ℕ → Option ℕ
next_slot none = none
next_slot (some i) = some (suc i)

module _ {ℓ} {A : Type ℓ} (test : A → Bool) where
  -- The index of the first slot that passes the test.
  unfoldable pub find_first : List A → Option ℕ
  find_first [] = none
  find_first (x ∷ xs) = if test x then some 0 else next_slot (find_first xs)

  pub find_first-lt : (xs : List A) (i : ℕ) → find_first xs ≡ some i → i < length xs
  unfolding find_first
  find_first-lt [] i e = cc
  find_first-lt (x ∷ xs) zero e = omega arith
  find_first-lt (x ∷ xs) (suc i) e = ground (arith, find_first-lt xs i)

  pub find_first-test :
      (xs : List A) (i : ℕ) (d : A) → find_first xs ≡ some i → test (get_or xs i d) ≡ true
  unfolding find_first
  find_first-test [] i d e = cc
  find_first-test (x ∷ xs) zero d e = ground arith
  find_first-test (x ∷ xs) (suc i) d e = ground (arith, find_first-test xs i d)

  pub find_first_before :
      (xs : List A) (i j : ℕ) (d : A)
      → find_first xs ≡ some i
      → j < i
      → test (get_or xs j d) ≡ false
  unfolding find_first
  find_first_before [] i j d e h = cc
  find_first_before (x ∷ xs) zero j d e h = absurd (omega arith)
  find_first_before (x ∷ xs) (suc i) zero d e h = ground arith
  find_first_before (x ∷ xs) (suc i) (suc j) d e h = ground (arith, find_first_before xs i j d)

  pub find_first-none :
      (xs : List A) (j : ℕ) (d : A)
      → find_first xs ≡ none
      → j < length xs
      → test (get_or xs j d) ≡ false
  unfolding find_first
  find_first-none [] j d e h = absurd (omega arith)
  find_first-none (x ∷ xs) zero d e h = ground arith
  find_first-none (x ∷ xs) (suc j) d e h = ground (arith, find_first-none xs j d)

  -- A search succeeds when any slot passes.
  pub find_first-some :
      (xs : List A) (j : ℕ) (d : A)
      → j < length xs
      → test (get_or xs j d) ≡ true
      → (i : ℕ) × (find_first xs ≡ some i) × (i ≤ j)
  unfolding find_first
  find_first-some [] j d h t = absurd (omega arith)
  find_first-some (x ∷ xs) zero d h t = (0, ground arith, omega arith)
  find_first-some (x ∷ xs) (suc j) d h t = go (test x) refl (find_first-some xs j d (omega arith) t)
    where
      go :
          (b : Bool)
          → test x ≡ b
          → (i : ℕ) × (find_first xs ≡ some i) × (i ≤ j)
          → (i : ℕ) × (find_first (x ∷ xs) ≡ some i) × (i ≤ suc j)
      go true e r = (0, ground arith, omega arith)
      go false e r = (suc r.0, ground (arith, r.1), omega (arith, r.2))

  -- A write that changes no test changes no search.
  pub find_first-set :
      (xs : List A) (i : ℕ) (v d : A)
      → test v ≡ test (get_or xs i d)
      → find_first (set xs i v) ≡ find_first xs
  unfolding find_first
  find_first-set [] i v d e = refl
  find_first-set (x ∷ xs) zero v d e = rw e refl
  find_first-set (x ∷ xs) (suc i) v d e = rw (find_first-set xs i v d e) refl
