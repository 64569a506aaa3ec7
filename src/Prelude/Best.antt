-- ===== src/Prelude/Best.antt =====
-- Searches that keep the best candidate so far and replace it by a strictly better one:
-- `if (test(x)) if (!best || rank(x) > rank(*best)) best = x;`.
use Prim.Native.Nat.{ℕ, ◌≤◌, ◌<◌}
use mathlib.Core.Path.{◌≡◌, refl, ap, sym, subst}
use mathlib.Core.Logic.{◌⊎◌, inl, inr}
use mathlib.Core.Bool.{Bool, true, false}
use mathlib.Core.List.{List, [], ◌∷◌, ◌++◌}
use mathlib.Core.Option.{Option, none, some}
use native.Mathlib.Omega.{arith}
use uefi_boot_system.Prelude.Tests.{ltb, if◌then◌else◌, Bool-cases}
use uefi_boot_system.Prelude.Lists.{All}

module _ {A : Type 0} (test : A → Bool) (rank : A → ℕ) where
  unfoldable pub best_of : List A → Option A → Option A
  best_of [] best = best
  best_of (x ∷ xs) none =
      let taken = best_of xs (some x) in
      let skipped = best_of xs none in if test x then taken else skipped
  best_of (x ∷ xs) (some b) =
      let taken = best_of xs (some x) in
      let skipped = best_of xs (some b) in
      if test x then (if ltb (rank b) (rank x) then taken else skipped) else skipped

  -- The first of the best candidates, or none where no item is a candidate.
  abbrev pub IsBest : List A → Option A → Type 0
  IsBest items none = All (λ x. test x ≡ false) items
  IsBest items (some a) =
      (before : List A) × (after : List A) × (items ≡ before ++ a ∷ after)
      × (test a ≡ true)
      × All (λ x. test x ≡ true → rank x < rank a) before
      × All (λ x. test x ≡ true → rank x ≤ rank a) after

  no_higher :
      (a : A) (before after : List A)
      → All (λ x. test x ≡ true → rank x < rank a) before
      → All (λ x. test x ≡ true → rank x ≤ rank a) after
      → All (λ x. test x ≡ true → rank x ≤ rank a) (before ++ a ∷ after)
  no_higher a [] after low high = ((λ r. omega arith), high)
  no_higher a (x ∷ xs) after (less, low) high =
      ((λ r. omega (arith, less r)), no_higher a xs after low high)

  -- No candidate beats the best one.
  pub IsBest-All :
      (items : List A) (a : A)
      → IsBest items (some a)
      → All (λ x. test x ≡ true → rank x ≤ rank a) items
  IsBest-All items a (before, after, split, ok, low, high) =
      subst (All (λ x. test x ≡ true → rank x ≤ rank a)) (sym split)
        (no_higher a before after low high)

  -- What the search answers when it starts with a candidate.
  abbrev Improves : A → List A → A → Type 0
  Improves b items a =
      ((a ≡ b) × All (λ x. test x ≡ true → rank x ≤ rank a) items)
      ⊎ ((rank b < rank a) × IsBest items (some a))

  improves :
      (b : A) (items : List A) → (a : A) × (best_of items (some b) ≡ some a) × Improves b items a
  unfolding best_of
  improves b [] = (b, refl, inl (refl, tt))
  improves b (x ∷ xs) = elim (Bool-cases (test x)) [
    | inr e ↦
        let (a, run, how) = improves b xs in
        (
          a,
          rw e run,
          elim how [
            | inl (same, rest) ↦ inl (same, ((λ t. absurd (ground (arith, t))), rest))
            | inr (more, (before, after, split, ok, low, high)) ↦ inr (
              more,
              (
                x ∷ before,
                after,
                ap (λ t. x ∷ t) split,
                ok,
                ((λ t. absurd (ground (arith, t))), low),
                high,
              ),
            )
          ],
        )
    | inl e ↦ elim (Bool-cases (ltb (rank b) (rank x))) [
      | inl l ↦
          let (a, run, how) = improves x xs in
          (
            a,
            rw (e, l) run,
            inr (elim how [
              | inl (same, rest) ↦
                  (rw same (ground arith), ([], xs, rw same refl, rw same e, tt, rest))
              | inr (more, (before, after, split, ok, low, high)) ↦ (
                ground arith,
                (x ∷ before, after, ap (λ t. x ∷ t) split, ok, ((λ t. more), low), high),
              )
            ]),
          )
      | inr l ↦
          let (a, run, how) = improves b xs in
          (
            a,
            rw (e, l) run,
            elim how [
              | inl (same, rest) ↦ inl (same, ((λ t. rw same (ground arith)), rest))
              | inr (more, (before, after, split, ok, low, high)) ↦ inr (
                more,
                (x ∷ before, after, ap (λ t. x ∷ t) split, ok, ((λ t. ground arith), low), high),
              )
            ],
          )
    ]
  ]

  pub best_of-IsBest : (items : List A) → IsBest items (best_of items none)
  unfolding best_of
  best_of-IsBest [] = tt
  best_of-IsBest (x ∷ xs) = elim (Bool-cases (test x)) [
    | inl e ↦
        let (a, run, how) = improves x xs in
        rw (e, run)
          (elim how [
            | inl (same, rest) ↦ ([], xs, rw same refl, rw same e, tt, rest)
            | inr (more, (before, after, split, ok, low, high)) ↦
                (x ∷ before, after, ap (λ t. x ∷ t) split, ok, ((λ t. more), low), high)
          ])
    | inr e ↦ rw e (skipped e (best_of xs none) (best_of-IsBest xs))
  ]
    where
      skipped : test x ≡ false → (answer : Option A) → IsBest xs answer → IsBest (x ∷ xs) answer
      skipped e none a = (e, a)
      skipped e (some a) (before, after, split, ok, low, high) = (
        x ∷ before,
        after,
        ap (λ t. x ∷ t) split,
        ok,
        ((λ t. absurd (ground (arith, t))), low),
        high,
      )
