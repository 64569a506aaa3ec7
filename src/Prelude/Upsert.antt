-- ===== src/Prelude/Upsert.antt =====
-- Tables with keys: one loop looks for the live slot of the key and updates it, a second one takes the
-- first slot that is not live: `for (...) if (live && same) { update; return true; }`.
use Prim.Native.Nat.{ℕ, zero, suc, ◌<◌}
use mathlib.Core.Path.{◌≡◌, refl, sym, ap, ◌∙◌, subst}
use mathlib.Core.Logic.{◌⊎◌, inl, inr}
use mathlib.Core.Bool.{Bool, true, false, not, ◌&&◌}
use mathlib.Core.List.{List, [], ◌∷◌}
use mathlib.Core.Option.{Option, none, some, some-injective}
use native.Mathlib.Omega.{arith}
use uefi_boot_system.Prelude.Lists.{length, length-set, get_or, set, get_or-set_self, get_or-set_ne}
use uefi_boot_system.Prelude.Cases.{by_option}
use uefi_boot_system.Prelude.Table.{
  find_first, find_first-lt, find_first-test, find_first-none, find_first_before, find_first-set,
}

module _ {A : Type 0} where
  -- Whether a slot was taken, and the table afterwards; `none` when the table is full.
  unfoldable pub upsert : (A → Bool) → (A → Bool) → (A → A) → A → List A → Option (Bool × List A)
  upsert live same update fresh xs = elim (find_first (λ x. live x && same x) xs) [
    | some i ↦ some (false, set xs i (update (get_or xs i fresh)))
    | none ↦ elim (find_first (λ x. not (live x)) xs) [
      | none ↦ none
      | some i ↦ some (true, set xs i fresh)
    ]
  ]

  -- The live slot of a key.
  unfoldable pub lookup : (A → Bool) → (A → Bool) → A → List A → Option A
  lookup live same d xs = elim (find_first (λ x. live x && same x) xs) [
    | none ↦ none
    | some i ↦ some (get_or xs i d)
  ]

  -- A search stops at a slot that passes, where none before it does.
  find_first_at :
      (test : A → Bool) (xs : List A) (i : ℕ) (d : A)
      → i < length xs
      → test (get_or xs i d) ≡ true
      → ((j : ℕ) → j < i → test (get_or xs j d) ≡ false)
      → find_first test xs ≡ some i
  unfolding find_first
  find_first_at test [] i d lt passes before = absurd (omega arith)
  find_first_at test (x ∷ xs) zero d lt passes before = rw passes refl
  find_first_at test (x ∷ xs) (suc i) d lt passes before =
      rw
        (
          before 0 (omega arith),
          find_first_at test xs i d (omega arith) passes (λ j h. before (suc j) (omega arith)),
        )
        refl

  module _ (live same : A → Bool) (d : A) where
    -- A written slot that passes is what the search finds, where none before it did.
    lookup-set_self :
        (xs : List A) (i : ℕ) (v : A)
        → i < length xs
        → (live v && same v) ≡ true
        → ((j : ℕ) → j < i → (live (get_or xs j d) && same (get_or xs j d)) ≡ false)
        → lookup live same d (set xs i v) ≡ some v
    unfolding lookup
    lookup-set_self xs i v lt passes before =
        let here = get_or-set_self xs i v d lt in
        let found : find_first (λ x. live x && same x) (set xs i v) ≡ some i =
          find_first_at (λ x. live x && same x) (set xs i v) i d
            (omega (arith, lt, length-set xs i v)) (ap (λ x. live x && same x) here ∙ passes)
            (λ j h.
              let there = get_or-set_ne xs i j v d (λ e. omega (arith, e, h)) in
              ap (λ x. live x && same x) there ∙ before j h) in
        rw (found, lookup) (ap some here)

    -- A write that the test does not see leaves the answer.
    lookup-set_other :
        (xs : List A) (i : ℕ) (v : A)
        → (live v && same v) ≡ false
        → (live (get_or xs i d) && same (get_or xs i d)) ≡ false
        → lookup live same d (set xs i v) ≡ lookup live same d xs
    unfolding lookup
    lookup-set_other xs i v no_more no_before =
        let test : A → Bool = λ x. live x && same x in
        let kept = find_first-set test xs i v d (no_more ∙ sym no_before) in
        rw (kept, lookup)
          (by_option
            (λ (o : Option A).
              (k : Option ℕ)
              → k ≡ find_first test xs
              → elim k [ none ↦ none | some j ↦ some (get_or (set xs i v) j d) ] ≡ o)
            (find_first test xs) none (λ j. some (get_or xs j d)) (λ e k e'. rw (e' ∙ e) refl)
            (λ j e k e'. rw (e' ∙ e) (
              ap some (
                get_or-set_ne xs i j v d
                  (λ same_slot. cc (find_first-test test xs j d e, no_before, same_slot)))))
            (find_first test xs) refl)

  module _ (live same : A → Bool) (d : A) (update : A → A) (fresh : A)
      (keeps : (x : A) → (live x && same x) ≡ true → (live (update x) && same (update x)) ≡ true)
      (starts : (live fresh && same fresh) ≡ true) where
    -- After an update or an insertion, the search finds the updated slot or the new one.
    pub lookup-upsert :
        (xs ys : List A) (b : Bool)
        → upsert live same update fresh xs ≡ some (b, ys)
        → (v : A) × (lookup live same d ys ≡ some v) × ((v ≡ fresh) ⊎ ((x : A) × (v ≡ update x)))
    unfolding upsert
    lookup-upsert xs ys b =
        let test : A → Bool = λ x. live x && same x in
        let Q : List A → Type 0 = λ zs.
          (v : A) × (lookup live same d zs ≡ some v) × ((v ≡ fresh) ⊎ ((x : A) × (v ≡ update x))) in
        let P : Option (Bool × List A) → Type 0 = λ r. r ≡ some (b, ys) → Q ys in
        by_option P (find_first test xs) _ _
          (λ absent.
            by_option P (find_first (λ x. not (live x)) xs) _ _ (λ _ e. absurd (cc e))
              (λ i at e.
                let lt = find_first-lt (λ x. not (live x)) xs i at in
                subst Q (ap (λ (r : Bool × List A). r.1) (some-injective _ _ e)) (
                  fresh,
                  lookup-set_self live same d xs i fresh lt starts
                      (λ j h. find_first-none test xs j d absent (omega (arith, h, lt))),
                  inl refl,
                )))
          (λ i at e.
            let lt = find_first-lt test xs i at in
            subst Q (ap (λ (r : Bool × List A). r.1) (some-injective _ _ e)) (
              update (get_or xs i fresh),
              lookup-set_self live same d xs i (update (get_or xs i fresh)) lt
                  (keeps (get_or xs i fresh) (find_first-test test xs i fresh at))
                  (λ j h. find_first_before test xs i j d at h),
              inr (get_or xs i fresh, refl),
            ))

    -- A search for another key, which the update does not touch, answers as before.
    pub lookup-upsert_other :
        (other : A → Bool) (xs ys : List A) (b : Bool)
        → ((x : A) → (live x && same x) ≡ true → (live x && other x) ≡ false)
        → upsert live same update fresh xs ≡ some (b, ys)
        → lookup live other d ys ≡ lookup live other d xs
    unfolding upsert
    lookup-upsert_other other xs ys b differs =
        let test : A → Bool = λ x. live x && same x in
        let Q : List A → Type 0 = λ zs. lookup live other d zs ≡ lookup live other d xs in
        let P : Option (Bool × List A) → Type 0 = λ r. r ≡ some (b, ys) → Q ys in
        by_option P (find_first test xs) _ _
          (λ absent.
            by_option P (find_first (λ x. not (live x)) xs) _ _ (λ _ e. absurd (cc e))
              (λ i at e.
                let dead = find_first-test (λ x. not (live x)) xs i d at in
                subst Q (ap (λ (r : Bool × List A). r.1) (some-injective _ _ e)) (
                  lookup-set_other live other d xs i fresh (differs fresh starts)
                    (ground (arith, dead)))))
          (λ i at e. subst Q (ap (λ (r : Bool × List A). r.1) (some-injective _ _ e)) (
            lookup-set_other live other d xs i (update (get_or xs i fresh))
              (differs (update (get_or xs i fresh))
                (keeps (get_or xs i fresh) (find_first-test test xs i fresh at)))
              (differs (get_or xs i d) (find_first-test test xs i d at))))
