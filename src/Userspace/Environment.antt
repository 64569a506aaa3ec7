-- ===== src/Userspace/Environment.antt =====
-- `SetEnvironmentVariable` and `GetEnvironmentVariable`.
use mathlib.Core.Option.{some-injective}
use uefi_boot_system.Prelude.{
  ◌≡◌, ◌≢◌, inl, inr, refl, ap, sym, ◌∙◌, Bool, true, false, ◌&&◌, ◌||◌, List, some, ◌==◌, arith,
  Bool-cases,
}
use uefi_boot_system.Prelude.Cases.{by_option, by_if}
use uefi_boot_system.Prelude.Text.{Text, string_length, string_equals_iff, string_equals_refl}
use uefi_boot_system.Prelude.Upsert.{upsert, lookup-upsert, lookup-upsert_other}
use uefi_boot_system.Userspace.{EnvironmentVariable, Userspace, no_variable}
use uefi_boot_system.Userspace.Tables.{
  is_null, same_name, active_variable, value_of, set_environment_variable, get_environment_variable,
}

-- No variable has two names.
differs :
    (name other : Text) (v : EnvironmentVariable)
    → other ≢ name
    → (active_variable v && same_name (some name) v) ≡ true
    → (active_variable v && same_name (some other) v) ≡ false
differs name other v ne is = elim (Bool-cases (same_name (some other) v)) [
  | inr no_match ↦ ground (arith, no_match)
  | inl also ↦
      let (t, n, e) = (string_equals_iff v.name (some name)).0 (ground (arith, is)) in
      let (t', n', e') = (string_equals_iff v.name (some other)).0 also in
      absurd (ne (some-injective _ _ (e' ∙ sym n' ∙ n ∙ sym e)))
]

-- What a variable is after it was set: its value, and every other variable as before.
pub record Sets (name value : Text) (s t : Userspace) : Type 0 where
  pub here : get_environment_variable (some name) t ≡ some value
  pub elsewhere :
      (other : Text)
      → other ≢ name
      → get_environment_variable (some other) t ≡ get_environment_variable (some other) s

set-Sets :
    (name value : Text) (s : Userspace) (added : Bool) (table : List EnvironmentVariable)
    (t : Userspace)
    → upsert active_variable
        (same_name (some name))
        (λ (v : EnvironmentVariable). record v { value = some value })
        (record { name = some name; value = some value; active = true })
        s.environment
      ≡ some (added, table)
    → t.environment ≡ table
    → Sets name value s t
unfolding get_environment_variable
set-Sets name value s added table t e same =
    let update : EnvironmentVariable → EnvironmentVariable = λ v. record v { value = some value } in
    let fresh : EnvironmentVariable = record {
      name = some name;
      value = some value;
      active = true;
    } in
    let (v, found, how) =
      lookup-upsert active_variable (same_name (some name)) no_variable update fresh (λ x p. p)
        (string_equals_refl name) s.environment table added e in
    record {
      here = rw same (
          ap value_of found ∙ elim how [
            | inl is ↦ ap (λ (w : EnvironmentVariable). w.value) is
            | inr (x, is) ↦ ap (λ (w : EnvironmentVariable). w.value) is
          ]);
      elsewhere = λ other ne. rw same (
          ap value_of (
            lookup-upsert_other active_variable (same_name (some name)) no_variable update fresh
              (λ x p. p) (string_equals_refl name) (same_name (some other)) s.environment table
              added (λ x p. differs name other x ne p) e));
    }

-- When `SetEnvironmentVariable` answers true, `GetEnvironmentVariable` answers the new value for
-- that name, and for every other name what it answered before.
pub set_environment_variable-Sets :
    (name value : Text) (s : Userspace)
    → (set_environment_variable (some name) (some value) s).0 ≡ true
    → Sets name value s (set_environment_variable (some name) (some value) s).1
unfolding set_environment_variable
set_environment_variable-Sets name value s =
    let P : Bool × Userspace → Type 0 = λ r. r.0 ≡ true → Sets name value s r.1 in
    by_if P (is_null (some name) || is_null (some value) || string_length (some name) == 0) _ _
      (λ _ done. absurd (cc done))
      (λ _.
        by_option P
          (upsert active_variable (same_name (some name))
            (λ (v : EnvironmentVariable). record v { value = some value })
            (record { name = some name; value = some value; active = true }) s.environment)
          _ _ (λ _ done. absurd (cc done)) (λ a e done. set-Sets name value s a.0 a.1 _ e refl))
