-- ===== src/Security/Access.antt =====
-- What `CheckAccess` grants.
use mathlib.Core.Option.{some-injective}
use uefi_boot_system.Prelude.Cases.{by_option}
use uefi_boot_system.Prelude.{
  ℕ, ◌≡◌, ◌≢◌, ◌↔◌, ◌⊎◌, inl, inr, refl, sym, subst, ◌∙◌, Bool, true, Option, some, if◌then◌else◌,
  ◌==◌, bit_and, arith, Bool-cases, ==_iff,
}
use uefi_boot_system.Prelude.Text.{Text}
use uefi_boot_system.Prelude.Bits.{HasBits, bit_and-HasBits}
use uefi_boot_system.Security.{
  SecurityUser, AccessPolicy, Security, find_user, find_policy, has_user_permission,
  admin_permission, allowed, check_access,
}

-- The policy's bits for the user, as its owner or as another, hold every bit of the permission.
abbrev pub Permits : ℕ → ℕ → AccessPolicy → Type 0
Permits uid permission policy =
    ((policy.owner_uid ≡ uid) × HasBits policy.owner_permissions permission)
    ⊎ ((policy.owner_uid ≢ uid) × HasBits policy.other_permissions permission)

-- Both the user and a policy for the resource are there, and the user is an administrator, or the
-- policy's bits for it, as owner or as another, hold every bit that is asked for.
abbrev pub Grants : ℕ → Option Text → ℕ → Security → Type 0
Grants uid resource permission s =
    (user : SecurityUser) × (policy : AccessPolicy) × (find_user uid s ≡ some user)
    × (find_policy resource s ≡ some policy)
    × (HasBits user.permissions admin_permission ⊎ Permits uid permission policy)

allowed-Permits :
    (uid permission : ℕ) (policy : AccessPolicy)
    → HasBits (allowed uid policy) permission ↔ Permits uid permission policy
unfolding allowed
allowed-Permits uid permission policy = elim (Bool-cases (policy.owner_uid == uid)) [
  | inl e ↦
      let same : policy.owner_uid ≡ uid = (==_iff _ _).0 e in
      rw e (
        (λ bits. inl (same, bits)),
        (λ h. elim h [ inl (_, bits) ↦ bits | inr (other, _) ↦ absurd (other same) ]),
      )
  | inr e ↦
      let other : policy.owner_uid ≢ uid = (λ same. ground (arith, e, same)) in
      rw e (
        (λ bits. inr (other, bits)),
        (λ h. elim h [ inl (same, _) ↦ absurd (other same) | inr (_, bits) ↦ bits ]),
      )
]

granted :
    (uid permission : ℕ) (user : SecurityUser) (policy : AccessPolicy)
    → ((if has_user_permission user admin_permission
          then true
          else bit_and (allowed uid policy) permission == permission)
        ≡ true)
      ↔ (HasBits user.permissions admin_permission ⊎ Permits uid permission policy)
unfolding has_user_permission
granted uid permission user policy =
    elim (Bool-cases (bit_and user.permissions admin_permission == admin_permission)) [
      | inl e ↦
          let admin : HasBits user.permissions admin_permission =
            (bit_and-HasBits user.permissions admin_permission).0 ((==_iff _ _).0 e) in
          rw e ((λ h. inl admin), (λ h. refl))
      | inr e ↦
          let bits = bit_and-HasBits (allowed uid policy) permission in
          let permits = allowed-Permits uid permission policy in
          rw e (
            (λ h. inr (permits.0 (bits.0 ((==_iff _ _).0 h)))),
            (λ h. elim h [
              | inl admin ↦
                  absurd
                    (ground (arith, e, (bit_and-HasBits user.permissions admin_permission).1 admin))
              | inr p ↦ (==_iff _ _).1 (bits.1 (permits.1 p))
            ]),
          )
    ]

-- `CheckAccess` answers true exactly when access is granted.
pub check_access-Grants :
    (uid : ℕ) (resource : Option Text) (permission : ℕ) (s : Security)
    → (check_access uid resource permission s ≡ true) ↔ Grants uid resource permission s
unfolding check_access
check_access-Grants uid resource permission s = (
  by_option (λ (b : Bool). b ≡ true → Grants uid resource permission s) (find_user uid s) _ _
      (λ e h. cc)
      (λ user there.
        by_option (λ (b : Bool). b ≡ true → Grants uid resource permission s)
          (find_policy resource s) _ _ (λ e h. cc)
          (λ policy set h. (user, policy, there, set, (granted uid permission user policy).0 h))),
  λ (user, policy, there, set, bits).
      by_option (λ (b : Bool). b ≡ true) (find_user uid s) _ _
        (λ e. absurd (ground (arith, e, there)))
        (λ u e.
          by_option (λ (b : Bool). b ≡ true) (find_policy resource s) _ _
            (λ n. absurd (ground (arith, n, set)))
            (λ p f. (granted uid permission u p).1 (
              subst (λ t. HasBits t.permissions admin_permission ⊎ Permits uid permission p)
                (some-injective _ _ (sym there ∙ e))
                (subst (λ t. HasBits user.permissions admin_permission ⊎ Permits uid permission t)
                  (some-injective _ _ (sym set ∙ f)) bits)))),
)
