-- ===== src/Security.antt =====
-- kernel/src/security.cpp: users, access policies, isolation domains, memory regions, random numbers.

pub mod Access
pub mod Random
pub mod Memory
pub mod SelfTest
pub mod Boot
mod BootTest
pub mod Tests
use uefi_boot_system.Prelude.{
  ℕ, ◌+◌, ◌*◌, ◌%◌, ◌/◌, ◌^◌, Bool, true, false, not, ◌&&◌, ◌||◌, List, [], ◌∷◌, Option, none, some,
  if◌then◌else◌, leb, ◌==◌, get_or, set, replicate, bit_and,
}
use uefi_boot_system.Prelude.Text.{Text, string_equals}
use uefi_boot_system.Prelude.Table.{find_first}
use uefi_boot_system.Prelude.Registry
use uefi_boot_system.Prelude.Registry.{Registry, entries, register, find}

pub data SecurityRole : Type 0 where
  guest_role user_role admin_role : SecurityRole

pub record SecurityUser : Type 0 where
  pub uid : ℕ
  pub name : Option Text
  pub role : SecurityRole
  pub permissions : ℕ
  pub active : Bool

pub record AccessPolicy : Type 0 where
  pub resource : Option Text
  pub owner_uid : ℕ
  pub owner_permissions : ℕ
  pub other_permissions : ℕ
  pub active : Bool

pub record ProcessIsolationDomain : Type 0 where
  pub process_id : ℕ
  pub uid : ℕ
  pub address_space_id : ℕ
  pub ipc_restricted : Bool
  pub active : Bool

pub record VmRegionPolicy : Type 0 where
  pub base : ℕ
  pub size : ℕ
  pub protection : ℕ
  pub active : Bool

pub record RandomGenerator : Type 0 where
  pub state : ℕ
  pub seeded : Bool

pub record StackCanary : Type 0 where
  pub value : ℕ
  pub active : Bool

-- SecurityStatus without the counts, which stand in the registries.
pub record Readiness : Type 0 where
  pub users_ready : Bool
  pub permissions_ready : Bool
  pub access_control_ready : Bool
  pub process_isolation_ready : Bool
  pub virtual_memory_protection_ready : Bool
  pub aslr_ready : Bool
  pub stack_canaries_ready : Bool
  pub nx_pages_ready : Bool
  pub secure_random_ready : Bool
  pub kaslr_ready : Bool

pub record Security : Type 0 where
  pub users : Registry SecurityUser
  pub policies : Registry AccessPolicy
  pub domains : List ProcessIsolationDomain
  pub vm_regions : List VmRegionPolicy
  pub random : RandomGenerator
  pub stack_canary : StackCanary
  pub ready : Readiness

abbrev pub max_users : ℕ
max_users = 8

abbrev pub max_policies : ℕ
max_policies = 8

abbrev pub max_domains : ℕ
max_domains = 8

abbrev pub max_vm_regions : ℕ
max_vm_regions = 8

abbrev pub read : ℕ
read = 1

abbrev pub write : ℕ
write = 2

abbrev pub execute : ℕ
execute = 4

abbrev pub network : ℕ
network = 8

abbrev pub admin_permission : ℕ
admin_permission = 16

abbrev pub no_user : SecurityUser
no_user = record { uid = 0; name = none; role = guest_role; permissions = 0; active = false }

abbrev pub no_policy : AccessPolicy
no_policy = record {
  resource = none;
  owner_uid = 0;
  owner_permissions = 0;
  other_permissions = 0;
  active = false;
}

abbrev pub no_domain : ProcessIsolationDomain
no_domain = record {
  process_id = 0;
  uid = 0;
  address_space_id = 0;
  ipc_restricted = false;
  active = false;
}

abbrev pub no_region : VmRegionPolicy
no_region = record { base = 0; size = 0; protection = 0; active = false }

abbrev pub nothing_ready : Readiness
nothing_ready = record {
  users_ready = false;
  permissions_ready = false;
  access_control_ready = false;
  process_isolation_ready = false;
  virtual_memory_protection_ready = false;
  aslr_ready = false;
  stack_canaries_ready = false;
  nx_pages_ready = false;
  secure_random_ready = false;
  kaslr_ready = false;
}

-- Whatever was there before.
unfoldable pub reset_security_status : Security → Security
reset_security_status before = record {
  users = Registry.empty max_users no_user;
  policies = Registry.empty max_policies no_policy;
  domains = replicate max_domains no_domain;
  vm_regions = replicate max_vm_regions no_region;
  random = record { state = 0; seeded = false };
  stack_canary = record { value = 0; active = false };
  ready = nothing_ready;
}

abbrev pub is_null {ℓ} : {A : Type ℓ} → Option A → Bool
is_null none = true
is_null (some a) = false

-- Whether the pointer that `CreateUser` returns is there.
unfoldable pub create_user : ℕ → Option Text → SecurityRole → ℕ → Security → Bool × Security
create_user uid name role permissions s =
    let user : SecurityUser = record {
      uid = uid;
      name = name;
      role = role;
      permissions = permissions;
      active = true;
    } in
    if uid == 0 || is_null name then (false, s) else elim (register max_users user s.users) [
      | none ↦ (false, s)
      | some users ↦ (true, record s { users = users })
    ]

unfoldable pub find_user : ℕ → Security → Option SecurityUser
find_user uid s = find (λ u. u.active && u.uid == uid) (entries s.users)

unfoldable pub has_user_permission : SecurityUser → ℕ → Bool
has_user_permission user permission = bit_and user.permissions permission == permission

unfoldable pub add_access_policy : Option Text → ℕ → ℕ → ℕ → Security → Bool × Security
add_access_policy resource owner_uid owner_permissions other_permissions s =
    let policy : AccessPolicy = record {
      resource = resource;
      owner_uid = owner_uid;
      owner_permissions = owner_permissions;
      other_permissions = other_permissions;
      active = true;
    } in
    if is_null resource || is_null (find_user owner_uid s)
    then (false, s)
    else elim (register max_policies policy s.policies) [
      | none ↦ (false, s)
      | some policies ↦ (true, record s { policies = policies })
    ]

unfoldable pub find_policy : Option Text → Security → Option AccessPolicy
find_policy resource s =
    find (λ p. p.active && string_equals p.resource resource) (entries s.policies)

-- The bits that a policy grants to a user that is no administrator.
unfoldable pub allowed : ℕ → AccessPolicy → ℕ
allowed uid policy =
    if policy.owner_uid == uid then policy.owner_permissions else policy.other_permissions

unfoldable pub check_access : ℕ → Option Text → ℕ → Security → Bool
unfolding allowed
check_access uid resource permission s = elim (find_user uid s) [
  | none ↦ false
  | some user ↦ elim (find_policy resource s) [
    | none ↦ false
    | some policy ↦
        if has_user_permission user admin_permission
        then true
        else bit_and (allowed uid policy) permission == permission
  ]
]
