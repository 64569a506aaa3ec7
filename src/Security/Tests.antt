-- ===== src/Security/Tests.antt =====
-- The security theorems at concrete inputs.
use uefi_boot_system.Prelude.{
  ℕ, ◌+◌, ◌%◌, ◌^◌, ◌≤◌, ◌<◌, ◌≡◌, ◌≢◌, ◌↔◌, refl, true, false, ◌∷◌, some, replicate, arith,
}
use uefi_boot_system.Prelude.Text.{text}
use uefi_boot_system.Prelude.Bits.{HasBits}
use uefi_boot_system.Security.{
  Security, VmRegionPolicy, user_role, no_user, no_policy, no_domain, no_region, nothing_ready,
  check_access,
}
use uefi_boot_system.Security.Access.{Grants, check_access-Grants}
use uefi_boot_system.Security.Random.{
  IsSeeded, stack_canary_terminator, user_aslr_base, apply_user_aslr, secure_random64,
  seed_secure_random, mix_security_entropy, generate_stack_canary, check_stack_canary,
  apply_user_aslr-aligned, secure_random64-IsSeeded, generate_stack_canary-HasBits,
}
use uefi_boot_system.Security.Memory.{Allows, vm_access_allowed, vm_access_allowed-Allows}

abbrev pub state : Security
state = record {
  users = record {
    slots =
        record {
          uid = 1000;
          name = some (text "shell");
          role = user_role;
          permissions = 3;
          active = true;
        }
        ∷ replicate 7 no_user;
    count = 1;
  };
  policies = record {
    slots =
        record {
          resource = some (text "/tmp/readme");
          owner_uid = 1000;
          owner_permissions = 3;
          other_permissions = 1;
          active = true;
        }
        ∷ replicate 7 no_policy;
    count = 1;
  };
  domains =
      record {
        process_id = 10;
        uid = 1000;
        address_space_id = 1;
        ipc_restricted = true;
        active = true;
      }
      ∷ record {
        process_id = 11;
        uid = 1000;
        address_space_id = 2;
        ipc_restricted = true;
        active = true;
      }
      ∷ replicate 6 no_domain;
  vm_regions = replicate 8 no_region;
  random = record { state = 77; seeded = true };
  stack_canary = record { value = 0; active = false };
  ready = nothing_ready;
}

state-IsSeeded : IsSeeded state
state-IsSeeded = record { seeded = refl; some_bit = omega arith; small = omega arith }

check_access-Grants_example :
    (check_access 1000 (some (text "/tmp/readme")) 2 state ≡ true)
    ↔ Grants 1000 (some (text "/tmp/readme")) 2 state
check_access-Grants_example = check_access-Grants 1000 (some (text "/tmp/readme")) 2 state

abbrev data_region : VmRegionPolicy
data_region = record { base = 0x600000; size = 0x2000; protection = 19; active = true }

vm_access_allowed-Allows_example :
    (vm_access_allowed data_region true false false ≡ true) ↔ Allows data_region true false false
vm_access_allowed-Allows_example = vm_access_allowed-Allows data_region true false false

apply_user_aslr-aligned_example :
    let address = apply_user_aslr 4096 43981 in
    (address % 4096 ≡ 0) × (user_aslr_base ≤ address) × (address < user_aslr_base + 2 ^ 32)
apply_user_aslr-aligned_example = apply_user_aslr-aligned 4096 43981

secure_random64-IsSeeded_example :
    (0 < (secure_random64 state).0) × IsSeeded (secure_random64 state).1
secure_random64-IsSeeded_example = secure_random64-IsSeeded state state-IsSeeded

seeds : (seed_secure_random 5 state).0 ≡ true
unfolding seed_secure_random mix_security_entropy
seeds = refl

generate_stack_canary-HasBits_example :
    let r = generate_stack_canary 42 state in
    HasBits r.0 stack_canary_terminator
    × (r.0 ≢ 0)
    × ((observed : ℕ) → (check_stack_canary r.0 observed r.1 ≡ true) ↔ (observed ≡ r.0))
generate_stack_canary-HasBits_example =
    generate_stack_canary-HasBits 42 state state-IsSeeded (omega arith)
