-- ===== src/Security/SelfTest.antt =====
-- kernel/src/security.cpp: the self-tests.
use uefi_boot_system.Prelude.{
  ℕ, ◌+◌, ◌%◌, Bool, true, false, not, ◌&&◌, [], ◌∷◌, Option, none, some, if◌then◌else◌, leb, ◌==◌,
  get_or, bit_xor,
}
use uefi_boot_system.Prelude.Text.{text}
use uefi_boot_system.Prelude.Steps.{all_steps, ask}
use uefi_boot_system.Security.{
  Security, guest_role, user_role, admin_role, read, write, execute, network, admin_permission,
  no_region, is_null, create_user, find_user, has_user_permission, add_access_policy, check_access,
}
use uefi_boot_system.Security.Random.{
  user_aslr_base, kernel_aslr_base, seed_secure_random, secure_random64, apply_user_aslr,
  apply_kernel_aslr, generate_stack_canary, check_stack_canary,
}
use uefi_boot_system.Security.Memory.{
  user_readable, user_writable, user_executable, kernel_only, no_execute,
  add_process_isolation_domain, processes_are_isolated, add_vm_region, vm_access_allowed,
  vm_region_has_nx,
}

abbrev pub holds : {A : Type 0} → Option A → (A → Bool) → Bool
holds none test = false
holds (some a) test = test a

unfoldable pub run_users_self_test : Security → Bool × Security
run_users_self_test = all_steps (
    create_user 1 (some (text "root")) admin_role
      (read + write + execute + network + admin_permission)
    ∷ create_user 1000 (some (text "shell")) user_role (read + write + execute + network)
    ∷ create_user 65534 (some (text "guest")) guest_role read
    ∷ ask (λ s. s.users.count == 3 && not (is_null (find_user 1000 s)))
    ∷ [])

unfoldable pub run_permissions_self_test : Security → Bool
run_permissions_self_test s =
    holds (find_user 1000 s)
      (λ shell. has_user_permission shell execute && has_user_permission shell network)
    && holds (find_user 65534 s)
        (λ guest. has_user_permission guest read && not (has_user_permission guest write))

unfoldable pub run_access_control_self_test : Security → Bool × Security
run_access_control_self_test = all_steps (
    add_access_policy (some (text "/tmp/readme")) 1000 (read + write) read
    ∷ add_access_policy (some (text "/boot/kernel.elf")) 1 (read + execute) 0
    ∷ ask (λ s.
      check_access 1000 (some (text "/tmp/readme")) write s
      && check_access 65534 (some (text "/tmp/readme")) read s
      && not (check_access 65534 (some (text "/tmp/readme")) write s)
      && check_access 1 (some (text "/boot/kernel.elf")) write s)
    ∷ [])

unfoldable pub run_process_isolation_self_test : Security → Bool × Security
run_process_isolation_self_test = all_steps (
    add_process_isolation_domain 10 1000 0x1000 true
    ∷ add_process_isolation_domain 11 65534 0x2000 true
    ∷ ask (processes_are_isolated 10 11)
    ∷ [])

abbrev allows : Security → Option ℕ → Bool → Bool → Bool → Bool
allows s region write execute kernel_mode =
    holds region
      (λ i. vm_access_allowed (get_or s.vm_regions i no_region) write execute kernel_mode)

abbrev denies : Security → Option ℕ → Bool → Bool → Bool → Bool
denies s region write execute kernel_mode =
    holds region
      (λ i. not (vm_access_allowed (get_or s.vm_regions i no_region) write execute kernel_mode))

unfoldable pub run_virtual_memory_protection_self_test : Security → Bool × Security
run_virtual_memory_protection_self_test s =
    let (user_text, s1) = add_vm_region 0x400000 0x2000 (user_readable + user_executable) s in
    let (user_data, s2) =
      add_vm_region 0x600000 0x2000 (user_readable + user_writable + no_execute) s1 in
    let (kernel, s3) = add_vm_region 0xFFFFFFFF80000000 0x200000 (kernel_only + no_execute) s2 in
    (
      allows s3 user_text false true false
          && denies s3 user_text true false false
          && allows s3 user_data true false false
          && denies s3 user_data false true false
          && denies s3 kernel false false false
          && allows s3 kernel false false true,
      s3,
    )

unfoldable pub run_aslr_self_test : Bool
run_aslr_self_test =
    let first = apply_user_aslr 0x1000 0xABCD in
    let second = apply_user_aslr 0x1000 0xBCDE in
    leb user_aslr_base first
    && leb user_aslr_base second
    && not (first == second)
    && first % 4096 == 0
    && second % 4096 == 0

unfoldable pub run_stack_canary_self_test : Security → Bool × Security
run_stack_canary_self_test s =
    let (seeded, s1) = seed_secure_random 0x5152535455565758 s in
    let (canary, s2) = generate_stack_canary 42 s1 in
    if seeded
    then (
      not (canary == 0)
          && check_stack_canary canary canary s2
          && not (check_stack_canary canary (bit_xor canary 1) s2),
      s2,
    )
    else (false, s1)

unfoldable pub run_nx_pages_self_test : Security → Bool × Security
run_nx_pages_self_test s =
    let (stack, s1) =
      add_vm_region 0x700000 0x4000 (user_readable + user_writable + no_execute) s in
    let (code, s2) = add_vm_region 0x800000 0x4000 (user_readable + user_executable) s1 in
    (
      holds stack (λ i. vm_region_has_nx (get_or s2.vm_regions i no_region))
          && denies s2 stack false true false
          && holds code (λ i. not (vm_region_has_nx (get_or s2.vm_regions i no_region)))
          && allows s2 code false true false,
      s2,
    )

unfoldable pub run_secure_random_self_test : Security → Bool × Security
run_secure_random_self_test s =
    let (seeded, s1) = seed_secure_random 0xA5A55A5ADEADBEEF s in
    let (first, s2) = secure_random64 s1 in
    let (second, s3) = secure_random64 s2 in
    if seeded
    then (not (first == 0) && not (second == 0) && not (first == second), s3)
    else (false, s1)

unfoldable pub run_kaslr_self_test : Bool
run_kaslr_self_test =
    let first = apply_kernel_aslr 0x12345678 in
    let second = apply_kernel_aslr 0x87654321 in
    leb kernel_aslr_base first
    && leb kernel_aslr_base second
    && not (first == second)
    && first % 4096 == 0
    && second % 4096 == 0
