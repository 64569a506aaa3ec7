-- ===== src/Security/BootTest.antt =====
-- kernel/src/security.cpp: every self-test of the start passes.
use uefi_boot_system.Prelude.{◌≡◌, refl, true}
use uefi_boot_system.Prelude.Text.{string_equals, equals_loop}
use uefi_boot_system.Prelude.Table.{find_first}
use uefi_boot_system.Prelude.Registry
use uefi_boot_system.Prelude.Registry.{Registry, register, entries}
use uefi_boot_system.Security.{
  reset_security_status, create_user, find_user, has_user_permission, add_access_policy,
  find_policy, allowed, check_access,
}
use uefi_boot_system.Security.Random.{
  mix_security_entropy, seed_secure_random, xorshift, secure_random64, generate_aslr_offset,
  generate_kernel_aslr_offset, apply_user_aslr, apply_kernel_aslr, generate_stack_canary,
  check_stack_canary,
}
use uefi_boot_system.Security.Memory.{
  add_process_isolation_domain, last_domains, processes_are_isolated, add_vm_region,
  vm_access_allowed, vm_region_has_nx,
}
use uefi_boot_system.Security.SelfTest.{
  run_users_self_test, run_permissions_self_test, run_access_control_self_test,
  run_process_isolation_self_test, run_virtual_memory_protection_self_test, run_aslr_self_test,
  run_stack_canary_self_test, run_nx_pages_self_test, run_secure_random_self_test,
  run_kaslr_self_test,
}
use uefi_boot_system.Security.Boot.{kernel_security_init}
use uefi_boot_system.Security.Tests.{state}

security_starts : (kernel_security_init state).0 ≡ true
unfolding kernel_security_init reset_security_status create_user find_user has_user_permission
    add_access_policy find_policy allowed check_access mix_security_entropy seed_secure_random
    xorshift secure_random64 generate_aslr_offset generate_kernel_aslr_offset apply_user_aslr
    apply_kernel_aslr generate_stack_canary check_stack_canary add_process_isolation_domain
    last_domains processes_are_isolated add_vm_region vm_access_allowed vm_region_has_nx
    run_users_self_test run_permissions_self_test run_access_control_self_test
    run_process_isolation_self_test run_virtual_memory_protection_self_test run_aslr_self_test
    run_stack_canary_self_test run_nx_pages_self_test run_secure_random_self_test
    run_kaslr_self_test Registry.empty register entries Registry.find find_first string_equals
    equals_loop
security_starts = refl
