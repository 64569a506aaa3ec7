-- ===== src/Security/Boot.antt =====
-- kernel/src/security.cpp: `KernelSecurityInit`.
use uefi_boot_system.Prelude.{Bool, true, false, ◌&&◌}
use uefi_boot_system.Security.{Security, Readiness, reset_security_status}
use uefi_boot_system.Security.SelfTest.{
  run_users_self_test, run_permissions_self_test, run_access_control_self_test,
  run_process_isolation_self_test, run_virtual_memory_protection_self_test, run_aslr_self_test,
  run_stack_canary_self_test, run_nx_pages_self_test, run_secure_random_self_test,
  run_kaslr_self_test,
}

-- `ready && Run...()`: the self-test runs only where the one before it passed.
abbrev when : Bool → (Security → Bool × Security) → Security → Bool × Security
when true test s = test s
when false test s = (false, s)

unfoldable pub kernel_security_init : Security → Bool × Security
kernel_security_init before =
    let (users, s1) = run_users_self_test (reset_security_status before) in
    let permissions = users && run_permissions_self_test s1 in
    let (access, s2) = when permissions run_access_control_self_test s1 in
    let (isolation, s3) = when access run_process_isolation_self_test s2 in
    let (protection, s4) = when isolation run_virtual_memory_protection_self_test s3 in
    let aslr = protection && run_aslr_self_test in
    let (canaries, s5) = when aslr run_stack_canary_self_test s4 in
    let (nx, s6) = when canaries run_nx_pages_self_test s5 in
    let (random, s7) = when nx run_secure_random_self_test s6 in
    let kaslr = random && run_kaslr_self_test in
    let ready : Readiness = record {
      users_ready = users;
      permissions_ready = permissions;
      access_control_ready = access;
      process_isolation_ready = isolation;
      virtual_memory_protection_ready = protection;
      aslr_ready = aslr;
      stack_canaries_ready = canaries;
      nx_pages_ready = nx;
      secure_random_ready = random;
      kaslr_ready = kaslr;
    } in
    (
      users && permissions && access && isolation && protection && aslr && canaries && nx && random
          && kaslr,
      record s7 { ready = ready },
    )
