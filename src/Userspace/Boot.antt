-- ===== src/Userspace/Boot.antt =====
-- kernel/src/userspace.cpp: the init and shell processes, `KernelUserspaceInit`, and the launch, the
-- event loop and the exit of applications. Logging is left out.
use uefi_boot_system.Prelude.{
  ℕ, ◌+◌, ◌-◌, ◌%◌, ◌^◌, Bool, true, false, not, ◌&&◌, ◌||◌, List, [], ◌∷◌, Option, none, some,
  if◌then◌else◌, ◌==◌,
}
use uefi_boot_system.Prelude.Text.{Text, text}
use uefi_boot_system.Scheduler.{Scheduler}
use uefi_boot_system.Scheduler.Run.{scheduler_yield}
use uefi_boot_system.Scheduler.Lifecycle.{create_process, create_thread, terminate_process}
use uefi_boot_system.Userspace.{runs, exited, Userspace, reset_userspace}
use uefi_boot_system.Userspace.Tables.{
  is_null, register_user_process, find_user_process, set_user_state, sys_exit,
  register_loader_cache_entry, register_signal_handler, deliver_user_signal,
}
use uefi_boot_system.Userspace.Libc.{app_executable_path_valid}
use uefi_boot_system.Userspace.Elf.{load_user_elf_image, synthetic_elf}
use uefi_boot_system.Userspace.Syscall.{enter_syscall}
use uefi_boot_system.Userspace.SelfTest.{
  run_elf_loader_self_test, run_dynamic_linker_self_test, run_libc_self_test, run_posix_self_test,
  run_dynamic_loader_cache_self_test, run_environment_self_test, run_shared_library_self_test,
  run_pipe_self_test, run_pty_self_test, run_full_libc_self_test, run_libm_self_test,
  run_libpthread_self_test, run_libdl_self_test, run_cpp_stl_self_test, Step, found,
}
use uefi_boot_system.Userspace.SdkTest.{
  run_gcc_support_self_test, run_clang_support_self_test, run_build_sdk_self_test,
  run_cross_compiler_self_test, run_package_toolchain_self_test, run_sdk_documentation_self_test,
  run_example_applications_self_test, run_developer_tools_self_test,
  run_posix_compatibility_self_test, run_elf_executable_compatibility_self_test,
  run_glibc_compatibility_self_test, run_musl_compatibility_self_test, run_sdl2_support_self_test,
  run_sdl3_support_self_test, run_opengl_abstraction_self_test, run_vulkan_abstraction_self_test,
  run_openal_self_test, run_wayland_compatibility_self_test, run_x11_compatibility_self_test,
  run_steam_runtime_compatibility_self_test,
}

-- The addresses of functions, and what KernelAllocate answers for the stacks of the two threads.
pub record Entries : Type 0 where
  pub libc_write_address : ℕ
  pub init_main_address : ℕ
  pub shell_main_address : ℕ
  pub app_main_address : ℕ
  pub init_stack : ℕ
  pub shell_stack : ℕ

-- The body of the shell's thread, between its system calls nothing else happens to this state.
unfoldable pub shell_main : Userspace → Userspace
shell_main s =
    let begun : Userspace = elim (find_user_process s.counts.shell_process_id s) [
      | none ↦ s
      | some i ↦ set_user_state i runs s
    ] in
    let written = enter_syscall (enter_syscall begun) in
    (sys_exit written.counts.shell_process_id 0 (enter_syscall written)).1

-- The body of an application's thread.
unfoldable pub app_process_main : ℕ → Userspace → Userspace
app_process_main process_id s = elim (find_user_process process_id s) [
  | none ↦ s
  | some i ↦ set_user_state i runs s
]

-- Whether the process and its thread were created, their ids, and both states.
unfoldable pub start_process :
    Option Text → Option Text → ℕ → ℕ → Userspace → Scheduler → Bool × ℕ × ℕ × Userspace × Scheduler
start_process name thread_name entry stack s k =
    let (process_id, k') = create_process name k in
    let (slot, s') = register_user_process process_id name s in
    let (thread_id, k'') = create_thread process_id thread_name entry 0 stack k' in
    if process_id == 0
    then (false, 0, 0, s, k')
    else if not (found slot)
    then (false, 0, 0, s', k')
    else if thread_id == 0
    then (false, 0, 0, s', k'')
    else (true, process_id, thread_id, s', k'')

unfoldable pub start_init_process : Entries → Userspace → Scheduler → Bool × Userspace × Scheduler
unfolding start_process
start_init_process e s k =
    let (ok, process_id, thread_id, s', k') =
      start_process (some (text "init")) (some (text "init-main")) e.init_main_address e.init_stack
        s k in
    if ok
    then (
      true,
      record s' {
        counts = record s'.counts { init_process_id = process_id; init_thread_id = thread_id };
      },
      k',
    )
    else (false, s', k')

unfoldable pub run_signals_self_test : Userspace → Scheduler → Bool × Userspace × Scheduler
run_signals_self_test s k =
    let (registered, s') = register_signal_handler s.counts.init_process_id 2 s in
    let delivered = deliver_user_signal s'.counts.init_process_id s'.counts.init_thread_id 2 s' k in
    if s.counts.init_process_id == 0 || s.counts.init_thread_id == 0
    then (false, s, k)
    else if registered
    then delivered
    else (false, s', k)

unfoldable pub start_shell_process : Entries → Userspace → Scheduler → Bool × Userspace × Scheduler
unfolding start_process
start_shell_process e s k =
    let (ok, process_id, thread_id, s', k') =
      start_process (some (text "user-shell")) (some (text "shell-main")) e.shell_main_address
        e.shell_stack s k in
    if ok
    then (
      true,
      record s' {
        counts = record s'.counts { shell_process_id = process_id; shell_thread_id = thread_id };
      },
      k',
    )
    else (false, s', k')

-- The self-tests, each on the state that the one before leaves, whatever it answered.
abbrev run_all : List Step → Userspace → List Bool × Userspace
run_all [] s = ([], s)
run_all (step ∷ steps) s = let r = step s in let rest = run_all steps r.1 in (r.0 ∷ rest.0, rest.1)

abbrev self_tests : Entries → List Step
self_tests e =
    run_elf_loader_self_test
    ∷ run_dynamic_linker_self_test e.libc_write_address
    ∷ run_libc_self_test
    ∷ run_posix_self_test
    ∷ run_dynamic_loader_cache_self_test
    ∷ run_environment_self_test
    ∷ run_shared_library_self_test
    ∷ run_pipe_self_test
    ∷ run_pty_self_test
    ∷ run_full_libc_self_test
    ∷ run_libm_self_test
    ∷ run_libpthread_self_test
    ∷ run_libdl_self_test
    ∷ run_cpp_stl_self_test
    ∷ run_gcc_support_self_test
    ∷ run_clang_support_self_test
    ∷ run_build_sdk_self_test
    ∷ run_cross_compiler_self_test
    ∷ run_package_toolchain_self_test
    ∷ run_sdk_documentation_self_test
    ∷ run_example_applications_self_test
    ∷ run_developer_tools_self_test
    ∷ run_posix_compatibility_self_test
    ∷ run_elf_executable_compatibility_self_test
    ∷ run_glibc_compatibility_self_test
    ∷ run_musl_compatibility_self_test
    ∷ run_sdl2_support_self_test
    ∷ run_sdl3_support_self_test
    ∷ run_opengl_abstraction_self_test
    ∷ run_vulkan_abstraction_self_test
    ∷ run_openal_self_test
    ∷ run_wayland_compatibility_self_test
    ∷ run_x11_compatibility_self_test
    ∷ run_steam_runtime_compatibility_self_test
    ∷ []

abbrev all_true : List Bool → Bool
all_true [] = true
all_true (b ∷ bs) = b && all_true bs

-- The answer, the flags of the self-tests in their order and then that of the signals, and both
-- states at the yield. A failure to start a process ends it early.
unfoldable pub kernel_userspace_init :
    Entries → Userspace → Scheduler → Bool × List Bool × Userspace × Scheduler
unfolding start_init_process run_signals_self_test start_shell_process
kernel_userspace_init e before k =
    let (flags, tested) = run_all (self_tests e) reset_userspace in
    let (init_ok, started, k1) = start_init_process e tested k in
    let (signals, signalled, k2) = run_signals_self_test started k1 in
    let (shell_ok, last, k3) = start_shell_process e signalled k2 in
    let yielded = scheduler_yield k3 in
    if not init_ok
    then (false, flags, started, k1)
    else if not shell_ok
    then (false, signals ∷ flags, last, k3)
    else (all_true (signals ∷ flags), signals ∷ flags, last, yielded.1)

-- Whether the application was launched, its process, the base address of the next one, and both
-- states. `base` is the static `next_app_base`.
unfoldable pub launch_user_application :
    Option Text
    → Option Text
    → Bool
    → ℕ
    → Userspace
    → Scheduler
    → Bool × ℕ × ℕ × Userspace × Scheduler
launch_user_application app_id path elf_loader_ready base s k =
    let (loaded_ok, loaded, s1) = load_user_elf_image (some (synthetic_elf base 16)) 136 s in
    let (cached, s2) =
      register_loader_cache_entry path loaded.lowest_address loaded.entry
        ((loaded.highest_address + 2 ^ 64 - loaded.lowest_address) % 2 ^ 64) s1 in
    let (process_id, k1) = create_process path k in
    let (slot, s3) = register_user_process process_id app_id s2 in
    if is_null app_id || not (app_executable_path_valid path) || not elf_loader_ready
    then (false, 0, base, s, k)
    else if not loaded_ok
    then (false, 0, base, s1, k)
    else if not cached
    then (false, 0, base, s2, k)
    else if process_id == 0
    then (false, 0, base, s2, k1)
    else if not (found slot)
    then (false, 0, base, s3, k1)
    else (true, process_id, (base + 0x20000) % 2 ^ 64, s3, k1)

-- The thread, 0 for a failure. `stack` is what KernelAllocate answers for the thread's stack.
unfoldable pub start_application_event_loop :
    Entries → ℕ → Option Text → ℕ → Userspace → Scheduler → ℕ × Scheduler
start_application_event_loop e process_id app_id stack s k =
    let created = create_thread process_id app_id e.app_main_address process_id stack k in
    if process_id == 0 || is_null app_id || not (found (find_user_process process_id s))
    then (0, k)
    else created

unfoldable pub exit_user_application : ℕ → ℕ → Userspace → Scheduler → Bool × Userspace × Scheduler
exit_user_application process_id exit_code s k = elim (find_user_process process_id s) [
  | none ↦ (false, s, k)
  | some i ↦
      let (ended, k') = terminate_process process_id k in
      if ended then (true, set_user_state i exited s, k') else (false, s, k')
]
