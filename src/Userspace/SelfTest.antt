-- ===== src/Userspace/SelfTest.antt =====
-- kernel/src/userspace.cpp: the self-tests on the tables, files, libraries and the ELF loader.
use uefi_boot_system.Prelude.{
  ℕ, zero, suc, ◌+◌, ◌-◌, ◌^◌, Bool, true, false, not, ◌&&◌, List, [], ◌∷◌, Option, none, some,
  if◌then◌else◌, ltb, leb, ◌==◌, get_or, set, replicate, length,
}
use uefi_boot_system.Prelude.Steps.{all_steps, ask}
use uefi_boot_system.Prelude.Text.{Text, text, string_equals}
use uefi_boot_system.Userspace.{SharedLibrary, Userspace, first_synthetic_fd, no_pty}
use uefi_boot_system.Userspace.Tables.{
  register_loader_cache_entry, find_loader_cache_entry, set_environment_variable,
  get_environment_variable, load_shared_library, find_shared_library, sdk_register_component,
  find_sdk_component, register_compatibility_target, register_dynamic_symbol,
  resolve_dynamic_symbol, is_null,
}
use uefi_boot_system.Userspace.Files.{
  below_three, posix_open, posix_read, posix_close, create_pipe, pipe_write, pipe_read,
  open_pseudo_terminal,
}
use uefi_boot_system.Userspace.Libc.{
  Comparison, equal, less, more, sdk_libc_memcpy, sdk_libc_strcmp, sdk_libm_abs, sdk_libm_sqrt,
  sdk_compile_command_valid,
}
use uefi_boot_system.Userspace.Elf.{load_user_elf_image, synthetic_elf}
use uefi_boot_system.Userspace.Syscall.{libc_write}

abbrev pub Step : Type 0
Step = Userspace → Bool × Userspace

abbrev pub found : {A : Type 0} → Option A → Bool
found none = false
found (some a) = true

abbrev pub symbol : Text → ℕ → Step
symbol name address = register_dynamic_symbol (some name) address

abbrev symbol_is : Text → ℕ → Step
symbol_is name address = ask (λ s. resolve_dynamic_symbol (some name) s == address)

abbrev pub component : ℕ → Text → Text → Step
component kind name path = sdk_register_component kind (some name) (some path)

abbrev pub has_component : ℕ → Step
has_component kind = ask (λ s. found (find_sdk_component kind s))

abbrev pub compiles : Text → Text → Text → Step
compiles compiler source output =
    ask (λ s. sdk_compile_command_valid (some compiler) (some source) (some output))

abbrev pub library : Text → ℕ → Step
library soname base = load_shared_library (some soname) base

abbrev pub target : ℕ → Text → ℕ → ℕ → Step
target kind name version_major version_minor =
    register_compatibility_target kind (some name) version_major version_minor

unfoldable pub compat_symbol_available : Option Text → Option Text → Userspace → Bool
compat_symbol_available soname name s =
    found (find_shared_library soname s) && not (resolve_dynamic_symbol name s == 0)

abbrev pub has_symbol : Text → Text → Step
has_symbol soname name = ask (compat_symbol_available (some soname) (some name))

-- The end of the two self-tests that load an image.
unfoldable pub run_elf_loader_self_test : Step
run_elf_loader_self_test s =
    let (ok, loaded, s') = load_user_elf_image (some (synthetic_elf 0x400000 16)) 136 s in
    (ok && loaded.valid && (loaded.entry == 0x400000) && (loaded.segment_count == 1), s')

-- `address` is that of `LibcWrite`.
unfoldable pub run_dynamic_linker_self_test : ℕ → Step
run_dynamic_linker_self_test address = all_steps (
    symbol (text "write") address
    ∷ symbol_is (text "write") address
    ∷ symbol_is (text "missing") 0
    ∷ [])

unfoldable pub run_libc_self_test : Step
run_libc_self_test s =
    let (written, s') = libc_write 1 (some (text "libc: ok")) s in
    ((written == 8) && (s'.counts.syscall_count == s.counts.syscall_count + 1), s')

unfoldable pub run_posix_self_test : Step
run_posix_self_test s =
    let (fd, opened) = posix_open (some (text "/tmp/readme")) s in
    let (count, touched) = posix_read fd true 1 opened in
    let (closed, after) = posix_close fd opened in
    let (again, last) = posix_close fd after in
    if below_three fd
    then (false, opened)
    else if (count == 0) && closed
    then (not again, last)
    else (false, after)

unfoldable pub run_dynamic_loader_cache_self_test : Step
run_dynamic_loader_cache_self_test = all_steps (
    register_loader_cache_entry (some (text "/bin/init")) 0x400000 0x401000 0x3000
    ∷ register_loader_cache_entry (some (text "/bin/sh")) 0x500000 0x501000 0x2000
    ∷ ask (λ s. found (find_loader_cache_entry (some (text "/bin/init")) s))
    ∷ ask (λ s. not (found (find_loader_cache_entry (some (text "/bin/missing")) s)))
    ∷ [])

unfoldable pub run_environment_self_test : Step
run_environment_self_test = all_steps (
    set_environment_variable (some (text "PATH")) (some (text "/bin:/usr/bin"))
    ∷ set_environment_variable (some (text "HOME")) (some (text "/"))
    ∷ set_environment_variable (some (text "TERM")) (some (text "kernel"))
    ∷ ask (λ s.
      string_equals (get_environment_variable (some (text "PATH")) s) (some (text "/bin:/usr/bin")))
    ∷ ask (λ s.
      string_equals (get_environment_variable (some (text "TERM")) s) (some (text "kernel")))
    ∷ ask (λ s. is_null (get_environment_variable (some (text "MISSING")) s))
    ∷ [])

abbrev references_are : ℕ → Option SharedLibrary → Bool
references_are n none = false
references_are n (some l) = l.reference_count == n

unfoldable pub run_shared_library_self_test : Step
run_shared_library_self_test = all_steps (
    library (text "libc.so") 0x700000
    ∷ library (text "libposix.so") 0x720000
    ∷ library (text "libc.so") 0x700000
    ∷ ask (λ s. references_are 2 (find_shared_library (some (text "libc.so")) s))
    ∷ ask (λ s. references_are 1 (find_shared_library (some (text "libposix.so")) s))
    ∷ ask (λ s. not (found (find_shared_library (some (text "libmissing.so")) s)))
    ∷ [])

abbrev pipe_round : ℕ → ℕ → Step
pipe_round read_fd write_fd s =
    let (written, filled) = pipe_write (some write_fd) (some (text "hello")) 5 s in
    let (bytes, drained) = pipe_read (some read_fd) true 5 filled in
    if written == 5
    then ((length bytes == 5) && (get_or bytes 0 0 == 0x68) && (get_or bytes 4 0 == 0x6F), drained)
    else (false, filled)

unfoldable pub run_pipe_self_test : Step
run_pipe_self_test s =
    let (slot, s') = create_pipe true s in
    elim slot [
      | none ↦ (false, s')
      | some (i, read_fd, write_fd) ↦
          if read_fd == write_fd then (false, s') else pipe_round read_fd write_fd s'
    ]

unfoldable pub run_pty_self_test : Step
run_pty_self_test s =
    let (slot, s') = open_pseudo_terminal (some (text "/dev/pts/0")) true s in
    elim slot [
      | none ↦ (false, s')
      | some (i, master_fd, slave_fd) ↦ (
        (get_or s'.ptys i no_pty).is_open
            && leb first_synthetic_fd master_fd
            && leb first_synthetic_fd slave_fd
            && not (master_fd == slave_fd)
            && string_equals (get_or s'.ptys i no_pty).name (some (text "/dev/pts/0")),
        s',
      )
    ]

abbrev copied : Option (List ℕ) → Text
copied none = []
copied (some bytes) = bytes

abbrev is_equal : Comparison → Bool
is_equal equal = true
is_equal (less n) = false
is_equal (more n) = false

abbrev until_zero : List ℕ → Text
until_zero [] = []
until_zero (x ∷ xs) = if x == 0 then [] else x ∷ until_zero xs

unfoldable pub run_full_libc_self_test : Step
run_full_libc_self_test = all_steps (
    component 0 (text "Full libc") (text "/sdk/lib/libc.a")
    ∷ ask (λ s.
      let buffer = sdk_libc_memcpy (some (replicate 8 0)) (some (0x73 ∷ 0x64 ∷ 0x6B ∷ 0 ∷ [])) 4 in
      found buffer
      && is_equal (sdk_libc_strcmp (some (until_zero (copied buffer))) (some (text "sdk"))))
    ∷ has_component 0
    ∷ [])

abbrev answers : Option ℕ → ℕ → Bool
answers none n = false
answers (some m) n = m == n

-- The loop of `SdkLibmSqrt` gets 13 rounds here, which are enough for 144.
unfoldable pub run_libm_self_test : Step
run_libm_self_test = all_steps (
    component 1 (text "libm") (text "/sdk/lib/libm.a")
    ∷ ask (λ s. sdk_libm_abs (2 ^ 64 - 42) == 42)
    ∷ ask (λ s. answers (sdk_libm_sqrt 13 144) 12)
    ∷ has_component 1
    ∷ [])

unfoldable pub run_libpthread_self_test : Step
run_libpthread_self_test = all_steps (
    component 2 (text "libpthread") (text "/sdk/lib/libpthread.a")
    ∷ symbol (text "pthread_create") 0x810000
    ∷ symbol (text "pthread_join") 0x810080
    ∷ symbol_is (text "pthread_create") 0x810000
    ∷ symbol_is (text "pthread_join") 0x810080
    ∷ [])

unfoldable pub run_libdl_self_test : Step
run_libdl_self_test = all_steps (
    component 3 (text "libdl") (text "/sdk/lib/libdl.a")
    ∷ library (text "libdl.so") 0x740000
    ∷ symbol (text "dlopen") 0x820000
    ∷ symbol (text "dlsym") 0x820100
    ∷ ask (λ s. found (find_shared_library (some (text "libdl.so")) s))
    ∷ symbol_is (text "dlsym") 0x820100
    ∷ [])

-- The round `(i, j)` of the sort in `RunCppStlSelfTest`.
abbrev exchange : ℕ → ℕ → List ℕ → List ℕ
exchange i j values =
    if ltb (get_or values j 0) (get_or values i 0)
    then set (set values i (get_or values j 0)) j (get_or values i 0)
    else values

-- The inner loop with `n` rounds left from `j` on, and the outer loop with `n` rounds left from `i` on.
unfoldable pub sort_inner : ℕ → ℕ → ℕ → List ℕ → List ℕ
sort_inner zero i j values = values
sort_inner (suc n) i j values = sort_inner n i (j + 1) (exchange i j values)

unfoldable pub sort_outer : ℕ → ℕ → List ℕ → List ℕ
unfolding sort_inner
sort_outer zero i values = values
sort_outer (suc n) i values = sort_outer n (i + 1) (sort_inner n i (i + 1) values)

unfoldable pub run_cpp_stl_self_test : Step
run_cpp_stl_self_test =
    let values = sort_outer 4 0 (3 ∷ 1 ∷ 4 ∷ 2 ∷ []) in
    all_steps (
      component 4 (text "C++ STL") (text "/sdk/include/c++")
      ∷ ask (λ s. get_or values 0 0 == 1)
      ∷ ask (λ s. get_or values 3 0 == 4)
      ∷ has_component 4
      ∷ [])
