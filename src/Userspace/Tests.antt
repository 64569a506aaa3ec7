-- ===== src/Userspace/Tests.antt =====
-- User space at concrete inputs.
use uefi_boot_system.Prelude.{ℕ, ◌^◌, ◌<◌, ◌≡◌, refl, true, false, some, arith}
use uefi_boot_system.Prelude.Table.{find_first}
use uefi_boot_system.Prelude.Upsert.{upsert}
use uefi_boot_system.Prelude.Text.{text, equals_loop, string_equals, string_length}
use uefi_boot_system.Userspace.{reset_userspace}
use uefi_boot_system.Userspace.Tables.{set_environment_variable}
use uefi_boot_system.Userspace.Environment.{Sets, set_environment_variable-Sets}
use uefi_boot_system.Userspace.Libc.{
  sqrt_loop, sdk_libm_sqrt, starts_loop, string_starts_with, string_ends_with,
  app_executable_path_valid,
}
use uefi_boot_system.Userspace.Sqrt.{IsRoot, sdk_libm_sqrt-IsRoot}
use uefi_boot_system.Userspace.Elf.{
  Image, header_of, program_at, validate_elf64_header, load_segments, read_elf_image, synthetic_elf,
}
use uefi_boot_system.Userspace.Loader.{IsLoaded, read_elf_image-IsLoaded}

path_set :
    (set_environment_variable (some (text "PATH")) (some (text "/bin")) reset_userspace).0 ≡ true
unfolding set_environment_variable upsert find_first string_equals equals_loop string_length
path_set = refl

set_environment_variable-Sets_example :
    Sets
      (text "PATH")
      (text "/bin")
      reset_userspace
      (set_environment_variable (some (text "PATH")) (some (text "/bin")) reset_userspace).1
set_environment_variable-Sets_example =
    set_environment_variable-Sets (text "PATH") (text "/bin") reset_userspace path_set

sdk_libm_sqrt-IsRoot_example : (r : ℕ) × (sdk_libm_sqrt (2 ^ 32) 144 ≡ some r) × IsRoot 144 r
sdk_libm_sqrt-IsRoot_example = sdk_libm_sqrt-IsRoot 144 (omega arith)

sqrt_runs : sdk_libm_sqrt 13 144 ≡ some 12
unfolding sdk_libm_sqrt sqrt_loop
sqrt_runs = refl

abbrev image : Image
image = synthetic_elf 0x400000 16

one_program : (header_of image).program_header_count < 2 ^ 16
unfolding header_of synthetic_elf
one_program = omega arith

accepted : (read_elf_image (some image) 136).0 ≡ true
unfolding read_elf_image header_of program_at validate_elf64_header load_segments synthetic_elf
accepted = refl

read_elf_image-IsLoaded_example : IsLoaded image 136 (read_elf_image (some image) 136).1
read_elf_image-IsLoaded_example = read_elf_image-IsLoaded image 136 one_program accepted

-- A path under /bin needs no suffix, one under /system/apps does.
path_valid : app_executable_path_valid (some (text "/bin/sh")) ≡ true
unfolding app_executable_path_valid string_starts_with string_ends_with starts_loop string_equals
    equals_loop string_length
path_valid = refl

path_invalid : app_executable_path_valid (some (text "/system/apps/clock")) ≡ false
unfolding app_executable_path_valid string_starts_with string_ends_with starts_loop string_equals
    equals_loop string_length
path_invalid = refl
