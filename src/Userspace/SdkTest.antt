-- ===== src/Userspace/SdkTest.antt =====
-- kernel/src/userspace.cpp: the self-tests of the SDK's tools and of the compatibility targets.
use uefi_boot_system.Prelude.{ℕ, true, false, not, ◌&&◌, [], ◌∷◌, some, if◌then◌else◌, ◌==◌}
use uefi_boot_system.Prelude.Steps.{all_steps, ask}
use uefi_boot_system.Prelude.Text.{Text, text}
use uefi_boot_system.Userspace.Tables.{find_compatibility_target}
use uefi_boot_system.Userspace.Files.{below_three, posix_open, posix_read, posix_close}
use uefi_boot_system.Userspace.Libc.{
  sdk_package_manifest_valid, graphics_api_surface_valid, audio_api_device_valid,
  window_protocol_handshake_valid,
}
use uefi_boot_system.Userspace.Elf.{load_user_elf_image, synthetic_elf}
use uefi_boot_system.Userspace.SelfTest.{
  Step, found, symbol, component, has_component, compiles, library, target, has_symbol,
}

unfoldable pub run_gcc_support_self_test : Step
run_gcc_support_self_test = all_steps (
    component 5 (text "GCC support") (text "/sdk/bin/x86_64-antigravity-gcc")
    ∷ compiles (text "x86_64-antigravity-gcc") (text "main.c") (text "main.o")
    ∷ [])

unfoldable pub run_clang_support_self_test : Step
run_clang_support_self_test = all_steps (
    component 6 (text "Clang support") (text "/sdk/bin/clang")
    ∷ compiles (text "clang --target=x86_64-antigravity") (text "main.c") (text "main.o")
    ∷ [])

unfoldable pub run_build_sdk_self_test : Step
run_build_sdk_self_test = all_steps (
    component 7 (text "Build SDK") (text "/sdk/share/cmake/AntigravityOS.cmake")
    ∷ compiles (text "ag-build") (text "app.cpp") (text "app.elf")
    ∷ [])

unfoldable pub run_cross_compiler_self_test : Step
run_cross_compiler_self_test = all_steps (
    component 8 (text "Cross Compiler") (text "/sdk/bin/x86_64-antigravity-ld")
    ∷ compiles (text "x86_64-antigravity-g++") (text "kernel.cpp") (text "kernel.o")
    ∷ [])

unfoldable pub run_package_toolchain_self_test : Step
run_package_toolchain_self_test = all_steps (
    component 9 (text "Package Toolchain") (text "/sdk/bin/ag-pkg")
    ∷ ask (λ s.
      sdk_package_manifest_valid (some (text "hello")) (some (text "1.0"))
        (some (text "x86_64-antigravity")))
    ∷ [])

unfoldable pub run_sdk_documentation_self_test : Step
run_sdk_documentation_self_test =
    all_steps
      (component 10 (text "Documentation") (text "/sdk/docs/index.md") ∷ has_component 10 ∷ [])

unfoldable pub run_example_applications_self_test : Step
run_example_applications_self_test = all_steps (
    component 11 (text "Example applications") (text "/sdk/examples/hello")
    ∷ compiles (text "ag-build") (text "examples/hello/main.c") (text "hello.elf")
    ∷ [])

unfoldable pub run_developer_tools_self_test : Step
run_developer_tools_self_test = all_steps (
    component 12 (text "Developer tools") (text "/sdk/bin/ag-debug")
    ∷ compiles (text "ag-debug") (text "hello.elf") (text "trace.log")
    ∷ [])

unfoldable pub run_posix_compatibility_self_test : Step
run_posix_compatibility_self_test s =
    let (fd, opened) = posix_open (some (text "/compat/posix")) s in
    let (count, touched) = posix_read fd true 1 opened in
    let (closed, after) = posix_close fd opened in
    let checks = all_steps (
      target 0 (text "POSIX compatibility") 1 0
      ∷ ask (λ t. found (find_compatibility_target 0 t))
      ∷ []) in
    if below_three fd
    then (false, opened)
    else if not (count == 0)
    then (false, opened)
    else if closed
    then checks after
    else (false, after)

unfoldable pub run_elf_executable_compatibility_self_test : Step
run_elf_executable_compatibility_self_test s =
    let (ok, loaded, s') = load_user_elf_image (some (synthetic_elf 0x410000 8)) 128 s in
    if ok && loaded.valid
    then target 1 (text "ELF executable compatibility") 1 0 s'
    else (false, s')

unfoldable pub run_glibc_compatibility_self_test : Step
run_glibc_compatibility_self_test = all_steps (
    library (text "glibc.so") 0x760000
    ∷ symbol (text "__libc_start_main") 0x830000
    ∷ symbol (text "gnu_get_libc_version") 0x830100
    ∷ target 2 (text "glibc compatibility") 2 39
    ∷ has_symbol (text "glibc.so") (text "__libc_start_main")
    ∷ [])

unfoldable pub run_musl_compatibility_self_test : Step
run_musl_compatibility_self_test = all_steps (
    library (text "musl.so") 0x780000
    ∷ symbol (text "__libc_start_init") 0x840000
    ∷ target 3 (text "musl compatibility") 1 2
    ∷ has_symbol (text "musl.so") (text "__libc_start_init")
    ∷ [])

abbrev surface : Text → ℕ → ℕ → Step
surface api_name width height = ask (λ s. graphics_api_surface_valid (some api_name) width height)

unfoldable pub run_sdl2_support_self_test : Step
run_sdl2_support_self_test = all_steps (
    library (text "libSDL2.so") 0x7A0000
    ∷ symbol (text "SDL_Init") 0x850000
    ∷ target 4 (text "SDL2 support") 2 30
    ∷ has_symbol (text "libSDL2.so") (text "SDL_Init")
    ∷ surface (text "SDL2") 640 480
    ∷ [])

unfoldable pub run_sdl3_support_self_test : Step
run_sdl3_support_self_test = all_steps (
    library (text "libSDL3.so") 0x7C0000
    ∷ symbol (text "SDL_CreateWindow") 0x860000
    ∷ target 5 (text "SDL3 support") 3 2
    ∷ has_symbol (text "libSDL3.so") (text "SDL_CreateWindow")
    ∷ surface (text "SDL3") 800 600
    ∷ [])

unfoldable pub run_opengl_abstraction_self_test : Step
run_opengl_abstraction_self_test = all_steps (
    library (text "libGL.so") 0x7E0000
    ∷ symbol (text "glDrawArrays") 0x870000
    ∷ target 6 (text "OpenGL abstraction") 4 6
    ∷ has_symbol (text "libGL.so") (text "glDrawArrays")
    ∷ surface (text "OpenGL") 1024 768
    ∷ [])

unfoldable pub run_vulkan_abstraction_self_test : Step
run_vulkan_abstraction_self_test = all_steps (
    library (text "libvulkan.so") 0x800000
    ∷ symbol (text "vkCreateInstance") 0x880000
    ∷ target 7 (text "Vulkan abstraction") 1 3
    ∷ has_symbol (text "libvulkan.so") (text "vkCreateInstance")
    ∷ surface (text "Vulkan") 1280 720
    ∷ [])

unfoldable pub run_openal_self_test : Step
run_openal_self_test = all_steps (
    library (text "libopenal.so") 0x820000
    ∷ symbol (text "alcOpenDevice") 0x890000
    ∷ target 8 (text "OpenAL") 1 1
    ∷ has_symbol (text "libopenal.so") (text "alcOpenDevice")
    ∷ ask (λ s. audio_api_device_valid 2 48000)
    ∷ [])

unfoldable pub run_wayland_compatibility_self_test : Step
run_wayland_compatibility_self_test = all_steps (
    library (text "libwayland-client.so") 0x840000
    ∷ symbol (text "wl_display_connect") 0x8A0000
    ∷ target 9 (text "Wayland compatibility") 1 22
    ∷ has_symbol (text "libwayland-client.so") (text "wl_display_connect")
    ∷ ask (λ s. window_protocol_handshake_valid (some (text "wayland")) (some (text "wayland-0")))
    ∷ [])

unfoldable pub run_x11_compatibility_self_test : Step
run_x11_compatibility_self_test = all_steps (
    library (text "libX11.so") 0x860000
    ∷ symbol (text "XOpenDisplay") 0x8B0000
    ∷ target 10 (text "X11 compatibility layer") 11 7
    ∷ has_symbol (text "libX11.so") (text "XOpenDisplay")
    ∷ ask (λ s. window_protocol_handshake_valid (some (text "x11")) (some (text ":0")))
    ∷ [])

unfoldable pub run_steam_runtime_compatibility_self_test : Step
run_steam_runtime_compatibility_self_test = all_steps (
    library (text "steam-runtime.so") 0x880000
    ∷ symbol (text "SteamAPI_Init") 0x8C0000
    ∷ target 11 (text "Steam Runtime compatibility") 3 0
    ∷ has_symbol (text "steam-runtime.so") (text "SteamAPI_Init")
    ∷ ask (λ s. found (find_compatibility_target 2 s))
    ∷ ask (λ s. found (find_compatibility_target 4 s))
    ∷ [])
