-- ===== src/Performance/Ready.antt =====
-- When `KernelPerformanceInit` answers true.
use native.Mathlib.Nat.{mul-le-mul_left, mod-eq_of_lt}
use uefi_boot_system.Prelude.{
  ℕ, ◌*◌, ◌%◌, ◌^◌, ◌<◌, ◌≤◌, ◌≡◌, ◌≢◌, ◌⊎◌, ◌↔◌, inl, inr, refl, Bool, true, false, ◌&&◌, [], ◌∷◌,
  arith, ltb, ◌==◌, Bool-cases,
}
use uefi_boot_system.Prelude.Table.{find_first}
use uefi_boot_system.Prelude.Upsert.{upsert, lookup}
use uefi_boot_system.Prelude.Text.{string_equals, equals_loop}
use uefi_boot_system.Performance.{
  reset_performance, register_performance_counter, read_performance_counter, register_benchmark,
  register_profiler_zone,
}
use uefi_boot_system.Performance.SelfTest.{
  Framebuffer, DriverStatus, framebuffer_valid, scanout_ready, full_frame_pixels, dirty_rect_pixels,
  dirty_path_saves_work, gpu_path_ready, hardware_acceleration, optimized_compositor,
  gpu_acceleration, run_all, run_hardware_acceleration_self_test,
  run_optimized_compositor_self_test, run_multicore_scheduling_self_test,
  run_numa_scheduling_self_test, run_gpu_acceleration_self_test, run_profiling_tools_self_test,
  run_benchmark_suite_self_test, run_kernel_profiler_self_test, run_performance_counters_self_test,
  kernel_performance_init,
}

-- The runs of all self-tests, by the three tests on hardware.
outcome :
    (a b g : Bool) (full dirty : ℕ)
    → (run_all
        (hardware_acceleration a
          ∷ optimized_compositor b full dirty
          ∷ run_multicore_scheduling_self_test
          ∷ run_numa_scheduling_self_test
          ∷ gpu_acceleration g
          ∷ run_profiling_tools_self_test
          ∷ run_benchmark_suite_self_test
          ∷ run_kernel_profiler_self_test
          ∷ run_performance_counters_self_test
          ∷ [])
        true
        reset_performance).0
      ≡ a && b && g
unfolding reset_performance register_performance_counter read_performance_counter register_benchmark
    register_profiler_zone hardware_acceleration optimized_compositor gpu_acceleration
    run_multicore_scheduling_self_test run_numa_scheduling_self_test run_profiling_tools_self_test
    run_benchmark_suite_self_test run_kernel_profiler_self_test run_performance_counters_self_test
    upsert lookup find_first string_equals equals_loop
outcome true true true full dirty = refl
outcome true true false full dirty = refl
outcome true false true full dirty = refl
outcome true false false full dirty = refl
outcome false true true full dirty = refl
outcome false true false full dirty = refl
outcome false false true full dirty = refl
outcome false false false full dirty = refl

-- The answer by the code's own tests.
tests :
    (fb : Framebuffer) (d : DriverStatus)
    → (kernel_performance_init fb d).0
      ≡ (framebuffer_valid fb && scanout_ready d) && dirty_path_saves_work fb && gpu_path_ready d
unfolding kernel_performance_init run_hardware_acceleration_self_test
    run_optimized_compositor_self_test run_gpu_acceleration_self_test
tests fb d =
    outcome (framebuffer_valid fb && scanout_ready d) (dirty_path_saves_work fb) (gpu_path_ready d)
      (full_frame_pixels fb) (dirty_rect_pixels fb)

-- A framebuffer that holds a frame of more than 32 lines.
pub record IsScreen (fb : Framebuffer) : Type 0 where
  pub mapped : fb.base_address ≢ 0
  pub wide : 0 < fb.width
  pub lines : 32 < fb.height
  pub scanline : fb.width ≤ fb.pixels_per_scanline

-- Drivers that scan out a double buffer with a cursor, and drive a GPU of one of three kinds.
pub record IsDriven (d : DriverStatus) : Type 0 where
  pub framebuffer : d.framebuffer_ready ≡ true
  pub double_buffering : d.double_buffering_ready ≡ true
  pub cursor : d.hardware_cursor_ready ≡ true
  pub kms : d.drm_kms_ready ≡ true
  pub memory : d.gpu_memory_ready ≡ true
  pub gpu :
      (d.intel_gpu_supported ≡ true)
      ⊎ (d.amd_gpu_supported ≡ true)
      ⊎ (d.virtio_gpu_supported ≡ true)

taller : (w h : ℕ) → w * 32 < w * h → 32 < h
taller w h less = elim (Bool-cases (ltb 32 h)) [
  | inl tall ↦ ground (arith, tall)
  | inr flat ↦
      let low : h ≤ 32 = ground (arith, flat) in
      let most : w * h ≤ w * 32 = mul-le-mul_left w low in absurd (omega (arith, most, less))
]

-- The products of 32-bit numbers fit 64 bits, and a strip of 32 lines is smaller than the frame exactly
-- where the frame has more lines.
IsScreen-iff :
    (fb : Framebuffer)
    → fb.width < 2 ^ 32
    → fb.height < 2 ^ 32
    → ((framebuffer_valid fb && dirty_path_saves_work fb) ≡ true) ↔ IsScreen fb
unfolding framebuffer_valid dirty_path_saves_work full_frame_pixels dirty_rect_pixels
IsScreen-iff fb width height =
    let w = fb.width in
    let h = fb.height in
    let area : w * h ≤ w * 2 ^ 32 = mul-le-mul_left w (omega (arith, height)) in
    let full : w * h % 2 ^ 64 ≡ w * h = mod-eq_of_lt (omega (arith, area, width)) in
    let dirty : w * 32 % 2 ^ 64 ≡ w * 32 = omega (arith, width) in
    (
      (λ e.
          let less : w * 32 < w * h = ground (arith, e, full, dirty) in
          record {
            mapped = ground (arith, e);
            wide = ground (arith, e);
            lines = taller w h less;
            scanline = ground (arith, e);
          }),
      (λ screen.
          let mapped : (fb.base_address == 0) ≡ false = ground (arith, screen.mapped) in
          let more : w * 33 ≤ w * h = mul-le-mul_left w screen.lines in
          let less : w * 32 < w * h = omega (arith, more, screen.wide) in
          ground (arith, mapped, screen.wide, screen.lines, screen.scanline, less, full, dirty)),
    )

IsDriven-iff : (d : DriverStatus) → ((scanout_ready d && gpu_path_ready d) ≡ true) ↔ IsDriven d
unfolding scanout_ready gpu_path_ready
IsDriven-iff d = (
  (λ e. record {
    framebuffer = ground (arith, e);
    double_buffering = ground (arith, e);
    cursor = ground (arith, e);
    kms = ground (arith, e);
    memory = ground (arith, e);
    gpu = ground (arith, e);
  }),
  (λ driven. ground (
    arith, driven.framebuffer, driven.double_buffering, driven.cursor, driven.kms, driven.memory,
    driven.gpu,
  )),
)

-- On a framebuffer whose width and height are of 32 bits, KernelPerformanceInit answers true exactly
-- when the framebuffer is mapped, is not empty, has more than 32 lines and scan lines that hold its
-- width, and the drivers scan out a double buffer with a cursor and have mode setting, GPU memory and
-- one of the three kinds of GPU: every other self-test passes.
pub kernel_performance_init-Ready :
    (fb : Framebuffer) (d : DriverStatus)
    → fb.width < 2 ^ 32
    → fb.height < 2 ^ 32
    → ((kernel_performance_init fb d).0 ≡ true) ↔ (IsScreen fb × IsDriven d)
kernel_performance_init-Ready fb d width height =
    let run = tests fb d in
    let (to_screen, from_screen) = IsScreen-iff fb width height in
    let (to_driven, from_driven) = IsDriven-iff d in
    (
      (λ e. (to_screen (ground (arith, e, run)), to_driven (ground (arith, e, run)))),
      (λ (screen, driven). ground (arith, run, from_screen screen, from_driven driven)),
    )
