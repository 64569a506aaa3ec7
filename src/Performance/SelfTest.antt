-- ===== src/Performance/SelfTest.antt =====
-- kernel/src/performance.cpp: the self-tests and `KernelPerformanceInit`.
use uefi_boot_system.Prelude.{
  ℕ, ◌*◌, ◌%◌, ◌^◌, Bool, true, not, ◌&&◌, ◌||◌, List, [], ◌∷◌, some, if◌then◌else◌, ltb, leb, ◌==◌,
}
use uefi_boot_system.Prelude.Steps.{all_steps, ask}
use uefi_boot_system.Prelude.Text.{text}
use uefi_boot_system.Performance.{
  Performance, PerformanceStatus, reset_performance, register_performance_counter,
  read_performance_counter, register_benchmark, register_profiler_zone,
}

-- The part of the boot information that is read.
pub record Framebuffer : Type 0 where
  pub base_address : ℕ
  pub width : ℕ
  pub height : ℕ
  pub pixels_per_scanline : ℕ

-- The part of the drivers' status that is read.
pub record DriverStatus : Type 0 where
  pub framebuffer_ready : Bool
  pub double_buffering_ready : Bool
  pub hardware_cursor_ready : Bool
  pub drm_kms_ready : Bool
  pub gpu_memory_ready : Bool
  pub intel_gpu_supported : Bool
  pub amd_gpu_supported : Bool
  pub virtio_gpu_supported : Bool

abbrev pub Step : Type 0
Step = Performance → Bool × Performance

abbrev pub put_status : (PerformanceStatus → PerformanceStatus) → Performance → Performance
put_status change s = record s { status = change s.status }

unfoldable pub framebuffer_valid : Framebuffer → Bool
framebuffer_valid fb =
    not (fb.base_address == 0)
    && ltb 0 fb.width
    && ltb 0 fb.height
    && leb fb.width fb.pixels_per_scanline

unfoldable pub scanout_ready : DriverStatus → Bool
scanout_ready d = d.framebuffer_ready && d.double_buffering_ready && d.hardware_cursor_ready

-- The end of the first self-test, after the test of the framebuffer.
unfoldable pub hardware_acceleration : Bool → Step
hardware_acceleration ready s =
    let (registered, s') =
      register_performance_counter (some (text "hardware.acceleration")) (if ready then 1 else 0)
        (put_status (λ t. record t { hardware_acceleration_ready = ready }) s) in
    (registered && ready, s')

unfoldable pub run_hardware_acceleration_self_test : Framebuffer → DriverStatus → Step
run_hardware_acceleration_self_test fb d =
    hardware_acceleration (framebuffer_valid fb && scanout_ready d)

unfoldable pub full_frame_pixels : Framebuffer → ℕ
full_frame_pixels fb = fb.width * fb.height % 2 ^ 64

unfoldable pub dirty_rect_pixels : Framebuffer → ℕ
dirty_rect_pixels fb = fb.width * 32 % 2 ^ 64

unfoldable pub dirty_path_saves_work : Framebuffer → Bool
dirty_path_saves_work fb =
    ltb 0 (full_frame_pixels fb)
    && ltb 0 (dirty_rect_pixels fb)
    && ltb (dirty_rect_pixels fb) (full_frame_pixels fb)

-- The end of the second self-test, after the test of the sizes.
unfoldable pub optimized_compositor : Bool → ℕ → ℕ → Step
optimized_compositor saves_work full dirty s =
    let (ready, s') =
      all_steps
        (ask (λ t. saves_work)
          ∷ register_performance_counter (some (text "compositor.full_pixels")) full
          ∷ register_performance_counter (some (text "compositor.dirty_pixels")) dirty
          ∷ [])
        (put_status (λ t. record t { compositor_pixels_per_frame = full }) s) in
    (ready, put_status (λ t. record t { optimized_compositor_ready = ready }) s')

unfoldable pub run_optimized_compositor_self_test : Framebuffer → Step
run_optimized_compositor_self_test fb =
    optimized_compositor (dirty_path_saves_work fb) (full_frame_pixels fb) (dirty_rect_pixels fb)

unfoldable pub run_multicore_scheduling_self_test : Step
run_multicore_scheduling_self_test s =
    let (ready, s') =
      all_steps
        (register_performance_counter (some (text "scheduler.balance_count")) 2
          ∷ ask (λ t. leb 2 (read_performance_counter (some (text "scheduler.balance_count")) t))
          ∷ [])
        (put_status (λ t. record t { scheduler_balance_count = 2 }) s) in
    (ready, put_status (λ t. record t { multicore_scheduling_ready = ready }) s')

unfoldable pub run_numa_scheduling_self_test : Step
run_numa_scheduling_self_test s =
    let (ready, s') =
      all_steps
        (ask (λ t. not (0 == 1) && ltb 10 40)
          ∷ register_performance_counter (some (text "scheduler.numa_local_cost")) 10
          ∷ register_performance_counter (some (text "scheduler.numa_remote_cost")) 40
          ∷ [])
        s in
    (ready, put_status (λ t. record t { numa_scheduling_ready = ready }) s')

unfoldable pub gpu_path_ready : DriverStatus → Bool
gpu_path_ready d =
    d.drm_kms_ready
    && d.gpu_memory_ready
    && (d.intel_gpu_supported || d.amd_gpu_supported || d.virtio_gpu_supported)

-- The end of the self-test of the GPU.
unfoldable pub gpu_acceleration : Bool → Step
gpu_acceleration ready s =
    let (registered, s') =
      register_performance_counter (some (text "gpu.acceleration")) (if ready then 1 else 0)
        (put_status (λ t. record t { gpu_acceleration_ready = ready }) s) in
    (registered && ready, s')

unfoldable pub run_gpu_acceleration_self_test : DriverStatus → Step
run_gpu_acceleration_self_test d = gpu_acceleration (gpu_path_ready d)

unfoldable pub run_profiling_tools_self_test : Step
run_profiling_tools_self_test s =
    let (ready, s') =
      all_steps
        (register_profiler_zone (some (text "kernel.init")) 1 120
          ∷ register_profiler_zone (some (text "gui.compositor")) 3 480
          ∷ register_profiler_zone (some (text "scheduler.tick")) 8 96
          ∷ ask (λ (t : Performance). leb 3 t.status.profiler_zone_count)
          ∷ [])
        s in
    (ready, put_status (λ t. record t { profiling_tools_ready = ready }) s')

unfoldable pub run_benchmark_suite_self_test : Step
run_benchmark_suite_self_test s =
    let (ready, s') =
      all_steps
        (register_benchmark (some (text "memory.copy")) 4096 4096
          ∷ register_benchmark (some (text "scheduler.pick_next")) 128 512
          ∷ register_benchmark (some (text "compositor.dirty_rect")) 64 2048
          ∷ ask (λ (t : Performance). leb 3 t.status.benchmark_count)
          ∷ [])
        s in
    (ready, put_status (λ t. record t { benchmark_suite_ready = ready }) s')

unfoldable pub run_kernel_profiler_self_test : Step
run_kernel_profiler_self_test s =
    let (ready, s') =
      all_steps
        (ask (λ (t : Performance). t.status.profiling_tools_ready)
          ∷ register_performance_counter (some (text "profiler.zone_count"))
              s.status.profiler_zone_count
          ∷ ask (λ t. leb 3 (read_performance_counter (some (text "profiler.zone_count")) t))
          ∷ [])
        s in
    (ready, put_status (λ t. record t { kernel_profiler_ready = ready }) s')

unfoldable pub run_performance_counters_self_test : Step
run_performance_counters_self_test s =
    let (ready, s') =
      all_steps
        (register_performance_counter (some (text "cpu.cycles")) 1000000
          ∷ register_performance_counter (some (text "cpu.instructions")) 800000
          ∷ register_performance_counter (some (text "desktop.frames")) 1
          ∷ ask (λ t.
            ltb (read_performance_counter (some (text "cpu.instructions")) t)
              (read_performance_counter (some (text "cpu.cycles")) t))
          ∷ ask (λ (t : Performance). leb 9 t.status.registered_counter_count)
          ∷ [])
        s in
    (ready, put_status (λ t. record t { performance_counters_ready = ready }) s')

-- `ok = step() && ok;` for each step: every step runs.
abbrev pub run_all : List Step → Bool → Step
run_all [] ok s = (ok, s)
run_all (step ∷ steps) ok s = let (passed, s') = step s in run_all steps (passed && ok) s'

unfoldable pub kernel_performance_init : Framebuffer → DriverStatus → Bool × Performance
kernel_performance_init fb d =
    run_all
      (run_hardware_acceleration_self_test fb d
        ∷ run_optimized_compositor_self_test fb
        ∷ run_multicore_scheduling_self_test
        ∷ run_numa_scheduling_self_test
        ∷ run_gpu_acceleration_self_test d
        ∷ run_profiling_tools_self_test
        ∷ run_benchmark_suite_self_test
        ∷ run_kernel_profiler_self_test
        ∷ run_performance_counters_self_test
        ∷ [])
      true reset_performance
