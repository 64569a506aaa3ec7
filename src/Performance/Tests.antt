-- ===== src/Performance/Tests.antt =====
-- The start of performance.cpp on a screen of 1024 by 768 pixels with a virtual GPU.
use uefi_boot_system.Prelude.{◌≡◌, ◌↔◌, true, false, arith}
use uefi_boot_system.Performance.SelfTest.{Framebuffer, DriverStatus, kernel_performance_init}
use uefi_boot_system.Performance.Ready.{IsScreen, IsDriven, kernel_performance_init-Ready}

abbrev screen : Framebuffer
screen = record {
  base_address = 0x80000000;
  width = 1024;
  height = 768;
  pixels_per_scanline = 1024;
}

abbrev virtual_gpu : DriverStatus
virtual_gpu = record {
  framebuffer_ready = true;
  double_buffering_ready = true;
  hardware_cursor_ready = true;
  drm_kms_ready = true;
  gpu_memory_ready = true;
  intel_gpu_supported = false;
  amd_gpu_supported = false;
  virtio_gpu_supported = true;
}

kernel_performance_init-Ready_example :
    ((kernel_performance_init screen virtual_gpu).0 ≡ true)
    ↔ (IsScreen screen × IsDriven virtual_gpu)
kernel_performance_init-Ready_example =
    kernel_performance_init-Ready screen virtual_gpu (omega arith) (omega arith)
