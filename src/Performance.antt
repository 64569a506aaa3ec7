-- ===== src/Performance.antt =====
-- kernel/src/performance.cpp: counters, benchmarks and profiler zones. Names are texts; every slot of
-- a table is zeroed at the start, its name null. Logging and PrintPerformanceInfo are left out.
pub mod SelfTest
pub mod Ready
mod Tests
use uefi_boot_system.Prelude.{
  ℕ, ◌+◌, ◌%◌, ◌^◌, Bool, true, false, not, List, Option, none, some, if◌then◌else◌, set, replicate,
}
use uefi_boot_system.Prelude.Table.{find_first}
use uefi_boot_system.Prelude.Upsert.{upsert, lookup}
use uefi_boot_system.Prelude.Text.{Text, string_equals}

pub record PerformanceCounter : Type 0 where
  pub name : Option Text
  pub value : ℕ
  pub active : Bool

pub record BenchmarkCase : Type 0 where
  pub name : Option Text
  pub iterations : ℕ
  pub score : ℕ
  pub active : Bool

pub record ProfilerZone : Type 0 where
  pub name : Option Text
  pub enter_count : ℕ
  pub total_ticks : ℕ
  pub active : Bool

pub record PerformanceStatus : Type 0 where
  pub hardware_acceleration_ready : Bool
  pub optimized_compositor_ready : Bool
  pub multicore_scheduling_ready : Bool
  pub numa_scheduling_ready : Bool
  pub gpu_acceleration_ready : Bool
  pub profiling_tools_ready : Bool
  pub benchmark_suite_ready : Bool
  pub kernel_profiler_ready : Bool
  pub performance_counters_ready : Bool
  pub registered_counter_count : ℕ
  pub benchmark_count : ℕ
  pub profiler_zone_count : ℕ
  pub compositor_pixels_per_frame : ℕ
  pub scheduler_balance_count : ℕ

pub record Performance : Type 0 where
  pub status : PerformanceStatus
  pub counters : List PerformanceCounter
  pub benchmarks : List BenchmarkCase
  pub zones : List ProfilerZone

abbrev pub max_performance_counters : ℕ
max_performance_counters = 16

abbrev pub max_benchmarks : ℕ
max_benchmarks = 8

abbrev pub max_profiler_zones : ℕ
max_profiler_zones = 8

abbrev pub no_counter : PerformanceCounter
no_counter = record { name = none; value = 0; active = false }

abbrev pub no_benchmark : BenchmarkCase
no_benchmark = record { name = none; iterations = 0; score = 0; active = false }

abbrev pub no_zone : ProfilerZone
no_zone = record { name = none; enter_count = 0; total_ticks = 0; active = false }

abbrev pub no_status : PerformanceStatus
no_status = record {
  hardware_acceleration_ready = false;
  optimized_compositor_ready = false;
  multicore_scheduling_ready = false;
  numa_scheduling_ready = false;
  gpu_acceleration_ready = false;
  profiling_tools_ready = false;
  benchmark_suite_ready = false;
  kernel_profiler_ready = false;
  performance_counters_ready = false;
  registered_counter_count = 0;
  benchmark_count = 0;
  profiler_zone_count = 0;
  compositor_pixels_per_frame = 0;
  scheduler_balance_count = 0;
}

-- The zeroed tables of `KernelPerformanceInit`.
unfoldable pub reset_performance : Performance
reset_performance = record {
  status = no_status;
  counters = replicate max_performance_counters no_counter;
  benchmarks = replicate max_benchmarks no_benchmark;
  zones = replicate max_profiler_zones no_zone;
}

abbrev next_count : ℕ → ℕ
next_count n = (n + 1) % 2 ^ 32

abbrev live_counter : PerformanceCounter → Bool
live_counter c = c.active

abbrev counter_named : Option Text → PerformanceCounter → Bool
counter_named name c = string_equals c.name name

unfoldable pub register_performance_counter : Option Text → ℕ → Performance → Bool × Performance
register_performance_counter name value s =
    elim (upsert live_counter (counter_named name) (λ c. record c { value = value })
      (record { name = name; value = value; active = true }) s.counters) [
        | none ↦ (false, s)
        | some r ↦
            let (fresh, counters) = r in
            let count = s.status.registered_counter_count in
            (
              true,
              record s {
                counters = counters;
                status = record s.status {
                  registered_counter_count = if fresh then next_count count else count;
                };
              },
            )
      ]

unfoldable pub read_performance_counter : Option Text → Performance → ℕ
read_performance_counter name s =
    elim (lookup live_counter (counter_named name) no_counter s.counters) [
      | none ↦ 0
      | some c ↦ c.value
    ]

unfoldable pub register_benchmark : Option Text → ℕ → ℕ → Performance → Bool × Performance
register_benchmark name iterations score s =
    elim (find_first (λ (b : BenchmarkCase). not b.active) s.benchmarks) [
      | none ↦ (false, s)
      | some i ↦ (
        true,
        record s {
          benchmarks =
              set s.benchmarks i
                (record { name = name; iterations = iterations; score = score; active = true });
          status = record s.status { benchmark_count = next_count s.status.benchmark_count };
        },
      )
    ]

unfoldable pub register_profiler_zone : Option Text → ℕ → ℕ → Performance → Bool × Performance
register_profiler_zone name enter_count total_ticks s =
    elim (find_first (λ (z : ProfilerZone). not z.active) s.zones) [
      | none ↦ (false, s)
      | some i ↦ (
        true,
        record s {
          zones = set s.zones i (record {
            name = name;
            enter_count = enter_count;
            total_ticks = total_ticks;
            active = true;
          });
          status = record s.status {
            profiler_zone_count = next_count s.status.profiler_zone_count;
          };
        },
      )
    ]
