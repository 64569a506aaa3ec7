-- ===== src/Scheduler/Running/Reach.antt =====
-- The states that the scheduler's operations reach from `KernelSchedulerInit`.
use uefi_boot_system.Prelude.{ℕ, Option}
use uefi_boot_system.Prelude.Text.{Text}
use uefi_boot_system.Scheduler.{Scheduler}
use uefi_boot_system.Scheduler.Run.{
  timer_tick, scheduler_yield, set_thread_priority, thread_sleep, send_signal,
}
use uefi_boot_system.Scheduler.Sync.{mutex_lock, mutex_unlock, futex_wake, futex_wait}
use uefi_boot_system.Scheduler.Lifecycle.{
  scheduler_init, create_process, create_thread, fork_process, exec_process, terminate_process,
  join_round, finish_thread,
}
use uefi_boot_system.Scheduler.Running.{scheduler_yield-RunsAlone}
use uefi_boot_system.Scheduler.Running.Operations.{
  state_of, Alone, scheduler_init-Alone, thread_sleep-Alone, set_thread_priority-Alone,
  send_signal-Alone, create_process-Alone, create_thread-Alone, terminate_process-Alone,
  join_round-Alone, mutex_lock-Alone, mutex_unlock-Alone, futex_wake-Alone, futex_wait-Alone,
  timer_tick-Alone, finish_thread-Alone, fork_process-Alone, exec_process-Alone,
}

-- One call of an operation, with any arguments; `finishes` is the end of the thread of any slot.
pub data Step (s : Scheduler) : Scheduler → Type 0 where
  yields : Step s (scheduler_yield s).1
  ticks : Step s (timer_tick s)
  sleeps : (n : ℕ) → Step s (thread_sleep n s).1
  prioritises : (id priority : ℕ) → Step s (set_thread_priority id priority s).1
  signals : (id signal : ℕ) → Step s (send_signal id signal s).1
  creates_process : (name : Option Text) → Step s (create_process name s).1
  creates_thread :
      (process : ℕ) (name : Option Text) (entry argument stack : ℕ)
      → Step s (create_thread process name entry argument stack s).1
  forks : (parent : ℕ) → Step s (fork_process parent s).1
  executes :
      (process : ℕ) (image : Option Text) (entry argument stack : ℕ)
      → Step s (exec_process process image entry argument stack s).1
  terminates : (process : ℕ) → Step s (terminate_process process s).1
  joins : (slot : ℕ) → Step s (join_round slot s).1
  finishes : (slot : ℕ) → Step s (finish_thread slot s).1
  locks : (mutex : ℕ) → Step s (state_of (mutex_lock mutex s))
  unlocks : (mutex : ℕ) → Step s (mutex_unlock mutex s).1
  waits : (address word expected : ℕ) → Step s (state_of (futex_wait address word expected s))
  wakes : (address count : ℕ) → Step s (futex_wake address count s).1

pub data Reachable : Scheduler → Type 0 where
  started : (before : Scheduler) → Reachable (scheduler_init before).1
  stepped : (s t : Scheduler) → Reachable s → Step s t → Reachable t

Step-Alone : (s t : Scheduler) → Alone s → Step s t → Alone t
Step-Alone s t alone yields = scheduler_yield-RunsAlone s alone
Step-Alone s t alone ticks = timer_tick-Alone s alone
Step-Alone s t alone (sleeps n) = thread_sleep-Alone n s alone
Step-Alone s t alone (prioritises id priority) = set_thread_priority-Alone id priority s alone
Step-Alone s t alone (signals id signal) = send_signal-Alone id signal s alone
Step-Alone s t alone (creates_process name) = create_process-Alone name s alone
Step-Alone s t alone (creates_thread process name entry argument stack) =
    create_thread-Alone process name entry argument stack s alone
Step-Alone s t alone (forks parent) = fork_process-Alone parent s alone
Step-Alone s t alone (executes process image entry argument stack) =
    exec_process-Alone process image entry argument stack s alone
Step-Alone s t alone (terminates process) = terminate_process-Alone process s alone
Step-Alone s t alone (joins slot) = join_round-Alone slot s alone
Step-Alone s t alone (finishes slot) = finish_thread-Alone slot s alone
Step-Alone s t alone (locks mutex) = mutex_lock-Alone mutex s alone
Step-Alone s t alone (unlocks mutex) = mutex_unlock-Alone mutex s alone
Step-Alone s t alone (wakes address count) = futex_wake-Alone address count s alone
Step-Alone s t alone (waits address word expected) = futex_wait-Alone address word expected s alone

-- In every state that the operations reach from `KernelSchedulerInit`, in any order and with any
-- arguments, a thread that is running is the current one; so at most one is.
pub Reachable-Alone : (s : Scheduler) → Reachable s → Alone s
Reachable-Alone s (started before) = scheduler_init-Alone before
Reachable-Alone s (stepped r t before step) = Step-Alone r t (Reachable-Alone r before) step
