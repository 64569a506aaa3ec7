-- ===== src/Scheduler.antt =====
-- kernel/src/scheduler.cpp: the process, thread, mutex, futex and event object tables. A pointer
-- into a table is the index of its slot; a null pointer is `none`.

pub mod Ipc
pub mod Run
pub mod Sync
pub mod Lifecycle
pub mod Events
pub mod Running
pub mod Tests
use uefi_boot_system.Prelude.{
  ℕ, ◌+◌, ◌-◌, ◌*◌, ◌/◌, ◌%◌, ◌^◌, Bool, true, false, not, ◌&&◌, ◌||◌, List, [], ◌∷◌, Option, none,
  some, if◌then◌else◌, ltb, leb, ◌==◌, replicate, set, get_or,
}
use uefi_boot_system.Prelude.Text.{Text, text}
use uefi_boot_system.Prelude.Table.{find_first}

abbrev pub max_processes : ℕ
max_processes = 64

abbrev pub max_threads : ℕ
max_threads = 128

abbrev pub thread_stack_size : ℕ
thread_stack_size = 8192

abbrev pub kernel_process_id : ℕ
kernel_process_id = 1

abbrev pub ipc_queue_size : ℕ
ipc_queue_size = 8

abbrev pub max_mutexes : ℕ
max_mutexes = 8

abbrev pub max_futexes : ℕ
max_futexes = 8

abbrev pub max_event_objects : ℕ
max_event_objects = 16

abbrev pub max_epoll_watches : ℕ
max_epoll_watches = 8

abbrev pub default_thread_priority : ℕ
default_thread_priority = 8

abbrev pub max_thread_priority : ℕ
max_thread_priority = 31

pub data ThreadState : Type 0 where
  vacant ready running sleeping blocked finished : ThreadState

-- The enumerator's value, by which `==` compares. `vacant` is the source's `Empty`.
abbrev pub state_value : ThreadState → ℕ
state_value vacant = 0
state_value ready = 1
state_value running = 2
state_value sleeping = 3
state_value blocked = 4
state_value finished = 5

pub record Process : Type 0 where
  pub id : ℕ
  pub name : Option Text
  pub active : Bool
  pub ipc_queue : List ℕ
  pub ipc_head : ℕ
  pub ipc_tail : ℕ
  pub ipc_count : ℕ

-- Addresses of code and data are numbers, null is 0. Of the saved context only the stack pointer
-- stands here: the rest is written by the assembly of the context switch.
pub record Thread : Type 0 where
  pub id : ℕ
  pub process_id : ℕ
  pub name : Option Text
  pub state : ThreadState
  pub context_rsp : ℕ
  pub stack_base : ℕ
  pub stack_size : ℕ
  pub entry : ℕ
  pub argument : ℕ
  pub run_count : ℕ
  pub wake_tick : ℕ
  pub pending_signals : ℕ
  pub handled_signals : ℕ
  pub priority : ℕ
  pub waiting_mutex_id : ℕ

pub record KernelMutex : Type 0 where
  pub id : ℕ
  pub active : Bool
  pub locked : Bool
  pub owner_thread_id : ℕ

pub record FutexWaitQueue : Type 0 where
  pub address : ℕ
  pub waiting_threads : List ℕ
  pub waiter_count : ℕ
  pub active : Bool

pub data EventObjectType : Type 0 where
  no_object epoll event timer : EventObjectType

abbrev pub event_value : EventObjectType → ℕ
event_value no_object = 0
event_value epoll = 1
event_value event = 2
event_value timer = 3

pub record EventObject : Type 0 where
  pub fd : ℕ
  pub kind : EventObjectType
  pub value : ℕ
  pub deadline : ℕ
  pub interval : ℕ
  pub watches : List ℕ
  pub watch_count : ℕ

pub record Scheduler : Type 0 where
  pub processes : List Process
  pub threads : List Thread
  pub mutexes : List KernelMutex
  pub futexes : List FutexWaitQueue
  pub event_objects : List EventObject
  pub current : Option ℕ
  pub next_process_id : ℕ
  pub next_thread_id : ℕ
  pub next_mutex_id : ℕ
  pub tick : ℕ
  pub signals_delivered : ℕ
  pub next_event_fd : ℕ

abbrev pub no_process : Process
no_process = record {
  id = 0;
  name = none;
  active = false;
  ipc_queue = replicate ipc_queue_size 0;
  ipc_head = 0;
  ipc_tail = 0;
  ipc_count = 0;
}

abbrev pub no_thread : Thread
no_thread = record {
  id = 0;
  process_id = 0;
  name = none;
  state = vacant;
  context_rsp = 0;
  stack_base = 0;
  stack_size = 0;
  entry = 0;
  argument = 0;
  run_count = 0;
  wake_tick = 0;
  pending_signals = 0;
  handled_signals = 0;
  priority = 0;
  waiting_mutex_id = 0;
}

abbrev pub no_mutex : KernelMutex
no_mutex = record { id = 0; active = false; locked = false; owner_thread_id = 0 }

abbrev pub no_futex : FutexWaitQueue
no_futex = record {
  address = 0;
  waiting_threads = replicate max_threads 0;
  waiter_count = 0;
  active = false;
}

abbrev pub no_event : EventObject
no_event = record {
  fd = 0;
  kind = no_object;
  value = 0;
  deadline = 0;
  interval = 0;
  watches = replicate max_epoll_watches 0;
  watch_count = 0;
}

abbrev pub in_state : ThreadState → Thread → Bool
in_state s thread = state_value thread.state == state_value s

abbrev pub thread_at : Scheduler → ℕ → Thread
thread_at s i = get_or s.threads i no_thread

abbrev pub set_thread : ℕ → Thread → Scheduler → Scheduler
set_thread i thread s = record s { threads = set s.threads i thread }

unfoldable pub find_process : ℕ → List Process → Option ℕ
find_process id processes = find_first (λ p. p.active && p.id == id) processes

unfoldable pub find_thread_slot : Scheduler → Option ℕ
find_thread_slot s = find_first (λ t. in_state vacant t) s.threads

unfoldable pub find_thread : ℕ → List Thread → Option ℕ
find_thread id threads = find_first (λ t. not (in_state vacant t) && t.id == id) threads

unfoldable pub find_mutex : ℕ → List KernelMutex → Option ℕ
find_mutex id mutexes = find_first (λ m. m.active && m.id == id) mutexes
