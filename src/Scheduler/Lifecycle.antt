-- ===== src/Scheduler/Lifecycle.antt =====
-- kernel/src/scheduler.cpp: `KernelSchedulerInit`, and how processes and threads come and go.
use uefi_boot_system.Prelude.{
  ℕ, ◌+◌, ◌-◌, ◌*◌, ◌/◌, ◌%◌, ◌^◌, Bool, true, false, not, ◌&&◌, ◌∷◌, map, Option, none, some,
  if◌then◌else◌, ◌==◌, get_or, set, replicate,
}
use uefi_boot_system.Prelude.Text.{Text, text}
use uefi_boot_system.Prelude.Table.{find_first}
use uefi_boot_system.Scheduler.{
  vacant, ready, running, finished, Process, Thread, Scheduler, max_processes, max_threads,
  max_mutexes, max_futexes, max_event_objects, ipc_queue_size, kernel_process_id, thread_stack_size,
  default_thread_priority, no_process, no_thread, no_mutex, no_futex, no_event, in_state, thread_at,
  set_thread, find_process, find_thread_slot, find_thread,
}
use uefi_boot_system.Scheduler.Run.{scheduler_yield}

-- The process and thread numbers go on from where they stood.
unfoldable pub scheduler_init : Scheduler → Bool × Scheduler
scheduler_init before =
    let kernel : Process = record no_process {
      id = before.next_process_id;
      name = some (text "kernel");
      active = true;
    } in
    let bootstrap : Thread = record no_thread {
      id = before.next_thread_id;
      process_id = kernel_process_id;
      name = some (text "bootstrap");
      state = running;
      priority = default_thread_priority;
    } in
    (
      true,
      record {
        processes = kernel ∷ replicate (max_processes - 1) no_process;
        threads = bootstrap ∷ replicate (max_threads - 1) no_thread;
        mutexes = replicate max_mutexes no_mutex;
        futexes = replicate max_futexes no_futex;
        event_objects = replicate max_event_objects no_event;
        current = some 0;
        next_process_id = (before.next_process_id + 1) % 2 ^ 64;
        next_thread_id = (before.next_thread_id + 1) % 2 ^ 64;
        next_mutex_id = 1;
        tick = 0;
        signals_delivered = 0;
        next_event_fd = 32;
      },
    )

unfoldable pub create_process : Option Text → Scheduler → ℕ × Scheduler
create_process name s = elim (find_first (λ p. not p.active) s.processes) [
  | none ↦ (0, s)
  | some i ↦
      let process : Process = record no_process {
        id = s.next_process_id;
        name = name;
        active = true;
      } in
      (
        s.next_process_id,
        record s {
          processes = set s.processes i process;
          next_process_id = (s.next_process_id + 1) % 2 ^ 64;
        },
      )
]

-- `AlignDown(raw_top, 16) - 16`, the stack that `PrepareInitialContext` sets up.
abbrev pub initial_stack : ℕ → ℕ → ℕ
initial_stack base size = (base + size) % 2 ^ 64 / 16 * 16 - 16

-- The slot and the stack are there.
unfoldable pub place_thread : ℕ → Option Text → ℕ → ℕ → ℕ → ℕ → Scheduler → ℕ × Scheduler
place_thread process_id name entry argument stack i s =
    let thread : Thread = record {
      id = s.next_thread_id;
      process_id = process_id;
      name = name;
      state = ready;
      context_rsp = initial_stack stack thread_stack_size;
      stack_base = stack;
      stack_size = thread_stack_size;
      entry = entry;
      argument = argument;
      run_count = 0;
      wake_tick = 0;
      pending_signals = 0;
      handled_signals = 0;
      priority = default_thread_priority;
      waiting_mutex_id = 0;
    } in
    (
      s.next_thread_id,
      record (set_thread i thread s) { next_thread_id = (s.next_thread_id + 1) % 2 ^ 64 },
    )

-- `stack` is what `KernelAllocate(kThreadStackSize, 16)` answers when it is asked; null is 0.
unfoldable pub create_thread : ℕ → Option Text → ℕ → ℕ → ℕ → Scheduler → ℕ × Scheduler
unfolding place_thread
create_thread process_id name entry argument stack s = elim (find_process process_id s.processes) [
  | none ↦ (0, s)
  | some p ↦ if entry == 0 then (0, s) else elim (find_thread_slot s) [
    | none ↦ (0, s)
    | some i ↦ if stack == 0 then (0, s) else place_thread process_id name entry argument stack i s
  ]
]

-- `KernelCloneThread` and `KernelPthreadCreate`.
unfoldable pub clone_thread : ℕ → ℕ → ℕ → ℕ → Scheduler → ℕ × Scheduler
clone_thread process_id = create_thread process_id (some (text "clone"))

unfoldable pub pthread_create : ℕ → ℕ → ℕ → ℕ → Scheduler → ℕ × Scheduler
pthread_create process_id = create_thread process_id (some (text "pthread"))

-- A thread of the process leaves its slot.
unfoldable pub reap : ℕ → Thread → Thread
reap process_id thread =
    if not (in_state vacant thread) && thread.process_id == process_id
    then record thread {
      state = vacant;
      process_id = 0;
      entry = 0;
      argument = 0;
      stack_base = 0;
      stack_size = 0;
    }
    else thread

abbrev pub emptied : Process → Process
emptied process = record process {
  ipc_head = 0;
  ipc_tail = 0;
  ipc_count = 0;
  ipc_queue = replicate ipc_queue_size 0;
}

unfoldable pub terminate_process : ℕ → Scheduler → Bool × Scheduler
unfolding reap
terminate_process process_id s = elim (find_process process_id s.processes) [
  | none ↦ (false, s)
  | some i ↦
      let process : Process = record (emptied (get_or s.processes i no_process)) {
        active = false;
      } in
      if process_id == kernel_process_id then (false, s) else (
        true,
        record s {
          processes = set s.processes i process;
          threads = map (reap process_id) s.threads;
        },
      )
]

unfoldable pub fork_process : ℕ → Scheduler → ℕ × Scheduler
unfolding create_process
fork_process parent_process_id s = elim (find_process parent_process_id s.processes) [
  | none ↦ (0, s)
  | some i ↦
      let parent = get_or s.processes i no_process in
      let (child_id, made) = create_process parent.name s in
      elim (find_process child_id made.processes) [
        | none ↦ (0, made)
        | some j ↦
            let child : Process = record (get_or made.processes j no_process) {
              ipc_head = parent.ipc_head;
              ipc_tail = parent.ipc_tail;
              ipc_count = parent.ipc_count;
              ipc_queue = parent.ipc_queue;
            } in
            (child_id, record made { processes = set made.processes j child })
      ]
]

unfoldable pub exec_process : ℕ → Option Text → ℕ → ℕ → ℕ → Scheduler → Bool × Scheduler
unfolding create_thread
exec_process process_id image_name entry argument stack s =
    elim (find_process process_id s.processes) [
      | none ↦ (false, s)
      | some i ↦ elim image_name [
        | none ↦ (false, s)
        | some image ↦
            let process : Process = record (emptied (get_or s.processes i no_process)) {
              name = some image;
            } in
            let r =
              create_thread process_id (some image) entry argument stack
                (record s { processes = set s.processes i process }) in
            if entry == 0 then (false, s) else (not (r.0 == 0), r.1)
      ]
    ]

-- One round of the loop of `KernelPthreadJoin` on the thread's slot: joined, or a yield and another
-- round.
unfoldable pub join_round : ℕ → Scheduler → Bool × Scheduler
unfolding scheduler_yield
join_round i s =
    if in_state finished (thread_at s i)
    then (true, set_thread i (record (thread_at s i) { state = vacant }) s)
    else (false, (scheduler_yield s).1)

-- The slot that `KernelPthreadJoin` waits for, or `none` where it answers false at once.
unfoldable pub join_slot : ℕ → Scheduler → Option ℕ
join_slot thread_id s = elim (find_thread thread_id s.threads) [
  | none ↦ none
  | some i ↦ elim s.current [ none ↦ some i | some j ↦ if i == j then none else some i ]
]

-- The end of `ThreadTrampoline`: the thread is finished and yields.
unfoldable pub finish_thread : ℕ → Scheduler → Bool × Scheduler
unfolding scheduler_yield
finish_thread i s = scheduler_yield (set_thread i (record (thread_at s i) { state = finished }) s)
