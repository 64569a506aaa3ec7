-- ===== src/Scheduler/Tests.antt =====
-- The scheduler's theorems at concrete inputs.
use uefi_boot_system.Prelude.{
  ℕ, ◌+◌, ◌*◌, ◌^◌, ◌<◌, ◌≡◌, refl, true, false, [], ◌∷◌, length, some, ltb, replicate, arith,
}
use uefi_boot_system.Prelude.Text.{text}
use uefi_boot_system.Prelude.Table.{find_first}
use uefi_boot_system.Prelude.Best.{best_of}
use uefi_boot_system.Scheduler.{
  ready, running, sleeping, blocked, event, timer, Process, Thread, EventObject, Scheduler,
  no_process, no_thread, no_mutex, no_futex, no_event, thread_at, find_mutex,
}
use uefi_boot_system.Scheduler.Ipc.{
  enqueue, dequeue, IsRing, Sends, Receives, enqueue-IsRing, dequeue-IsRing,
}
use uefi_boot_system.Scheduler.Run.{
  wake, find_next_runnable, scheduler_yield, thread_sleep, select, dispatch, stay, deliver_signals,
}
use uefi_boot_system.Scheduler.Run.Select.{Woken, Selects, find_next_runnable-Selects}
use uefi_boot_system.Scheduler.Sync.{next_owner, mutex_unlock}
use uefi_boot_system.Scheduler.Sync.Handover.{Passes, mutex_unlock-Passes}
use uefi_boot_system.Scheduler.Lifecycle.{scheduler_init}
use uefi_boot_system.Scheduler.Events.{
  take_expirations, take_value, add_value, Expirations, take_expirations-periodic,
  take_value-add_value,
}
use uefi_boot_system.Scheduler.Running.Operations.{Alone}
use uefi_boot_system.Scheduler.Running.Reach.{started, stepped, yields, Reachable-Alone}

-- The current thread, which owns the mutex, a ready thread and two that wait for the mutex.
abbrev thread : ℕ → Thread
thread n = record no_thread { id = n; process_id = 1; priority = 8 }

abbrev busy : Scheduler
busy = record {
  processes =
      record no_process { id = 1; name = some (text "kernel"); active = true }
      ∷ replicate 63 no_process;
  threads =
      record (thread 1) { state = running }
      ∷ record (thread 2) { state = ready }
      ∷ record (thread 3) { state = blocked; waiting_mutex_id = 1 }
      ∷ record (thread 4) { state = blocked; waiting_mutex_id = 1; priority = 12 }
      ∷ replicate 124 no_thread;
  mutexes =
      record { id = 1; active = true; locked = true; owner_thread_id = 1 } ∷ replicate 7 no_mutex;
  futexes = replicate 8 no_futex;
  event_objects = replicate 16 no_event;
  current = some 0;
  next_process_id = 2;
  next_thread_id = 5;
  next_mutex_id = 2;
  tick = 40;
  signals_delivered = 0;
  next_event_fd = 32;
}

-- The same with a sleeper that is due and one that is not.
abbrev dozing : Scheduler
dozing = record busy {
  threads =
      record (thread 1) { state = running }
      ∷ record (thread 2) { state = sleeping; wake_tick = 40; priority = 9 }
      ∷ record (thread 3) { state = ready }
      ∷ record (thread 4) { state = sleeping; wake_tick = 41; priority = 12 }
      ∷ replicate 124 no_thread;
}

find_next_runnable-Selects_example :
    let r = find_next_runnable dozing in
    (r.1 ≡ record dozing { threads = r.1.threads })
    × (length r.1.threads ≡ length dozing.threads)
    × ((i : ℕ) → Woken dozing.tick (thread_at dozing i) (thread_at r.1 i))
    × Selects r.1.threads 0 r.0
find_next_runnable-Selects_example = find_next_runnable-Selects dozing 0 refl (omega arith)

mutex_unlock-Passes_example :
    ((mutex_unlock 1 busy).0 ≡ true)
    × Passes 1 0 busy (next_owner 1 busy.threads) (mutex_unlock 1 busy).1
unfolding find_mutex find_first
mutex_unlock-Passes_example = mutex_unlock-Passes 1 0 0 busy refl refl refl

Reachable-Alone_example : Alone (scheduler_yield (scheduler_init busy).1).1
Reachable-Alone_example = Reachable-Alone (scheduler_yield (scheduler_init busy).1).1 (
    stepped (scheduler_init busy).1 (scheduler_yield (scheduler_init busy).1).1 (started busy)
      yields)

-- Two messages that wrap around the end of the queue.
abbrev ring : Process
ring = record no_process {
  id = 2;
  active = true;
  ipc_queue = 5 ∷ 0 ∷ 0 ∷ 0 ∷ 0 ∷ 0 ∷ 0 ∷ 4 ∷ [];
  ipc_head = 7;
  ipc_tail = 1;
  ipc_count = 2;
}

ring-IsRing : IsRing ring
ring-IsRing = record { sized = refl; headed = omega arith; counted = omega arith; joined = refl }

enqueue-IsRing_example :
    IsRing (enqueue 6 ring).1 × Sends 6 ring (enqueue 6 ring).0 (enqueue 6 ring).1
enqueue-IsRing_example = enqueue-IsRing 6 ring ring-IsRing

dequeue-IsRing_example : IsRing (dequeue ring).1 × Receives ring (dequeue ring).0 (dequeue ring).1
dequeue-IsRing_example = dequeue-IsRing ring ring-IsRing

abbrev beat : EventObject
beat = record no_event { fd = 33; kind = timer; deadline = 10; interval = 4 }

take_expirations-periodic_example :
    (n : ℕ) × ((take_expirations 23 beat).0 ≡ some n)
    × Expirations 23 beat n
    × ((take_expirations 23 beat).1.deadline ≡ beat.deadline + n * beat.interval)
take_expirations-periodic_example =
    take_expirations-periodic 23 beat refl (omega arith) (omega arith) (omega arith) (omega arith)

abbrev counter : EventObject
counter = record no_event { fd = 32; kind = event; value = 3 }

take_value-add_value_example :
    let r = add_value 4 counter in
    (r.0 ≡ ltb (counter.value + 4) (2 ^ 64))
    × (r.0 ≡ true → 0 < counter.value + 4 → (take_value r.1).0 ≡ some (counter.value + 4))
take_value-add_value_example = take_value-add_value 4 counter refl (omega arith) (omega arith)

-- A thread that sleeps for five ticks while no other thread is ready goes on at once, in the state
-- `Ready`, one tick later.
abbrev lone : Scheduler
lone = record busy { threads = record (thread 1) { state = running } ∷ replicate 127 no_thread }

lone_sleep :
    ((thread_sleep 5 lone).0 ≡ false)
    × ((thread_at (thread_sleep 5 lone).1 0).state ≡ ready)
    × ((thread_sleep 5 lone).1.tick ≡ 41)
unfolding thread_sleep scheduler_yield find_next_runnable select dispatch stay deliver_signals wake
    best_of
lone_sleep = (refl, refl, refl)
