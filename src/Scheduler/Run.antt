-- ===== src/Scheduler/Run.antt =====
-- kernel/src/scheduler.cpp: choosing the next thread, yielding, sleeping and signals.
pub mod Select
use uefi_boot_system.Prelude.{
  ℕ, zero, suc, ◌+◌, ◌-◌, ◌*◌, ◌%◌, ◌^◌, Bool, true, false, not, ◌&&◌, ◌||◌, List, [], ◌∷◌, map,
  Option, none, some, if◌then◌else◌, ltb, leb, ◌==◌, get_or, set, bit_or,
}
use uefi_boot_system.Prelude.Best.{best_of}
use uefi_boot_system.Scheduler.{
  ThreadState, ready, running, sleeping, blocked, Thread, Scheduler, max_threads, no_thread,
  in_state, thread_at, set_thread, find_thread, max_thread_priority,
}

-- `KernelSchedulerTimerTick` and `FindNextRunnable` wake a sleeper whose tick has come.
unfoldable pub wake : ℕ → Thread → Thread
wake tick thread =
    if in_state sleeping thread && leb thread.wake_tick tick
    then record thread { state = ready; wake_tick = 0 }
    else thread

unfoldable pub timer_tick : Scheduler → Scheduler
timer_tick s =
    let tick = (s.tick + 1) % 2 ^ 64 in
    record s { tick = tick; threads = map (wake tick) s.threads }

-- The indices that the selection loop visits: `(start + offset) % kMaxThreads` for `count` offsets.
abbrev pub rotation : ℕ → ℕ → ℕ → List ℕ
rotation start offset zero = []
rotation start offset (suc count) =
    (start + offset) % max_threads ∷ rotation start (offset + 1) count

-- The ready thread of the highest priority, the first one after the current thread.
unfoldable pub select : ℕ → List Thread → Option ℕ
select start threads =
    best_of (λ i. in_state ready (get_or threads i no_thread))
      (λ i. (get_or threads i no_thread).priority) (rotation start 1 max_threads) none

unfoldable pub find_next_runnable : Scheduler → Option ℕ × Scheduler
unfolding select
find_next_runnable s = elim s.current [
  | none ↦ (none, s)
  | some start ↦
      let threads = map (wake s.tick) s.threads in
      (select start threads, record s { threads = threads })
]

unfoldable pub deliver_signals : ℕ → Scheduler → Scheduler
deliver_signals i s =
    let thread = thread_at s i in
    if thread.pending_signals == 0
    then s
    else let handled : Thread = record thread {
      handled_signals = bit_or thread.handled_signals thread.pending_signals;
      pending_signals = 0;
    } in
      record (set_thread i handled s) { signals_delivered = (s.signals_delivered + 1) % 2 ^ 64 }

-- The early return, when no other thread is to run.
unfoldable pub stay : Scheduler → Scheduler
stay s = elim s.current [
  | none ↦ s
  | some i ↦
      let thread = thread_at s i in
      if in_state sleeping thread
      then set_thread i (record thread { state = ready; wake_tick = 0 }) s
      else s
]

-- From the current thread to another, up to the switch of the context.
unfoldable pub switch_to : ℕ → ℕ → Scheduler → Scheduler
unfolding deliver_signals
switch_to previous next s =
    let old = thread_at s previous in
    let left =
      if in_state running old then set_thread previous (record old { state = ready }) s else s in
    let chosen = thread_at left next in
    let entered =
      set_thread next
        (record chosen { state = running; run_count = (chosen.run_count + 1) % 2 ^ 64 }) left in
    deliver_signals next (record entered { current = some next })

-- The next thread was chosen, or not.
unfoldable pub dispatch : Option ℕ → Scheduler → Bool × Scheduler
unfolding stay switch_to
dispatch none s = (false, stay s)
dispatch (some next) s = elim s.current [
  | none ↦ (false, stay s)
  | some i ↦ if next == i then (false, stay s) else (true, switch_to i next s)
]

-- Whether the context was switched, and the state then. The caller goes on where the answer is
-- false; where it is true, it goes on when a later switch comes back to its thread.
unfoldable pub scheduler_yield : Scheduler → Bool × Scheduler
unfolding find_next_runnable dispatch
scheduler_yield s =
    let ticked : Scheduler = record s { tick = (s.tick + 1) % 2 ^ 64 } in
    let delivered : Scheduler = elim ticked.current [
      | none ↦ ticked
      | some i ↦ deliver_signals i ticked
    ] in
    let found = find_next_runnable delivered in dispatch found.0 found.1

unfoldable pub set_thread_priority : ℕ → ℕ → Scheduler → Bool × Scheduler
set_thread_priority thread_id priority s = elim (find_thread thread_id s.threads) [
  | none ↦ (false, s)
  | some i ↦
      if ltb max_thread_priority priority
      then (false, s)
      else (true, set_thread i (record (thread_at s i) { priority = priority }) s)
]

unfoldable pub thread_sleep : ℕ → Scheduler → Bool × Scheduler
unfolding scheduler_yield
thread_sleep ticks s = elim s.current [
  | none ↦ (false, s)
  | some i ↦
      let asleep : Thread = record (thread_at s i) {
        wake_tick = (s.tick + ticks) % 2 ^ 64;
        state = sleeping;
      } in
      if ticks == 0 then (false, s) else scheduler_yield (set_thread i asleep s)
]

unfoldable pub send_signal : ℕ → ℕ → Scheduler → Bool × Scheduler
send_signal thread_id signal s =
    if leb 32 signal then (false, s) else elim (find_thread thread_id s.threads) [
      | none ↦ (false, s)
      | some i ↦
          let thread = thread_at s i in
          let marked : Thread = record thread {
            pending_signals = bit_or thread.pending_signals (2 ^ signal);
          } in
          let woken : Thread = record marked {
            state = ready;
            wake_tick = 0;
            waiting_mutex_id = 0;
          } in
          (
            true,
            set_thread i
                (if in_state sleeping thread || in_state blocked thread then woken else marked) s,
          )
    ]
