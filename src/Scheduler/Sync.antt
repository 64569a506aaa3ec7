-- ===== src/Scheduler/Sync.antt =====
-- kernel/src/scheduler.cpp: mutexes and futexes.
pub mod Handover
use uefi_boot_system.Prelude.{
  ℕ, zero, suc, ◌+◌, ◌-◌, ◌%◌, ◌^◌, Bool, true, false, not, ◌&&◌, ◌||◌, List, [], ◌∷◌, map, Option,
  none, some, if◌then◌else◌, ltb, leb, ◌==◌, get_or, set,
}
use uefi_boot_system.Prelude.Best.{best_of}
use uefi_boot_system.Prelude.Table.{find_first}
use uefi_boot_system.Scheduler.{
  ThreadState, ready, blocked, Thread, Scheduler, KernelMutex, FutexWaitQueue, max_threads,
  no_thread, no_mutex, no_futex, in_state, thread_at, set_thread, find_thread, find_mutex,
}
use uefi_boot_system.Scheduler.Run.{scheduler_yield}

unfoldable pub mutex_create : Scheduler → ℕ × Scheduler
mutex_create s = elim (find_first (λ m. not m.active) s.mutexes) [
  | none ↦ (0, s)
  | some i ↦
      let mutex : KernelMutex = record {
        id = s.next_mutex_id;
        active = true;
        locked = false;
        owner_thread_id = 0;
      } in
      (
        s.next_mutex_id,
        record s {
          mutexes = set s.mutexes i mutex;
          next_mutex_id = (s.next_mutex_id + 1) % 2 ^ 64;
        },
      )
]

-- `returned` is the answer of a call; `switched` is a call whose thread lost the processor, and
-- which answers when it is resumed.
pub data Outcome : Type 0 where
  returned : Bool → Scheduler → Outcome
  switched : Scheduler → Outcome

-- What the call answers after its yield, by the current thread: `mutex->owner_thread_id == g_CurrentThread->id`.
unfoldable pub owns : ℕ → Scheduler → Bool
owns slot s = elim s.current [
  | none ↦ false
  | some i ↦ (get_or s.mutexes slot no_mutex).owner_thread_id == (thread_at s i).id
]

unfoldable pub after_yield : (Scheduler → Bool) → Bool × Scheduler → Outcome
after_yield answer (true, s) = switched s
after_yield answer (false, s) = returned (answer s) s

-- The mutex and the current thread are there.
unfoldable pub lock_slot : ℕ → ℕ → ℕ → Scheduler → Outcome
unfolding owns after_yield
lock_slot mutex_id slot i s =
    let mutex = get_or s.mutexes slot no_mutex in
    let thread = thread_at s i in
    let taken : KernelMutex = record mutex { locked = true; owner_thread_id = thread.id } in
    let waiting : Thread = record thread { state = blocked; waiting_mutex_id = mutex_id } in
    let parked = after_yield (owns slot) (scheduler_yield (set_thread i waiting s)) in
    if not mutex.locked
    then returned true (record s { mutexes = set s.mutexes slot taken })
    else if mutex.owner_thread_id == thread.id
    then returned true s
    else parked

unfoldable pub mutex_lock : ℕ → Scheduler → Outcome
unfolding lock_slot
mutex_lock mutex_id s = elim (find_mutex mutex_id s.mutexes) [
  | none ↦ returned false s
  | some slot ↦ elim s.current [ none ↦ returned false s | some i ↦ lock_slot mutex_id slot i s ]
]

abbrev pub upto : ℕ → ℕ → List ℕ
upto from zero = []
upto from (suc count) = from ∷ upto (from + 1) count

abbrev pub waits_for : ℕ → List Thread → ℕ → Bool
waits_for mutex_id threads i =
    in_state blocked (get_or threads i no_thread)
    && (get_or threads i no_thread).waiting_mutex_id == mutex_id

-- The blocked waiter of the highest priority, the first one in the table.
unfoldable pub next_owner : ℕ → List Thread → Option ℕ
next_owner mutex_id threads =
    best_of (waits_for mutex_id threads) (λ i. (get_or threads i no_thread).priority)
      (upto 0 max_threads) none

-- The mutex passes to the waiter, or opens where there is none.
unfoldable pub hand_over : ℕ → Option ℕ → Scheduler → Scheduler
hand_over slot none s =
    let opened : KernelMutex = record (get_or s.mutexes slot no_mutex) {
      locked = false;
      owner_thread_id = 0;
    } in
    record s { mutexes = set s.mutexes slot opened }
hand_over slot (some i) s =
    let thread = thread_at s i in
    let passed : KernelMutex = record (get_or s.mutexes slot no_mutex) {
      owner_thread_id = thread.id;
    } in
    record (set_thread i (record thread { state = ready; waiting_mutex_id = 0 }) s) {
      mutexes = set s.mutexes slot passed;
    }

unfoldable pub mutex_unlock : ℕ → Scheduler → Bool × Scheduler
unfolding next_owner hand_over owns
mutex_unlock mutex_id s = elim (find_mutex mutex_id s.mutexes) [
  | none ↦ (false, s)
  | some slot ↦
      if owns slot s then (true, hand_over slot (next_owner mutex_id s.threads) s) else (false, s)
]

-- The loop of `KernelFutexWait`: a queue for the address, or else the first free one.
unfoldable pub futex_slot : ℕ → List FutexWaitQueue → ℕ → Option ℕ → Option ℕ
futex_slot address [] i queue = queue
futex_slot address (f ∷ fs) i queue =
    let matched : Option ℕ = if f.active && f.address == address then some i else queue in
    let offered : Option ℕ = elim matched [
      | none ↦ (if not f.active then some i else none)
      | some q ↦ some q
    ] in
    futex_slot address fs (i + 1) offered

-- `word` is what the futex's address holds; `answers true` after the yield.
unfoldable pub futex_wait : ℕ → ℕ → ℕ → Scheduler → Outcome
unfolding after_yield
futex_wait address word expected s =
    let waiting = λ (i : ℕ) (slot : ℕ).
      let found = get_or s.futexes slot no_futex in
      let queue : FutexWaitQueue =
        if found.active
        then found
        else record found { address = address; waiter_count = 0; active = true } in
      let joined : FutexWaitQueue = record queue {
        waiting_threads = set queue.waiting_threads queue.waiter_count (thread_at s i).id;
        waiter_count = queue.waiter_count + 1;
      } in
      let stopped =
        set_thread i (record (thread_at s i) { state = blocked })
          (record s { futexes = set s.futexes slot joined }) in
      let parked = after_yield (λ t. true) (scheduler_yield stopped) in
      if leb max_threads found.waiter_count then returned false s else parked in
    if address == 0 || not (word == expected) then returned false s else elim s.current [
      | none ↦ returned false s
      | some i ↦ elim (futex_slot address s.futexes 0 none) [
        | none ↦ returned false s
        | some slot ↦ waiting i slot
      ]
    ]

-- `waiting_threads[j - 1] = waiting_threads[j]` for `steps` values of `j` from 1 on.
unfoldable pub shift_waiters : ℕ → ℕ → List ℕ → List ℕ
shift_waiters j zero waiting = waiting
shift_waiters j (suc steps) waiting =
    shift_waiters (j + 1) steps (set waiting (j - 1) (get_or waiting j 0))

-- A waiter that is blocked becomes ready; whether it was.
unfoldable pub rouse : ℕ → List Thread → Bool × List Thread
rouse id threads = elim (find_thread id threads) [
  | none ↦ (false, threads)
  | some i ↦
      let thread = get_or threads i no_thread in
      if in_state blocked thread
      then (true, set threads i (record thread { state = ready }))
      else (false, threads)
]

-- The loop of `KernelFutexWake`, which takes one waiter off the queue at each step.
unfoldable pub wake_loop : ℕ → ℕ → ℕ → List ℕ → List Thread → ℕ × ℕ × List ℕ × List Thread
unfolding shift_waiters rouse
wake_loop count woken zero waiting threads = (woken, zero, waiting, threads)
wake_loop count woken (suc left) waiting threads =
    let r = rouse (get_or waiting 0 0) threads in
    let rest =
      wake_loop count (if r.0 then woken + 1 else woken) left (shift_waiters 1 left waiting) r.1 in
    if ltb woken count then rest else (woken, suc left, waiting, threads)

unfoldable pub futex_wake : ℕ → ℕ → Scheduler → ℕ × Scheduler
unfolding wake_loop
futex_wake address count s =
    if address == 0 || count == 0
    then (0, s)
    else elim (find_first (λ f. f.active && f.address == address) s.futexes) [
      | none ↦ (0, s)
      | some slot ↦
          let queue = get_or s.futexes slot no_futex in
          let (woken, left, waiting, threads) =
            wake_loop count 0 queue.waiter_count queue.waiting_threads s.threads in
          let rest : FutexWaitQueue = record queue {
            waiting_threads = waiting;
            waiter_count = left;
            active = not (left == 0);
          } in
          (woken, record s { threads = threads; futexes = set s.futexes slot rest })
    ]
