-- ===== src/Scheduler/Events.antt =====
-- kernel/src/scheduler.cpp: epoll, eventfd and timerfd.
use native.Mathlib.Omega.{div_any}
use native.Mathlib.Nat.{mod-lt, div-le_self}
use uefi_boot_system.Prelude.{
  ℕ, zero, suc, ◌+◌, ◌-◌, ◌*◌, ◌/◌, ◌%◌, ◌^◌, ◌≤◌, ◌<◌, ◌≡◌, ap, Bool, true, false, not, ◌&&◌, ◌||◌,
  List, [], ◌∷◌, ◌++◌, Option, none, some, if◌then◌else◌, ltb, leb, ◌==◌, get_or, set, arith,
}
use uefi_boot_system.Prelude.Table.{find_first}
use uefi_boot_system.Scheduler.{
  EventObjectType, no_object, epoll, event, timer, event_value, EventObject, Scheduler,
  max_epoll_watches, no_event,
}

abbrev pub is_kind : EventObjectType → EventObject → Bool
is_kind kind object = event_value object.kind == event_value kind

unfoldable pub find_event_object : ℕ → List EventObject → Option ℕ
find_event_object fd objects = find_first (λ o. not (is_kind no_object o) && o.fd == fd) objects

abbrev pub object_at : Scheduler → ℕ → EventObject
object_at s i = get_or s.event_objects i no_event

abbrev pub set_object : ℕ → EventObject → Scheduler → Scheduler
set_object i object s = record s { event_objects = set s.event_objects i object }

-- The slot, its object in place, and the descriptor taken. Descriptors count up from 32 as `int32_t`.
unfoldable pub allocate_event_object : EventObjectType → Scheduler → Option ℕ × Scheduler
allocate_event_object kind s = elim (find_first (λ o. is_kind no_object o) s.event_objects) [
  | none ↦ (none, s)
  | some i ↦ (
    some i,
    record (set_object i (record no_event { fd = s.next_event_fd; kind = kind }) s) {
      next_event_fd = s.next_event_fd + 1;
    },
  )
]

-- A timer that is due notes how often it went off.
unfoldable pub event_ready : ℕ → EventObject → Bool × EventObject
event_ready tick object =
    let elapsed = tick - object.deadline in
    if is_kind event object
    then (not (object.value == 0), object)
    else if is_kind timer object && not (object.deadline == 0) && leb object.deadline tick
    then (
      true,
      record object {
        value = (1 + (if object.interval == 0 then 0 else elapsed / object.interval)) % 2 ^ 64;
      },
    )
    else (false, object)

-- The descriptor, or `none` for -1.
unfoldable pub epoll_create : Scheduler → Option ℕ × Scheduler
unfolding allocate_event_object
epoll_create s =
    let (slot, after) = allocate_event_object epoll s in
    (elim slot [ none ↦ none | some i ↦ some (object_at after i).fd ], after)

unfoldable pub epoll_add : ℕ → ℕ → Scheduler → Bool × Scheduler
epoll_add epoll_fd watched_fd s = elim (find_event_object epoll_fd s.event_objects) [
  | none ↦ (false, s)
  | some i ↦
      let object = object_at s i in
      let watching : EventObject = record object {
        watches = set object.watches object.watch_count watched_fd;
        watch_count = object.watch_count + 1;
      } in
      if not (is_kind epoll object)
      then (false, s)
      else elim (find_event_object watched_fd s.event_objects) [
        | none ↦ (false, s)
        | some w ↦
            if leb max_epoll_watches object.watch_count
            then (false, s)
            else (true, set_object i watching s)
      ]
]

-- The loop of `KernelEpollWait` from watch `i` on, with the descriptors that were ready so far.
unfoldable pub epoll_loop : List ℕ → ℕ → ℕ → ℕ → List ℕ → Scheduler → List ℕ × Scheduler
unfolding event_ready
epoll_loop watches i zero capacity found s = (found, s)
epoll_loop watches i (suc left) zero found s = (found, s)
epoll_loop watches i (suc left) (suc capacity) found s =
    elim (find_event_object (get_or watches i 0) s.event_objects) [
      | none ↦ epoll_loop watches (i + 1) left (suc capacity) found s
      | some w ↦
          let r = event_ready s.tick (object_at s w) in
          let after = set_object w r.1 s in
          let taken = epoll_loop watches (i + 1) left capacity (found ++ r.1.fd ∷ []) after in
          let passed = epoll_loop watches (i + 1) left (suc capacity) found after in
          if r.0 then taken else passed
    ]

-- What it writes to `ready`, a pointer that is not null; the count is the length.
unfoldable pub epoll_wait : ℕ → ℕ → Scheduler → List ℕ × Scheduler
unfolding epoll_loop
epoll_wait epoll_fd capacity s = elim (find_event_object epoll_fd s.event_objects) [
  | none ↦ ([], s)
  | some i ↦
      let object = object_at s i in
      if not (is_kind epoll object)
      then ([], s)
      else epoll_loop object.watches 0 object.watch_count capacity [] s
]

unfoldable pub event_fd : ℕ → Scheduler → Option ℕ × Scheduler
unfolding allocate_event_object
event_fd initial_value s =
    let (slot, after) = allocate_event_object event s in
    elim slot [
      | none ↦ (none, after)
      | some i ↦ (
        some (object_at after i).fd,
        set_object i (record (object_at after i) { value = initial_value }) after,
      )
    ]

-- `UINT64_MAX`.
abbrev pub uint64_max : ℕ
uint64_max = 18446744073709551615

-- `KernelEventFdWrite` and `KernelEventFdRead` on the object of the descriptor.
unfoldable pub add_value : ℕ → EventObject → Bool × EventObject
add_value value object =
    if not (is_kind event object) || value == uint64_max || ltb (uint64_max - object.value) value
    then (false, object)
    else (true, record object { value = (object.value + value) % 2 ^ 64 })

unfoldable pub take_value : EventObject → Option ℕ × EventObject
take_value object =
    if not (is_kind event object) || object.value == 0
    then (none, object)
    else (some object.value, record object { value = 0 })

unfoldable pub event_fd_write : ℕ → ℕ → Scheduler → Bool × Scheduler
unfolding add_value
event_fd_write fd value s = elim (find_event_object fd s.event_objects) [
  | none ↦ (false, s)
  | some i ↦ let r = add_value value (object_at s i) in (r.0, set_object i r.1 s)
]

unfoldable pub event_fd_read : ℕ → Scheduler → Option ℕ × Scheduler
unfolding take_value
event_fd_read fd s = elim (find_event_object fd s.event_objects) [
  | none ↦ (none, s)
  | some i ↦ let r = take_value (object_at s i) in (r.0, set_object i r.1 s)
]

unfoldable pub timer_fd : ℕ → ℕ → Scheduler → Option ℕ × Scheduler
unfolding allocate_event_object
timer_fd initial_ticks interval_ticks s =
    let (slot, after) = allocate_event_object timer s in
    if initial_ticks == 0 then (none, s) else elim slot [
      | none ↦ (none, after)
      | some i ↦
          let armed : EventObject = record (object_at after i) {
            deadline = (s.tick + initial_ticks) % 2 ^ 64;
            interval = interval_ticks;
          } in
          (some armed.fd, set_object i armed after)
    ]

-- `KernelTimerFdRead` on the object of the descriptor. A test that fails may still have noted a value.
unfoldable pub take_expirations : ℕ → EventObject → Option ℕ × EventObject
unfolding event_ready
take_expirations tick object =
    let (due, noted) = event_ready tick object in
    let again =
      if noted.interval == 0 then 0 else (noted.deadline + noted.value * noted.interval) % 2 ^ 64 in
    if not (is_kind timer object)
    then (none, object)
    else if due
    then (some noted.value, record noted { value = 0; deadline = again })
    else (none, noted)

unfoldable pub timer_fd_read : ℕ → Scheduler → Option ℕ × Scheduler
unfolding take_expirations
timer_fd_read fd s = elim (find_event_object fd s.event_objects) [
  | none ↦ (none, s)
  | some i ↦ let r = take_expirations s.tick (object_at s i) in (r.0, set_object i r.1 s)
]

-- The number of times that a timer with this deadline goes off up to a tick.
abbrev pub Expirations : ℕ → EventObject → ℕ → Type 0
Expirations tick object n =
    (object.deadline + (n - 1) * object.interval ≤ tick)
    × (tick < object.deadline + n * object.interval)

-- Whole beats in a time, in the products that the timer computes.
beats :
    (elapsed interval : ℕ)
    → 0 < interval
    → let q : ℕ = elapsed / interval in
      (q * interval ≤ elapsed)
      × (elapsed < q * interval + interval)
      × ((1 + q) * interval ≡ q * interval + interval)
      × (q ≤ elapsed)
beats elapsed interval period =
    let q : ℕ = elapsed / interval in
    let whole : interval * q + elapsed % interval ≡ elapsed = div_any elapsed interval in
    let left : elapsed % interval < interval = mod-lt elapsed period in
    (
      omega (arith, whole, left),
      omega (arith, whole, left),
      omega arith,
      div-le_self elapsed interval,
    )

-- A periodic timer that is due answers how often it went off, and its next deadline is the first
-- of its beats after the tick, where the sum fits 64 bits.
pub take_expirations-periodic :
    (tick : ℕ) (object : EventObject)
    → is_kind timer object ≡ true
    → 0 < object.interval
    → 0 < object.deadline
    → object.deadline ≤ tick
    → tick + object.interval < 2 ^ 64
    → (n : ℕ) × ((take_expirations tick object).0 ≡ some n)
      × Expirations tick object n
      × ((take_expirations tick object).1.deadline ≡ object.deadline + n * object.interval)
unfolding take_expirations
take_expirations-periodic tick object kind period armed due room =
    let (low, high, more, few) = beats (tick - object.deadline) object.interval period in
    let q : ℕ = (tick - object.deadline) / object.interval in
    let before : (1 + q - 1) * object.interval ≡ q * object.interval =
      ap (λ t. t * object.interval) (omega arith) in
    let v : ℕ = 1 + (tick - object.deadline) / object.interval in
    (
      v,
      ground (arith, low, high, more, few),
      (omega (arith, low, high, more, few, before), omega (arith, low, high, more, few)),
      ground (arith, low, high, more, few),
    )

-- A write to an eventfd is taken exactly when it is not the reserved value and the sum fits 64 bits,
-- and a read after it answers the sum and leaves nothing.
pub take_value-add_value :
    (value : ℕ) (object : EventObject)
    → is_kind event object ≡ true
    → object.value < 2 ^ 64
    → value < uint64_max
    → let r = add_value value object in
      (r.0 ≡ ltb (object.value + value) (2 ^ 64))
      × (r.0 ≡ true → 0 < object.value + value → (take_value r.1).0 ≡ some (object.value + value))
unfolding add_value take_value
take_value-add_value value object kind small fits =
    (ground arith, (λ taken some_value. ground arith))
