-- ===== src/Scheduler/Run/Select.antt =====
-- `FindNextRunnable` picks a ready thread of the highest priority, in rotation.
use uefi_boot_system.Prelude.{
  ℕ, zero, suc, ◌+◌, ◌-◌, ◌%◌, ◌≤◌, ◌<◌, ◌≡◌, refl, subst, Bool, true, false, List, [], ◌∷◌, map,
  Option, none, some, get_or, arith, All, ℕ_discrete, ◌≢◌, ◌⊎◌, inl, inr, length, length-map, leb,
  ◌&&◌, Bool-cases, ap,
}
use uefi_boot_system.Prelude.Best.{IsBest, IsBest-All, best_of-IsBest}
use uefi_boot_system.Prelude.Cases.{by_if}
use uefi_boot_system.Scheduler.{
  vacant, ready, running, sleeping, blocked, finished, ThreadState, state_value, Thread, Scheduler,
  max_threads, no_thread, in_state, thread_at,
}
use uefi_boot_system.Scheduler.Run.{rotation, select, wake, find_next_runnable}

-- A property of every visited index is one of every slot.
All-rotation :
    (P : ℕ → Type 0) (start offset count j : ℕ)
    → All P (rotation start offset count)
    → offset ≤ j
    → j < offset + count
    → P ((start + j) % max_threads)
All-rotation P start offset zero j all low high = absurd (omega arith)
All-rotation P start offset (suc count) j (here, rest) low high = elim (ℕ_discrete offset j) [
  | yes e ↦ subst (λ t. P ((start + t) % max_threads)) e here
  | no n ↦ All-rotation P start (offset + 1) count j rest (omega (arith, n)) (omega arith)
]

visited :
    (P : ℕ → Type 0) (start i : ℕ) → start < 128 → i < 128 → All P (rotation start 1 128) → P i
visited P start i small low all =
    let j : ℕ = (i + 127 - start) % 128 + 1 in
    let reached : (start + j) % 128 ≡ i = omega arith in
    subst P reached (All-rotation P start 1 128 j all (omega arith) (omega arith))

module _ (threads : List Thread) where
  abbrev pub is_ready : ℕ → Bool
  is_ready i = in_state ready (get_or threads i no_thread)

  abbrev pub priority_of : ℕ → ℕ
  priority_of i = (get_or threads i no_thread).priority

  -- No slot is ready; or the slot is ready, none that is ready has a higher priority, and the ready
  -- slots between the current thread and it have lower ones.
  abbrev pub Selects : ℕ → Option ℕ → Type 0
  Selects start none = (i : ℕ) → i < max_threads → is_ready i ≡ false
  Selects start (some next) =
      (is_ready next ≡ true)
      × ((i : ℕ) → i < max_threads → is_ready i ≡ true → priority_of i ≤ priority_of next)
      × IsBest is_ready priority_of (rotation start 1 max_threads) (some next)

  selects :
      (start : ℕ) (answer : Option ℕ)
      → start < 128
      → IsBest is_ready priority_of (rotation start 1 128) answer
      → Selects start answer
  selects start none small best =
      (λ i low. visited (λ t. is_ready t ≡ false) start i small low best)
  selects start (some next) small (before, after, split, ok, low, high) = (
    ok,
    (λ i bound.
        visited (λ t. is_ready t ≡ true → priority_of t ≤ priority_of next) start i small bound
          (IsBest-All is_ready priority_of (rotation start 1 128) next
            (before, after, split, ok, low, high))),
    (before, after, split, ok, low, high),
  )

-- What waking makes of a thread: a sleeper whose tick has come is ready, with no tick to wait for, and
-- every other thread is as before.
abbrev pub Woken : ℕ → Thread → Thread → Type 0
Woken tick before after =
    ((before.state ≡ sleeping)
      × (before.wake_tick ≤ tick)
      × (after ≡ record before { state = ready; wake_tick = 0 }))
    ⊎ (((before.state ≢ sleeping) ⊎ (tick < before.wake_tick)) × (after ≡ before))

sleeping_value : (t : ThreadState) → state_value t ≡ state_value sleeping → t ≡ sleeping
sleeping_value vacant e = absurd (omega (arith, e))
sleeping_value ready e = absurd (omega (arith, e))
sleeping_value running e = absurd (omega (arith, e))
sleeping_value sleeping e = refl
sleeping_value blocked e = absurd (omega (arith, e))
sleeping_value finished e = absurd (omega (arith, e))

wake-Woken : (tick : ℕ) (t : Thread) → Woken tick t (wake tick t)
unfolding wake
wake-Woken tick t =
    let P : Thread → Type 0 = λ u. Woken tick t u in
    by_if P (in_state sleeping t && leb t.wake_tick tick) _ _
      (λ due. inl (sleeping_value t.state (ground (arith, due)), ground (arith, due), refl))
      (λ not_due. inr (not_yet not_due, refl))
  where
    not_yet :
        (in_state sleeping t && leb t.wake_tick tick) ≡ false
        → (t.state ≢ sleeping) ⊎ (tick < t.wake_tick)
    not_yet e = elim (Bool-cases (leb t.wake_tick tick)) [
      | inr late ↦ inr (ground (arith, late))
      | inl early ↦ inl (λ same.
          let value : state_value t.state ≡ 3 = ap state_value same in
          absurd (ground (arith, e, early, value)))
    ]

Woken-at :
    (tick : ℕ) (threads : List Thread) (i : ℕ)
    → Woken tick (get_or threads i no_thread) (get_or (map (wake tick) threads) i no_thread)
Woken-at tick [] i = inr (inl (λ e. absurd (omega (arith, ap state_value e))), refl)
Woken-at tick (t ∷ threads) zero = wake-Woken tick t
Woken-at tick (t ∷ threads) (suc i) = Woken-at tick threads i

-- With a current thread in the table, FindNextRunnable changes the threads only. In every slot a
-- sleeper whose tick has come is made ready, and every other thread is as before. It answers a ready
-- thread of the highest priority, of these the first one after the current thread in rotation, and
-- null only where no thread of the table is ready.
pub find_next_runnable-Selects :
    (s : Scheduler) (start : ℕ)
    → s.current ≡ some start
    → start < max_threads
    → let r = find_next_runnable s in
      (r.1 ≡ record s { threads = r.1.threads })
      × (length r.1.threads ≡ length s.threads)
      × ((i : ℕ) → Woken s.tick (thread_at s i) (thread_at r.1 i))
      × Selects r.1.threads start r.0
unfolding find_next_runnable select
find_next_runnable-Selects s start e small =
    let woken : List Thread = map (wake s.tick) s.threads in
    rw e (
      refl,
      length-map (wake s.tick) s.threads,
      (λ i. Woken-at s.tick s.threads i),
      selects woken start (select start woken) small
          (best_of-IsBest (is_ready woken) (priority_of woken) (rotation start 1 128)),
    )
