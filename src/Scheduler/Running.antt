-- ===== src/Scheduler/Running.antt =====
-- At most one thread is running, and it is the current one: through every operation.

pub mod Operations
pub mod Reach
use mathlib.Core.Option.{some-injective}
use uefi_boot_system.Prelude.{
  ℕ, zero, suc, ◌+◌, ◌∷◌, subst, [], ◌%◌, ◌^◌, ◌≡◌, refl, sym, ap, ◌∙◌, inl, inr, Bool, true, false,
  not, ◌&&◌, ◌||◌, List, map, Option, none, some, if◌then◌else◌, ltb, leb, ◌==◌, get_or, set, arith,
  Bool-cases, get_or-set_cases, get_or-map_cases,
}
use uefi_boot_system.Prelude.Cases.{by_option, by_if}
use uefi_boot_system.Scheduler.{
  ready, running, vacant, sleeping, Thread, Scheduler, no_thread, in_state, thread_at, set_thread,
}
use uefi_boot_system.Scheduler.Run.{
  wake, deliver_signals, stay, switch_to, dispatch, find_next_runnable, scheduler_yield,
}

-- A thread that is running is the current one.
abbrev pub RunsAlone : List Thread → Option ℕ → Type 0
RunsAlone threads current =
    (i : ℕ) → in_state running (get_or threads i no_thread) ≡ true → current ≡ some i

-- And so it is in the state that an operation leaves.
abbrev pub AloneAfter : {A : Type 0} → A × Scheduler → Type 0
AloneAfter r = RunsAlone r.1.threads r.1.current

-- A slot is written by a thread that runs only where it is the current one.
pub set-RunsAlone :
    (threads : List Thread) (current : Option ℕ) (j : ℕ) (thread : Thread)
    → RunsAlone threads current
    → (in_state running thread ≡ true → current ≡ some j)
    → RunsAlone (set threads j thread) current
set-RunsAlone threads current j thread alone fits i runs =
    elim (get_or-set_cases threads j i thread no_thread) [
      | inl (same, e) ↦ fits (ap (in_state running) (sym e) ∙ runs) ∙ ap some same
      | inr e ↦ alone i (ap (in_state running) (sym e) ∙ runs)
    ]

-- Every slot is changed by a function that starts no thread.
pub map-RunsAlone :
    (f : Thread → Thread) (threads : List Thread) (current : Option ℕ)
    → ((t : Thread) → in_state running (f t) ≡ true → in_state running t ≡ true)
    → RunsAlone threads current
    → RunsAlone (map f threads) current
map-RunsAlone f threads current starts_none alone i runs =
    elim (get_or-map_cases f threads i no_thread) [
      | inl e ↦ alone i (starts_none _ (ap (in_state running) (sym e) ∙ runs))
      | inr e ↦ alone i (ap (in_state running) (sym e) ∙ runs)
    ]

pub wake_starts_none :
    (tick : ℕ) (t : Thread) → in_state running (wake tick t) ≡ true → in_state running t ≡ true
unfolding wake
wake_starts_none tick t runs = elim (Bool-cases (in_state sleeping t && leb t.wake_tick tick)) [
  | inl e ↦ absurd (ground (arith, rw e at runs))
  | inr e ↦ rw e at runs
]

pub deliver_signals-RunsAlone :
    (i : ℕ) (s : Scheduler)
    → RunsAlone s.threads s.current
    → RunsAlone (deliver_signals i s).threads (deliver_signals i s).current
unfolding deliver_signals
deliver_signals-RunsAlone i s alone = elim (Bool-cases ((thread_at s i).pending_signals == 0)) [
  | inl e ↦ rw e alone
  | inr e ↦ rw e (set-RunsAlone s.threads s.current i _ alone (alone i))
]

stay-RunsAlone :
    (s : Scheduler) → RunsAlone s.threads s.current → RunsAlone (stay s).threads (stay s).current
unfolding stay
stay-RunsAlone s alone = by_current s.current refl
  where
    by_current : (c : Option ℕ) → s.current ≡ c → RunsAlone (stay s).threads (stay s).current
    by_current none e = rw e (rw e at alone)
    by_current (some i) e =
        let alone_here : RunsAlone s.threads (some i) = rw e at alone in
        elim (Bool-cases (in_state sleeping (thread_at s i))) [
          | inl asleep ↦
              rw (e, asleep)
                (set-RunsAlone s.threads (some i) i _ alone_here (λ r. absurd (ground (arith, r))))
          | inr awake ↦ rw (e, awake) alone_here
        ]

-- The slot that a stopped thread was written to does not run.
set_stops :
    (threads : List Thread) (i : ℕ) (thread : Thread)
    → in_state running thread ≡ false
    → in_state running (get_or (set threads i thread) i no_thread) ≡ false
set_stops [] i thread e = refl
set_stops (t ∷ ts) zero thread e = e
set_stops (t ∷ ts) (suc i) thread e = set_stops ts i thread e

-- The current thread stopped, no thread runs.
NoneRuns : List Thread → Type 0
NoneRuns threads = (i : ℕ) → in_state running (get_or threads i no_thread) ≡ true → ⊥

stopped-NoneRuns :
    (threads : List Thread) (i : ℕ) (thread : Thread)
    → RunsAlone threads (some i)
    → in_state running thread ≡ false
    → NoneRuns (set threads i thread)
unfolding NoneRuns
stopped-NoneRuns threads i thread alone e k runs =
    elim (get_or-set_cases threads i k thread no_thread) [
      | inl (same, held) ↦ ground (arith, e, rw held at runs)
      | inr held ↦
          let here : i ≡ k = some-injective _ _ (alone k (rw held at runs)) in
          ground (
            arith,
            set_stops threads i thread e,
            subst (λ t. in_state running (get_or (set threads i thread) t no_thread) ≡ true)
                (sym here) runs,
          )
    ]

switch_to-RunsAlone :
    (i next : ℕ) (s : Scheduler)
    → RunsAlone s.threads (some i)
    → RunsAlone (switch_to i next s).threads (switch_to i next s).current
unfolding switch_to NoneRuns
switch_to-RunsAlone i next s alone = elim (Bool-cases (in_state running (thread_at s i))) [
  | inl e ↦ rw e (
      entered (set_thread i (record (thread_at s i) { state = ready }) s)
        (stopped-NoneRuns s.threads i (record (thread_at s i) { state = ready }) alone refl))
  | inr e ↦ rw e (
      entered s (λ k runs.
        let here : i ≡ k = some-injective _ _ (alone k runs) in
        ground (arith, e, subst (λ t. in_state running (thread_at s t) ≡ true) (sym here) runs)))
]
  where
    entered :
        (left : Scheduler)
        → NoneRuns left.threads
        → let chosen = thread_at left next in
          let run : Thread = record chosen {
            state = running;
            run_count = (chosen.run_count + 1) % 2 ^ 64;
          } in
          let after : Scheduler = record (set_thread next run left) { current = some next } in
          RunsAlone (deliver_signals next after).threads (deliver_signals next after).current
    entered left stopped =
        let chosen = thread_at left next in
        let run : Thread = record chosen {
          state = running;
          run_count = (chosen.run_count + 1) % 2 ^ 64;
        } in
        let after : Scheduler = record (set_thread next run left) { current = some next } in
        deliver_signals-RunsAlone next after (
          set-RunsAlone left.threads (some next) next run (λ k runs. absurd (stopped k runs))
            (λ r. refl))

dispatch-RunsAlone :
    (answer : Option ℕ) (s : Scheduler)
    → RunsAlone s.threads s.current
    → RunsAlone (dispatch answer s).1.threads (dispatch answer s).1.current
unfolding dispatch
dispatch-RunsAlone none s alone = stay-RunsAlone s alone
dispatch-RunsAlone (some next) s alone =
    by_option AloneAfter s.current _ _ (λ e. stay-RunsAlone s alone)
      (λ i e.
        by_if AloneAfter (next == i) _ _ (λ q. stay-RunsAlone s alone)
          (λ q. switch_to-RunsAlone i next s (rw e at alone)))

find_next_runnable-RunsAlone :
    (s : Scheduler)
    → RunsAlone s.threads s.current
    → RunsAlone (find_next_runnable s).1.threads (find_next_runnable s).1.current
unfolding find_next_runnable
find_next_runnable-RunsAlone s alone = by_current s.current refl
  where
    by_current :
        (c : Option ℕ)
        → s.current ≡ c
        → RunsAlone (find_next_runnable s).1.threads (find_next_runnable s).1.current
    by_current none e = rw e (rw e at alone)
    by_current (some i) e =
        rw e (
          rw e at (map-RunsAlone (wake s.tick) s.threads s.current (wake_starts_none s.tick) alone))

-- `KernelSchedulerYield` keeps at most one thread running, and that one current.
pub scheduler_yield-RunsAlone :
    (s : Scheduler)
    → RunsAlone s.threads s.current
    → RunsAlone (scheduler_yield s).1.threads (scheduler_yield s).1.current
unfolding scheduler_yield
scheduler_yield-RunsAlone s alone = by_current s.current refl
  where
    go :
        (t : Scheduler)
        → RunsAlone t.threads t.current
        → let found = find_next_runnable t in
          RunsAlone (dispatch found.0 found.1).1.threads (dispatch found.0 found.1).1.current
    go t a =
        dispatch-RunsAlone (find_next_runnable t).0 (find_next_runnable t).1
          (find_next_runnable-RunsAlone t a)

    by_current :
        (c : Option ℕ)
        → s.current ≡ c
        → RunsAlone (scheduler_yield s).1.threads (scheduler_yield s).1.current
    by_current none e = rw e (go (record s { tick = (s.tick + 1) % 2 ^ 64 }) alone)
    by_current (some i) e = rw e (
        go (deliver_signals i (record s { tick = (s.tick + 1) % 2 ^ 64 }))
          (deliver_signals-RunsAlone i (record s { tick = (s.tick + 1) % 2 ^ 64 }) alone))
