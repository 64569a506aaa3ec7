-- ===== src/Scheduler/Sync/Handover.antt =====
-- `KernelMutexUnlock` passes the mutex to a blocked waiter of the highest priority.
use mathlib.Core.Option.{some-injective}
use uefi_boot_system.Prelude.{
  ℕ, zero, suc, ◌+◌, ◌≤◌, ◌<◌, ◌≡◌, refl, sym, subst, ◌∙◌, Bool, true, false, ◌&&◌, List, Option,
  none, some, ◌==◌, get_or, length, arith, All, dec_lt, ℕ_discrete, get_or-set_self, get_or_beyond,
  eq_refl,
}
use uefi_boot_system.Prelude.Cases.{by_option, by_if}
use uefi_boot_system.Prelude.Best.{IsBest, IsBest-All, best_of-IsBest}
use uefi_boot_system.Prelude.Table.{find_first-lt}
use uefi_boot_system.Scheduler.{
  ready, Thread, Scheduler, KernelMutex, max_threads, no_thread, no_mutex, thread_at, find_mutex,
}
use uefi_boot_system.Scheduler.Sync.{upto, waits_for, next_owner, hand_over, owns, mutex_unlock}

All-upto :
    (P : ℕ → Type 0) (from count k : ℕ)
    → All P (upto from count)
    → from ≤ k
    → k < from + count
    → P k
All-upto P from zero k all low high = absurd (omega arith)
All-upto P from (suc count) k (here, rest) low high = elim (ℕ_discrete from k) [
  | yes e ↦ subst P e here
  | no n ↦ All-upto P (from + 1) count k rest (omega (arith, n)) (omega arith)
]

abbrev pub mutex_at : Scheduler → ℕ → KernelMutex
mutex_at s slot = get_or s.mutexes slot no_mutex

-- What an unlock does, by the waiter that it chose: with no waiter in the table the mutex opens;
-- else a waiter of the highest priority owns it and is ready, and it stays locked.
abbrev pub Passes : ℕ → ℕ → Scheduler → Option ℕ → Scheduler → Type 0
Passes mutex_id slot s none after =
    ((k : ℕ) → k < max_threads → waits_for mutex_id s.threads k ≡ false)
    × (mutex_at after slot ≡ record (mutex_at s slot) { locked = false; owner_thread_id = 0 })
    × (after.threads ≡ s.threads)
Passes mutex_id slot s (some w) after =
    (waits_for mutex_id s.threads w ≡ true)
    × ((k : ℕ)
        → k < max_threads
        → waits_for mutex_id s.threads k ≡ true
        → (thread_at s k).priority ≤ (thread_at s w).priority)
    × (mutex_at after slot ≡ record (mutex_at s slot) { owner_thread_id = (thread_at s w).id })
    × (thread_at after w ≡ record (thread_at s w) { state = ready; waiting_mutex_id = 0 })

waits_for-lt :
    (mutex_id : ℕ) (threads : List Thread) (w : ℕ)
    → waits_for mutex_id threads w ≡ true
    → w < length threads
waits_for-lt mutex_id threads w e = elim (dec_lt w (length threads)) [
  | yes inside ↦ inside
  | no n ↦ absurd (ground (arith, rw (get_or_beyond threads w no_thread (omega (arith, n))) at e))
]

hand_over-Passes :
    (mutex_id slot : ℕ) (s : Scheduler) (chosen : Option ℕ)
    → slot < length s.mutexes
    → IsBest (waits_for mutex_id s.threads) (λ k. (thread_at s k).priority) (upto 0 128) chosen
    → Passes mutex_id slot s chosen (hand_over slot chosen s)
unfolding hand_over
hand_over-Passes mutex_id slot s none there best = (
  (λ k low. All-upto (λ t. waits_for mutex_id s.threads t ≡ false) 0 128 k best (omega arith) low),
  get_or-set_self s.mutexes slot _ no_mutex there,
  refl,
)
hand_over-Passes mutex_id slot s (some w) there best =
    let waiting : waits_for mutex_id s.threads w ≡ true = best.3 in
    (
      waiting,
      (λ k low.
          All-upto
            (λ t.
              waits_for mutex_id s.threads t ≡ true
              → (thread_at s t).priority ≤ (thread_at s w).priority)
            0 128 k
            (IsBest-All (waits_for mutex_id s.threads) (λ t. (thread_at s t).priority) (upto 0 128)
              w best)
            (omega arith) low),
      get_or-set_self s.mutexes slot _ no_mutex there,
      get_or-set_self s.threads w _ no_thread (waits_for-lt mutex_id s.threads w waiting),
    )

owns-current :
    (slot i : ℕ) (s : Scheduler)
    → s.current ≡ some i
    → (mutex_at s slot).owner_thread_id ≡ (thread_at s i).id
    → owns slot s ≡ true
unfolding owns
owns-current slot i s here mine =
    by_option (λ b. b ≡ true) s.current _ _ (λ e. absurd (ground (arith, e, here)))
      (λ j e.
        let same : i ≡ j = some-injective _ _ (sym here ∙ e) in
        subst (λ t. ((mutex_at s slot).owner_thread_id == (thread_at s t).id) ≡ true) same
          (rw mine (eq_refl (thread_at s i).id)))

next_owner-Passes :
    (mutex_id slot : ℕ) (s : Scheduler)
    → find_mutex mutex_id s.mutexes ≡ some slot
    → Passes mutex_id slot s
        (next_owner mutex_id s.threads)
        (hand_over slot (next_owner mutex_id s.threads) s)
unfolding find_mutex next_owner
next_owner-Passes mutex_id slot s found =
    hand_over-Passes mutex_id slot s (next_owner mutex_id s.threads)
      (find_first-lt (λ m. m.active && m.id == mutex_id) s.mutexes slot found)
      (best_of-IsBest (waits_for mutex_id s.threads) (λ k. (thread_at s k).priority) (upto 0 128))

-- When the current thread owns the mutex, `KernelMutexUnlock` answers true; the mutex passes to a
-- blocked waiter of the highest priority, which becomes ready, or opens where none waits.
pub mutex_unlock-Passes :
    (mutex_id slot i : ℕ) (s : Scheduler)
    → find_mutex mutex_id s.mutexes ≡ some slot
    → s.current ≡ some i
    → (mutex_at s slot).owner_thread_id ≡ (thread_at s i).id
    → ((mutex_unlock mutex_id s).0 ≡ true)
      × Passes mutex_id slot s (next_owner mutex_id s.threads) (mutex_unlock mutex_id s).1
unfolding mutex_unlock
mutex_unlock-Passes mutex_id slot i s found here mine =
    by_option
      (λ (r : Bool × Scheduler).
        (r.0 ≡ true) × Passes mutex_id slot s (next_owner mutex_id s.threads) r.1)
      (find_mutex mutex_id s.mutexes) _ _ (λ e. absurd (ground (arith, e, found)))
      (λ j e.
        by_if
          (λ (r : Bool × Scheduler).
            (r.0 ≡ true) × Passes mutex_id slot s (next_owner mutex_id s.threads) r.1)
          (owns j s) _ _
          (λ q. (
            refl,
            subst
                (λ t.
                  Passes mutex_id slot s (next_owner mutex_id s.threads)
                    (hand_over t (next_owner mutex_id s.threads) s))
                (some-injective _ _ (sym found ∙ e)) (next_owner-Passes mutex_id slot s found),
          ))
          (λ q. absurd (
            ground (
              arith,
              q,
              subst (λ t. owns t s ≡ true) (some-injective _ _ (sym found ∙ e))
                  (owns-current slot i s here mine),
            ))))
