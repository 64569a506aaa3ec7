-- ===== src/Scheduler/Running/Operations.antt =====
-- Every operation of the scheduler keeps a running thread the current one.
use uefi_boot_system.Prelude.{
  ℕ, zero, suc, ◌≡◌, refl, inl, inr, Bool, true, false, not, ◌&&◌, ◌||◌, List, Option, none, some,
  leb, ltb, ◌==◌, get_or, arith, Bool-cases, get_or-replicate,
}
use uefi_boot_system.Prelude.Text.{Text}
use uefi_boot_system.Prelude.Cases.{by_option, by_if}
use uefi_boot_system.Prelude.Table.{find_first}
use uefi_boot_system.Scheduler.{
  kernel_process_id, running, vacant, sleeping, blocked, finished, Thread, Scheduler, no_thread,
  no_mutex, no_process, no_futex, max_threads, in_state, thread_at, set_thread, find_thread,
  find_mutex, find_process, find_thread_slot, max_thread_priority,
}
use uefi_boot_system.Scheduler.Run.{timer_tick, set_thread_priority, thread_sleep, send_signal}
use uefi_boot_system.Scheduler.Sync.{
  Outcome, returned, switched, mutex_lock, mutex_unlock, after_yield, owns, hand_over, next_owner,
  rouse, wake_loop, futex_wake, futex_wait, futex_slot,
}
use uefi_boot_system.Scheduler.Lifecycle.{
  scheduler_init, create_process, create_thread, fork_process, exec_process, reap,
  terminate_process, join_round, finish_thread,
}
use uefi_boot_system.Scheduler.Running.{
  RunsAlone, AloneAfter, set-RunsAlone, map-RunsAlone, wake_starts_none, scheduler_yield-RunsAlone,
}

abbrev pub state_of : Outcome → Scheduler
state_of (returned answer s) = s
state_of (switched s) = s

abbrev pub Alone : Scheduler → Type 0
Alone s = RunsAlone s.threads s.current

pub scheduler_init-Alone : (before : Scheduler) → Alone (scheduler_init before).1
unfolding scheduler_init
scheduler_init-Alone before zero runs = refl
scheduler_init-Alone before (suc i) runs =
    absurd (ground (arith, rw (get_or-replicate 127 i no_thread) at runs))

-- A write of a thread that does not run, and of one that runs no more than before.
parked :
    (s : Scheduler) (i : ℕ) (t : Thread)
    → Alone s
    → in_state running t ≡ false
    → Alone (set_thread i t s)
parked s i t alone e = set-RunsAlone s.threads s.current i t alone (λ r. absurd (ground arith))

same_state :
    (s : Scheduler) (i : ℕ) (t : Thread)
    → Alone s
    → t.state ≡ (thread_at s i).state
    → Alone (set_thread i t s)
same_state s i t alone e = set-RunsAlone s.threads s.current i t alone (λ r. alone i (rw e at r))

pub thread_sleep-Alone : (n : ℕ) (s : Scheduler) → Alone s → AloneAfter (thread_sleep n s)
unfolding thread_sleep
thread_sleep-Alone n s alone =
    by_option AloneAfter s.current _ _ (λ e. alone)
      (λ i e.
        by_if AloneAfter (n == 0) _ _ (λ z. alone)
          (λ z. scheduler_yield-RunsAlone _ (parked s i _ alone refl)))

pub set_thread_priority-Alone :
    (id priority : ℕ) (s : Scheduler) → Alone s → AloneAfter (set_thread_priority id priority s)
unfolding set_thread_priority
set_thread_priority-Alone id priority s alone =
    by_option AloneAfter (find_thread id s.threads) _ _ (λ e. alone)
      (λ i e.
        by_if AloneAfter (ltb max_thread_priority priority) _ _ (λ z. alone)
          (λ z. same_state s i _ alone refl))

pub send_signal-Alone :
    (id signal : ℕ) (s : Scheduler) → Alone s → AloneAfter (send_signal id signal s)
unfolding send_signal
send_signal-Alone id signal s alone =
    by_if AloneAfter (leb 32 signal) _ _ (λ z. alone)
      (λ z.
        by_option AloneAfter (find_thread id s.threads) _ _ (λ e. alone)
          (λ i e.
            by_if (λ (t : Thread). Alone (set_thread i t s))
              (in_state sleeping (thread_at s i) || in_state blocked (thread_at s i)) _ _
              (λ q. parked s i _ alone refl) (λ q. same_state s i _ alone refl)))

pub create_process-Alone :
    (name : Option Text) (s : Scheduler) → Alone s → AloneAfter (create_process name s)
unfolding create_process
create_process-Alone name s alone =
    by_option AloneAfter (find_first (λ p. not p.active) s.processes) _ _ (λ e. alone)
      (λ i e. alone)

pub create_thread-Alone :
    (process : ℕ) (name : Option Text) (entry argument stack : ℕ) (s : Scheduler)
    → Alone s
    → AloneAfter (create_thread process name entry argument stack s)
unfolding create_thread
create_thread-Alone process name entry argument stack s alone =
    by_option AloneAfter (find_process process s.processes) _ _ (λ e. alone)
      (λ p e.
        by_if AloneAfter (entry == 0) _ _ (λ z. alone)
          (λ z.
            by_option AloneAfter (find_thread_slot s) _ _ (λ e. alone)
              (λ i e.
                by_if AloneAfter (stack == 0) _ _ (λ z. alone) (λ z. parked s i _ alone refl))))

reap_starts_none :
    (process : ℕ) (t : Thread)
    → in_state running (reap process t) ≡ true
    → in_state running t ≡ true
unfolding reap
reap_starts_none process t runs =
    elim (Bool-cases (not (in_state vacant t) && t.process_id == process)) [
      | inl e ↦ absurd (ground (arith, rw e at runs))
      | inr e ↦ rw e at runs
    ]

pub terminate_process-Alone :
    (process : ℕ) (s : Scheduler) → Alone s → AloneAfter (terminate_process process s)
unfolding terminate_process
terminate_process-Alone process s alone =
    by_option AloneAfter (find_process process s.processes) _ _ (λ e. alone)
      (λ i e.
        by_if AloneAfter (process == kernel_process_id) _ _ (λ z. alone)
          (λ z. map-RunsAlone (reap process) s.threads s.current (reap_starts_none process) alone))

pub join_round-Alone : (i : ℕ) (s : Scheduler) → Alone s → AloneAfter (join_round i s)
unfolding join_round
join_round-Alone i s alone =
    by_if AloneAfter (in_state finished (thread_at s i)) _ _ (λ z. parked s i _ alone refl)
      (λ z. scheduler_yield-RunsAlone s alone)

pub after_yield-Alone :
    (answer : Scheduler → Bool) (r : Bool × Scheduler)
    → AloneAfter r
    → Alone (state_of (after_yield answer r))
unfolding after_yield
after_yield-Alone answer (true, s) alone = alone
after_yield-Alone answer (false, s) alone = alone

AloneOut : Outcome → Type 0
AloneOut o = Alone (state_of o)

pub mutex_lock-Alone : (mutex : ℕ) (s : Scheduler) → Alone s → Alone (state_of (mutex_lock mutex s))
unfolding mutex_lock AloneOut
mutex_lock-Alone mutex s alone =
    by_option AloneOut (find_mutex mutex s.mutexes) _ _ (λ e. alone)
      (λ slot e.
        by_option AloneOut s.current _ _ (λ e. alone)
          (λ i e.
            by_if AloneOut (not (get_or s.mutexes slot no_mutex).locked) _ _ (λ z. alone)
              (λ z.
                by_if AloneOut
                  ((get_or s.mutexes slot no_mutex).owner_thread_id == (thread_at s i).id) _ _
                  (λ z. alone)
                  (λ z.
                    after_yield-Alone (owns slot) _
                      (scheduler_yield-RunsAlone _ (parked s i _ alone refl))))))

pub hand_over-Alone :
    (slot : ℕ) (next : Option ℕ) (s : Scheduler) → Alone s → Alone (hand_over slot next s)
unfolding hand_over
hand_over-Alone slot none s alone = alone
hand_over-Alone slot (some i) s alone = parked s i _ alone refl

pub mutex_unlock-Alone : (mutex : ℕ) (s : Scheduler) → Alone s → AloneAfter (mutex_unlock mutex s)
unfolding mutex_unlock
mutex_unlock-Alone mutex s alone =
    by_option AloneAfter (find_mutex mutex s.mutexes) _ _ (λ e. alone)
      (λ slot e.
        by_if AloneAfter (owns slot s) _ _
          (λ z. hand_over-Alone slot (next_owner mutex s.threads) s alone) (λ z. alone))

pub rouse-RunsAlone :
    (id : ℕ) (threads : List Thread) (current : Option ℕ)
    → RunsAlone threads current
    → RunsAlone (rouse id threads).1 current
unfolding rouse
rouse-RunsAlone id threads current alone =
    by_option (λ (r : Bool × List Thread). RunsAlone r.1 current) (find_thread id threads) _ _
      (λ e. alone)
      (λ i e.
        by_if (λ (r : Bool × List Thread). RunsAlone r.1 current)
          (in_state blocked (get_or threads i no_thread)) _ _
          (λ z. set-RunsAlone threads current i _ alone (λ r. absurd (ground (arith, r))))
          (λ z. alone))

pub wake_loop-RunsAlone :
    (count left woken : ℕ) (waiting : List ℕ) (threads : List Thread) (current : Option ℕ)
    → RunsAlone threads current
    → RunsAlone (wake_loop count woken left waiting threads).3 current
unfolding wake_loop
wake_loop-RunsAlone count zero woken waiting threads current alone = alone
wake_loop-RunsAlone count (suc left) woken waiting threads current alone =
    by_if (λ (r : ℕ × ℕ × List ℕ × List Thread). RunsAlone r.3 current) (ltb woken count) _ _
      (λ z.
        wake_loop-RunsAlone count left _ _ _ current
          (rouse-RunsAlone (get_or waiting 0 0) threads current alone))
      (λ z. alone)

pub futex_wake-Alone :
    (address count : ℕ) (s : Scheduler) → Alone s → AloneAfter (futex_wake address count s)
unfolding futex_wake
futex_wake-Alone address count s alone =
    by_if AloneAfter (address == 0 || count == 0) _ _ (λ z. alone)
      (λ z.
        by_option AloneAfter (find_first (λ f. f.active && f.address == address) s.futexes) _ _
          (λ e. alone) (λ i e. wake_loop-RunsAlone count _ 0 _ s.threads s.current alone))

pub futex_wait-Alone :
    (address word expected : ℕ) (s : Scheduler)
    → Alone s
    → Alone (state_of (futex_wait address word expected s))
unfolding futex_wait AloneOut
futex_wait-Alone address word expected s alone =
    by_if AloneOut (address == 0 || not (word == expected)) _ _ (λ z. alone)
      (λ z.
        by_option AloneOut s.current _ _ (λ e. alone)
          (λ i e.
            by_option AloneOut (futex_slot address s.futexes 0 none) _ _ (λ e. alone)
              (λ slot e.
                by_if AloneOut (leb max_threads (get_or s.futexes slot no_futex).waiter_count) _ _
                  (λ z. alone)
                  (λ z.
                    after_yield-Alone (λ t. true) _
                      (scheduler_yield-RunsAlone _ (parked s i _ alone refl))))))

pub timer_tick-Alone : (s : Scheduler) → Alone s → Alone (timer_tick s)
unfolding timer_tick
timer_tick-Alone s alone = map-RunsAlone _ s.threads s.current (wake_starts_none _) alone

pub finish_thread-Alone : (i : ℕ) (s : Scheduler) → Alone s → AloneAfter (finish_thread i s)
unfolding finish_thread
finish_thread-Alone i s alone = scheduler_yield-RunsAlone _ (parked s i _ alone refl)

pub fork_process-Alone : (parent : ℕ) (s : Scheduler) → Alone s → AloneAfter (fork_process parent s)
unfolding fork_process
fork_process-Alone parent s alone =
    by_option AloneAfter (find_process parent s.processes) _ _ (λ e. alone)
      (λ i e.
        let made = create_process-Alone (get_or s.processes i no_process).name s alone in
        by_option AloneAfter
          (find_process (create_process (get_or s.processes i no_process).name s).0
            (create_process (get_or s.processes i no_process).name s).1.processes)
          _ _ (λ e. made) (λ j e. made))

pub exec_process-Alone :
    (process : ℕ) (image : Option Text) (entry argument stack : ℕ) (s : Scheduler)
    → Alone s
    → AloneAfter (exec_process process image entry argument stack s)
unfolding exec_process
exec_process-Alone process image entry argument stack s alone =
    by_option AloneAfter (find_process process s.processes) _ _ (λ e. alone)
      (λ i e.
        by_option AloneAfter image _ _ (λ e. alone)
          (λ name e.
            by_if AloneAfter (entry == 0) _ _ (λ z. alone)
              (λ z. create_thread-Alone process (some name) entry argument stack _ alone)))
