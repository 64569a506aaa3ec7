-- ===== src/Scheduler/Ipc.antt =====
-- kernel/src/scheduler.cpp: the message queues of the processes.
use uefi_boot_system.Prelude.{
  ℕ, zero, suc, ◌+◌, ◌-◌, ◌%◌, ◌≤◌, ◌<◌, ◌≡◌, ◌≢◌, refl, ap, sym, subst, ◌∙◌, inl, inr, Bool, true,
  false, List, [], ◌∷◌, ◌++◌, Option, none, some, if◌then◌else◌, leb, ◌==◌, arith, length, set,
  get_or, length-set, get_or-set_self, get_or-set_ne, Bool-cases,
}
use native.Mathlib.Numerals.{add-one}
use uefi_boot_system.Scheduler.{Process, Scheduler, no_process, ipc_queue_size, find_process}

-- What `KernelIpcSend` does to the queue of a process that it found.
unfoldable pub enqueue : ℕ → Process → Bool × Process
enqueue value process = if leb ipc_queue_size process.ipc_count then (false, process) else (
  true,
  record process {
    ipc_queue = set process.ipc_queue process.ipc_tail value;
    ipc_tail = (process.ipc_tail + 1) % ipc_queue_size;
    ipc_count = process.ipc_count + 1;
  },
)

-- And `KernelIpcReceive`; `none` where it answers false.
unfoldable pub dequeue : Process → Option ℕ × Process
dequeue process = if process.ipc_count == 0 then (none, process) else (
  some (get_or process.ipc_queue process.ipc_head 0),
  record process {
    ipc_head = (process.ipc_head + 1) % ipc_queue_size;
    ipc_count = process.ipc_count - 1;
  },
)

unfoldable pub ipc_send : ℕ → ℕ → Scheduler → Bool × Scheduler
unfolding enqueue
ipc_send process_id value s = elim (find_process process_id s.processes) [
  | none ↦ (false, s)
  | some i ↦
      let r = enqueue value (get_or s.processes i no_process) in
      (r.0, record s { processes = set s.processes i r.1 })
]

unfoldable pub ipc_receive : ℕ → Scheduler → Option ℕ × Scheduler
unfolding dequeue
ipc_receive process_id s = elim (find_process process_id s.processes) [
  | none ↦ (none, s)
  | some i ↦
      let r = dequeue (get_or s.processes i no_process) in
      (r.0, record s { processes = set s.processes i r.1 })
]

-- The messages of the ring from its head on.
abbrev messages_from : List ℕ → ℕ → ℕ → List ℕ
messages_from queue head zero = []
messages_from queue head (suc n) =
    get_or queue head 0 ∷ messages_from queue ((head + 1) % ipc_queue_size) n

-- The queue as its contract sees it: the messages in the order in which they were sent.
abbrev pub messages : Process → List ℕ
messages process = messages_from process.ipc_queue process.ipc_head process.ipc_count

pub record IsRing (process : Process) : Type 0 where
  pub sized : length process.ipc_queue ≡ ipc_queue_size
  pub headed : process.ipc_head < ipc_queue_size
  pub counted : process.ipc_count ≤ ipc_queue_size
  pub joined : process.ipc_tail ≡ (process.ipc_head + process.ipc_count) % ipc_queue_size

-- A write past the messages adds its value at the end, and keeps the others.
messages_from-set :
    (queue : List ℕ) (head n value : ℕ)
    → length queue ≡ ipc_queue_size
    → n < ipc_queue_size
    → head < ipc_queue_size
    → messages_from (set queue ((head + n) % ipc_queue_size) value) head (suc n)
      ≡ messages_from queue head n ++ value ∷ []
messages_from-set queue head zero value sized room small =
    let here : (head + 0) % 8 ≡ head = omega arith in
    rw here (ap (λ t. t ∷ []) (get_or-set_self queue head value 0 (omega (arith, sized))))
messages_from-set queue head (suc n) value sized room small =
    let elsewhere : (head + suc n) % 8 ≢ head = (λ e. omega (arith, e, small, room)) in
    let shift : (head + suc n) % 8 ≡ ((head + 1) % 8 + n) % 8 = omega arith in
    rw (get_or-set_ne queue ((head + suc n) % 8) head value 0 elsewhere) (
      ap (λ t. get_or queue head 0 ∷ t)
        (subst
          (λ p.
            messages_from (set queue p value) ((head + 1) % 8) (suc n)
            ≡ messages_from queue ((head + 1) % 8) n ++ value ∷ [])
          (sym shift)
          (messages_from-set queue ((head + 1) % 8) n value sized (omega arith) (omega arith))))

length-messages_from : (queue : List ℕ) (head n : ℕ) → length (messages_from queue head n) ≡ n
length-messages_from queue head zero = refl
length-messages_from queue head (suc n) = ap suc (length-messages_from queue ((head + 1) % 8) n)

-- The contract of a send that answered `sent`: appended, or refused as full.
abbrev pub Sends : ℕ → Process → Bool → Process → Type 0
Sends value process true after = messages after ≡ messages process ++ value ∷ []
Sends value process false after = (length (messages process) ≡ ipc_queue_size) × (after ≡ process)

-- The contract of a receive: the oldest message, or nothing where none waits.
abbrev pub Receives : Process → Option ℕ → Process → Type 0
Receives process none after = (messages process ≡ []) × (after ≡ process)
Receives process (some value) after = messages process ≡ value ∷ messages after

appended :
    (value : ℕ) (process : Process)
    → IsRing process
    → process.ipc_count < 8
    → messages_from
        (set process.ipc_queue process.ipc_tail value)
        process.ipc_head
        (process.ipc_count + 1)
      ≡ messages process ++ value ∷ []
appended value process ring room =
    rw (ring.joined, add-one)
      (messages_from-set process.ipc_queue process.ipc_head process.ipc_count value ring.sized room
        ring.headed)

-- On a ring, `KernelIpcSend` refuses exactly when 8 messages wait, and changes nothing then;
-- otherwise it appends its message. The ring stays one.
pub enqueue-IsRing :
    (value : ℕ) (process : Process)
    → IsRing process
    → IsRing (enqueue value process).1
      × Sends value process (enqueue value process).0 (enqueue value process).1
unfolding enqueue
enqueue-IsRing value process ring = elim (Bool-cases (leb ipc_queue_size process.ipc_count)) [
  | inl e ↦
      let full : process.ipc_count ≡ 8 = ground (arith, e, ring.counted) in
      rw e (
        ring,
        (length-messages_from process.ipc_queue process.ipc_head process.ipc_count ∙ full, refl),
      )
  | inr e ↦ rw e (
    record {
      sized = rw (length-set process.ipc_queue process.ipc_tail value) ring.sized;
      headed = ring.headed;
      counted = ground (arith, e);
      joined = omega (arith, ring.joined);
    },
    appended value process ring (ground (arith, e)),
  )
]

-- On a ring, `KernelIpcReceive` answers the oldest message and takes it off, or answers nothing
-- where none waits. The ring stays one.
pub dequeue-IsRing :
    (process : Process)
    → IsRing process
    → IsRing (dequeue process).1 × Receives process (dequeue process).0 (dequeue process).1
unfolding dequeue
dequeue-IsRing process ring = elim (Bool-cases (process.ipc_count == 0)) [
  | inl e ↦
      let none_left : process.ipc_count ≡ 0 = ground (arith, e) in
      rw e (ring, (rw none_left refl, refl))
  | inr e ↦
      let more : process.ipc_count ≡ suc (process.ipc_count - 1) = ground (arith, e) in
      rw e (
        record {
          sized = ring.sized;
          headed = omega arith;
          counted = omega (arith, ring.counted);
          joined = omega (arith, ring.joined, ring.counted, more);
        },
        ap (messages_from process.ipc_queue process.ipc_head) more,
      )
]
