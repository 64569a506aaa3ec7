-- ===== src/Network/Sockets.antt =====
-- kernel/src/network.cpp: the socket table.
use uefi_boot_system.Prelude.{
  ℕ, zero, suc, ◌+◌, ◌-◌, ◌%◌, ◌^◌, ◌≤◌, ◌<◌, ◌≡◌, refl, ◌∙◌, Bool, true, false, not, ◌||◌, List,
  [], ◌∷◌, Option, none, some, if◌then◌else◌, ltb, ◌==◌, get_or, set, replicate, length, length-set,
  map, ap, arith,
}
use uefi_boot_system.Prelude.Cases.{by_option, by_if}
use uefi_boot_system.Prelude.Table.{find_first, find_first-test, find_first-lt}

pub data SocketType : Type 0 where
  no_socket udp_socket tcp_socket : SocketType

abbrev pub is_empty_type : SocketType → Bool
is_empty_type no_socket = true
is_empty_type udp_socket = false
is_empty_type tcp_socket = false

pub record Socket : Type 0 where
  pub id : ℕ
  pub kind : SocketType
  pub local_port : ℕ
  pub remote_port : ℕ
  pub is_open : Bool

abbrev pub closed : Socket
closed = record { id = 0; kind = no_socket; local_port = 0; remote_port = 0; is_open = false }

abbrev pub max_sockets : ℕ
max_sockets = 16

pub record Sockets : Type 0 where
  pub sockets : List Socket
  pub socket_count : ℕ
  pub next_socket_id : ℕ

-- The table that `ResetNetworkStatus` leaves.
abbrev pub reset_sockets : Sockets
reset_sockets = record {
  sockets = replicate max_sockets closed;
  socket_count = 0;
  next_socket_id = 1;
}

-- The part of `ResetNetworkStatus` on the sockets: the loop closes every slot.
unfoldable pub reset_table : Sockets → Sockets
reset_table s = record {
  sockets = map (λ x. closed) s.sockets;
  socket_count = 0;
  next_socket_id = 1;
}

map-closed : (xs : List Socket) → map (λ x. closed) xs ≡ replicate (length xs) closed
map-closed [] = refl
map-closed (x ∷ xs) = ap (λ ys. closed ∷ ys) (map-closed xs)

-- It leaves the same table whatever the slots held.
pub reset_table_lem : (s : Sockets) → length s.sockets ≡ max_sockets → reset_table s ≡ reset_sockets
unfolding reset_table
reset_table_lem s sized =
    ap (λ xs. record { sockets = xs; socket_count = 0; next_socket_id = 1 })
      (map-closed s.sockets ∙ ap (λ n. replicate n closed) sized)

abbrev pub socket_at : Sockets → ℕ → Socket
socket_at s i = get_or s.sockets i closed

unfoldable pub socket_open : SocketType → ℕ → Sockets → Option ℕ × Sockets
socket_open kind local_port s =
    if is_empty_type kind || local_port == 0
    then (none, s)
    else elim (find_first (λ x. not x.is_open) s.sockets) [
      | none ↦ (none, s)
      | some i ↦ (
        some i,
        record {
          sockets = set s.sockets i (record {
            id = s.next_socket_id;
            kind = kind;
            local_port = local_port;
            remote_port = 0;
            is_open = true;
          });
          socket_count = (s.socket_count + 1) % 2 ^ 32;
          next_socket_id = (s.next_socket_id + 1) % 2 ^ 32;
        },
      )
    ]

unfoldable pub socket_connect : ℕ → ℕ → Sockets → Bool × Sockets
socket_connect i remote_port s =
    if not (socket_at s i).is_open || remote_port == 0 then (false, s) else (
      true,
      record s { sockets = set s.sockets i (record (socket_at s i) { remote_port = remote_port }) },
    )

unfoldable pub socket_close : ℕ → Sockets → Bool × Sockets
socket_close i s = if not (socket_at s i).is_open then (false, s) else (
  true,
  record s {
    sockets = set s.sockets i (record (socket_at s i) { is_open = false; kind = no_socket });
    socket_count = if ltb 0 s.socket_count then s.socket_count - 1 else s.socket_count;
  },
)

abbrev pub unit : Bool → ℕ
unit true = 1
unit false = 0

abbrev pub open_count : List Socket → ℕ
open_count [] = 0
open_count (x ∷ xs) = unit x.is_open + open_count xs

-- The counter is the number of open sockets of the table.
pub record IsCounted (s : Sockets) : Type 0 where
  pub sized : length s.sockets ≡ max_sockets
  pub counted : s.socket_count ≡ open_count s.sockets

open_count-set :
    (xs : List Socket) (i : ℕ) (x : Socket)
    → i < length xs
    → open_count (set xs i x) + unit (get_or xs i closed).is_open ≡ open_count xs + unit x.is_open
open_count-set [] i x h = absurd (omega arith)
open_count-set (y ∷ ys) zero x h = omega arith
open_count-set (y ∷ ys) (suc i) x h = omega (arith, open_count-set ys i x (omega arith))

open_count_le : (xs : List Socket) → open_count xs ≤ length xs
open_count_le [] = omega arith
open_count_le (x ∷ xs) = omega (arith, unit_le x.is_open, open_count_le xs)
  where
    unit_le : (b : Bool) → unit b ≤ 1
    unit_le true = omega arith
    unit_le false = omega arith

closed_unit : (b : Bool) → not b ≡ true → unit b ≡ 0
closed_unit true e = cc
closed_unit false e = refl

-- An open socket stands in the table.
open-lt : (xs : List Socket) (i : ℕ) → (get_or xs i closed).is_open ≡ true → i < length xs
open-lt [] i e = cc
open-lt (x ∷ xs) zero e = omega arith
open-lt (x ∷ xs) (suc i) e = omega (arith, open-lt xs i e)

CountedAfter : {A : Type 0} → A × Sockets → Type 0
CountedAfter r = IsCounted r.1

pub socket_open-IsCounted :
    (kind : SocketType) (port : ℕ) (s : Sockets)
    → IsCounted s
    → IsCounted (socket_open kind port s).1
unfolding socket_open CountedAfter
socket_open-IsCounted kind port s h =
    by_if CountedAfter (is_empty_type kind || port == 0) _ _ (λ z. h)
      (λ z.
        by_option CountedAfter (find_first (λ x. not x.is_open) s.sockets) _ _ (λ e. h)
          (λ i e.
            let free : not (socket_at s i).is_open ≡ true =
              find_first-test (λ x. not x.is_open) s.sockets i closed e in
            let was : unit (socket_at s i).is_open ≡ 0 = closed_unit (socket_at s i).is_open free in
            record {
              sized = length-set s.sockets i _ ∙ h.sized;
              counted = omega (
                arith,
                h.counted,
                h.sized,
                was,
                open_count_le s.sockets,
                open_count-set s.sockets i
                    (record {
                      id = s.next_socket_id;
                      kind = kind;
                      local_port = port;
                      remote_port = 0;
                      is_open = true;
                    })
                    (find_first-lt (λ x. not x.is_open) s.sockets i e),
              );
            }))

pub socket_connect-IsCounted :
    (i port : ℕ) (s : Sockets) → IsCounted s → IsCounted (socket_connect i port s).1
unfolding socket_connect CountedAfter
socket_connect-IsCounted i port s h =
    by_if CountedAfter (not (socket_at s i).is_open || port == 0) _ _ (λ z. h)
      (λ z.
        let opened : (socket_at s i).is_open ≡ true = ground (arith, z) in
        record {
          sized = length-set s.sockets i _ ∙ h.sized;
          counted = omega (
            arith,
            h.counted,
            open_count-set s.sockets i (record (socket_at s i) { remote_port = port })
                (open-lt s.sockets i opened),
          );
        })

pub socket_close-IsCounted : (i : ℕ) (s : Sockets) → IsCounted s → IsCounted (socket_close i s).1
unfolding socket_close CountedAfter
socket_close-IsCounted i s h =
    by_if CountedAfter (not (socket_at s i).is_open) _ _ (λ z. h)
      (λ z.
        let opened : (socket_at s i).is_open ≡ true = ground (arith, z) in
        let was : unit (socket_at s i).is_open ≡ 1 = rw opened refl in
        let less =
          open_count-set s.sockets i (record (socket_at s i) { is_open = false; kind = no_socket })
            (open-lt s.sockets i opened) in
        record {
          sized = length-set s.sockets i _ ∙ h.sized;
          counted = ground (arith, h.counted, was, less);
        })

pub data Operation : Type 0 where
  opens : SocketType → ℕ → Operation
  connects : ℕ → ℕ → Operation
  closes : ℕ → Operation

abbrev pub run : List Operation → Sockets → Sockets
run [] s = s
run (opens kind port ∷ rest) s = run rest (socket_open kind port s).1
run (connects i port ∷ rest) s = run rest (socket_connect i port s).1
run (closes i ∷ rest) s = run rest (socket_close i s).1

run_keeps : (operations : List Operation) (s : Sockets) → IsCounted s → IsCounted (run operations s)
run_keeps [] s h = h
run_keeps (opens kind port ∷ rest) s h =
    run_keeps rest (socket_open kind port s).1 (socket_open-IsCounted kind port s h)
run_keeps (connects i port ∷ rest) s h =
    run_keeps rest (socket_connect i port s).1 (socket_connect-IsCounted i port s h)
run_keeps (closes i ∷ rest) s h = run_keeps rest (socket_close i s).1 (socket_close-IsCounted i s h)

-- After any operations on the reset table, in any order and on any slots, the counter is the number
-- of open sockets, and at most 16.
pub run-IsCounted :
    (operations : List Operation)
    → IsCounted (run operations reset_sockets)
      × ((run operations reset_sockets).socket_count ≤ max_sockets)
run-IsCounted operations =
    let h = run_keeps operations reset_sockets (record { sized = refl; counted = refl }) in
    (h, omega (arith, h.counted, h.sized, open_count_le (run operations reset_sockets).sockets))
