-- ===== src/Userspace/Files.antt =====
-- kernel/src/userspace.cpp: POSIX file descriptors, pipes and pseudo terminals. A buffer that the
-- caller passes is the list of its bytes; the pointers that an operation writes through are part of
-- its answer.
use uefi_boot_system.Prelude.{
  ℕ, zero, suc, ◌+◌, Bool, true, false, not, ◌&&◌, ◌||◌, List, [], ◌∷◌, Option, none, some,
  if◌then◌else◌, ltb, ◌==◌, get_or, set, replicate,
}
use uefi_boot_system.Prelude.Table.{find_first}
use uefi_boot_system.Prelude.Text.{Text}
use uefi_boot_system.Userspace.{
  Fd, PosixFileDescriptor, UserPipe, PseudoTerminal, Userspace, pipe_buffer_size, no_descriptor,
  no_pipe,
}
use uefi_boot_system.Userspace.Tables.{is_null}

abbrev pub same_fd : Fd → Fd → Bool
same_fd none none = true
same_fd none (some b) = false
same_fd (some a) none = false
same_fd (some a) (some b) = a == b

unfoldable pub posix_open : Option Text → Userspace → Fd × Userspace
posix_open path s =
    if is_null path
    then (none, s)
    else elim (find_first (λ (d : PosixFileDescriptor). not d.is_open) s.descriptors) [
      | none ↦ (none, s)
      | some i ↦ (
        some (i + 3),
        record s {
          descriptors =
              set s.descriptors i (record { fd = some (i + 3); path = path; is_open = true });
        },
      )
    ]

abbrev opened : Fd → PosixFileDescriptor → Bool
opened fd d = d.is_open && same_fd d.fd fd

-- Below 3 are the standard descriptors and the negative numbers.
abbrev pub below_three : Fd → Bool
below_three none = true
below_three (some n) = ltb n 3

-- The count of bytes read, always 0, and whether the first byte of the buffer is set to 0.
unfoldable pub posix_read : Fd → Bool → ℕ → Userspace → ℕ × Bool
posix_read fd has_buffer byte_count s =
    if below_three fd || not has_buffer || byte_count == 0
    then (0, false)
    else elim (find_first (opened fd) s.descriptors) [ none ↦ (0, false) | some i ↦ (0, true) ]

-- Whether the descriptor was closed: 0 and -1 in the source.
unfoldable pub posix_close : Fd → Userspace → Bool × Userspace
posix_close fd s = elim (find_first (opened fd) s.descriptors) [
  | none ↦ (false, s)
  | some i ↦ (true, record s { descriptors = set s.descriptors i no_descriptor })
]

-- The slot and the two descriptors of the new pipe; `has_pointers` says that neither pointer is null.
unfoldable pub create_pipe : Bool → Userspace → Option (ℕ × ℕ × ℕ) × Userspace
create_pipe has_pointers s =
    if not has_pointers
    then (none, s)
    else elim (find_first (λ (p : UserPipe). not p.is_open) s.pipes) [
      | none ↦ (none, s)
      | some i ↦ (
        some (i, s.next_synthetic_fd, s.next_synthetic_fd + 1),
        record s {
          pipes = set s.pipes i (record {
            read_fd = some s.next_synthetic_fd;
            write_fd = some (s.next_synthetic_fd + 1);
            buffer = replicate pipe_buffer_size 0;
            read_offset = 0;
            write_offset = 0;
            is_open = true;
          });
          next_synthetic_fd = s.next_synthetic_fd + 2;
          counts = record s.counts { pipe_count = s.counts.pipe_count + 1 };
        },
      )
    ]

-- The loop of `PipeWrite`, with `n` bytes left of the data.
unfoldable pub fill_pipe : ℕ → List ℕ → ℕ → UserPipe → ℕ × UserPipe
fill_pipe zero source written pipe = (written, pipe)
fill_pipe (suc n) source written pipe =
    let rest = fill_pipe n source (written + 1) (record pipe {
      buffer = set pipe.buffer pipe.write_offset (get_or source written 0);
      write_offset = pipe.write_offset + 1;
    }) in
    if ltb pipe.write_offset pipe_buffer_size then rest else (written, pipe)

abbrev writes_to : Fd → UserPipe → Bool
writes_to fd pipe = pipe.is_open && same_fd pipe.write_fd fd

abbrev reads_from : Fd → UserPipe → Bool
reads_from fd pipe = pipe.is_open && same_fd pipe.read_fd fd

-- A null `data` is `none`.
unfoldable pub pipe_write : Fd → Option (List ℕ) → ℕ → Userspace → ℕ × Userspace
unfolding fill_pipe
pipe_write fd none byte_count s = (0, s)
pipe_write fd (some source) byte_count s =
    if byte_count == 0 then (0, s) else elim (find_first (writes_to fd) s.pipes) [
      | none ↦ (0, s)
      | some i ↦
          let (written, pipe) = fill_pipe byte_count source 0 (get_or s.pipes i no_pipe) in
          (written, record s { pipes = set s.pipes i pipe })
    ]

-- The loop of `PipeRead`, with `n` bytes of room left: the bytes read.
unfoldable pub drain_pipe : ℕ → UserPipe → List ℕ × UserPipe
drain_pipe zero pipe = ([], pipe)
drain_pipe (suc n) pipe =
    let rest = drain_pipe n (record pipe { read_offset = pipe.read_offset + 1 }) in
    if ltb pipe.read_offset pipe.write_offset
    then (get_or pipe.buffer pipe.read_offset 0 ∷ rest.0, rest.1)
    else ([], pipe)

-- The bytes that go to `data`; their number is the answer.
unfoldable pub pipe_read : Fd → Bool → ℕ → Userspace → List ℕ × Userspace
unfolding drain_pipe
pipe_read fd has_data byte_count s =
    if not has_data || byte_count == 0 then ([], s) else elim (find_first (reads_from fd) s.pipes) [
      | none ↦ ([], s)
      | some i ↦
          let (bytes, pipe) = drain_pipe byte_count (get_or s.pipes i no_pipe) in
          (bytes, record s { pipes = set s.pipes i pipe })
    ]

-- The slot and the two descriptors of the new terminal.
unfoldable pub open_pseudo_terminal :
    Option Text → Bool → Userspace → Option (ℕ × ℕ × ℕ) × Userspace
open_pseudo_terminal name has_pointers s =
    if is_null name || not has_pointers
    then (none, s)
    else elim (find_first (λ (p : PseudoTerminal). not p.is_open) s.ptys) [
      | none ↦ (none, s)
      | some i ↦ (
        some (i, s.next_synthetic_fd, s.next_synthetic_fd + 1),
        record s {
          ptys = set s.ptys i (record {
            master_fd = some s.next_synthetic_fd;
            slave_fd = some (s.next_synthetic_fd + 1);
            name = name;
            is_open = true;
          });
          next_synthetic_fd = s.next_synthetic_fd + 2;
          counts = record s.counts { pty_count = s.counts.pty_count + 1 };
        },
      )
    ]
