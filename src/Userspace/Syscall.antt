-- ===== src/Userspace/Syscall.antt =====
-- kernel/src/userspace.cpp: the system calls. The memory of the caller is a parameter: the C string at
-- an address, none for null, and the address of a string. The bytes that `SysWrite` logs are left out.
use uefi_boot_system.Prelude.{
  ℕ, zero, suc, ◌+◌, ◌-◌, ◌%◌, ◌^◌, Bool, true, false, not, ◌&&◌, [], ◌∷◌, Option, none, some,
  if◌then◌else◌, ltb, ◌==◌, length,
}
use uefi_boot_system.Prelude.Text.{Text}
use uefi_boot_system.Scheduler.{Scheduler}
use uefi_boot_system.Scheduler.Run.{scheduler_yield}
use uefi_boot_system.Userspace.{Fd, Userspace}
use uefi_boot_system.Userspace.Tables.{sys_exit, deliver_user_signal, get_environment_variable}
use uefi_boot_system.Userspace.Files.{posix_open, posix_read, posix_close, create_pipe}

-- The number of bytes before the terminator, at most `n`.
unfoldable pub write_loop : ℕ → Text → ℕ
write_loop zero t = 0
write_loop (suc n) [] = 0
write_loop (suc n) (x ∷ xs) = suc (write_loop n xs)

unfoldable pub sys_write : Option Text → ℕ → ℕ
unfolding write_loop
sys_write none byte_count = 0
sys_write (some t) byte_count = write_loop byte_count t

unfoldable pub enter_syscall : Userspace → Userspace
enter_syscall s = record s {
  counts = record s.counts { syscall_count = (s.counts.syscall_count + 1) % 2 ^ 64 };
}

-- `LibcWrite`, with the system call that it makes.
unfoldable pub libc_write : ℕ → Option Text → Userspace → ℕ × Userspace
unfolding sys_write enter_syscall
libc_write fd none s = (0, s)
libc_write fd (some t) s =
    if not (fd == 1) && not (fd == 2)
    then (0, s)
    else (sys_write (some t) (length t), enter_syscall s)

-- `static_cast<int32_t>` of a 64-bit word.
abbrev pub fd_of : ℕ → Fd
fd_of word = if ltb (word % 2 ^ 32) (2 ^ 31) then some (word % 2 ^ 32) else none

abbrev pub word_of : Fd → ℕ
word_of none = 2 ^ 64 - 1
word_of (some fd) = fd

abbrev answer : Bool → ℕ
answer true = 0
answer false = 1

abbrev some_slot : Option (ℕ × ℕ × ℕ) → Bool
some_slot none = false
some_slot (some a) = true

pub data SyscallNumber : Type 0 where
  write_call exit_call yield_call get_pid_call open_call read_call close_call pipe_call signal_call
        get_env_call unknown_call :
      SyscallNumber

-- The switch of `KernelSyscall`.
abbrev pub syscall_number : ℕ → SyscallNumber
syscall_number n =
    if n == 1
    then write_call
    else if n == 2
    then exit_call
    else if n == 3
    then yield_call
    else if n == 4
    then get_pid_call
    else if n == 5
    then open_call
    else if n == 6
    then read_call
    else if n == 7
    then close_call
    else if n == 8
    then pipe_call
    else if n == 9
    then signal_call
    else if n == 10
    then get_env_call
    else unknown_call

module _ (string_at : ℕ → Option Text) (address_of : Option Text → ℕ) where
  unfoldable pub run_syscall :
      SyscallNumber → ℕ → ℕ → ℕ → Userspace → Scheduler → ℕ × Userspace × Scheduler
  run_syscall write_call a b c s k = (sys_write (string_at a) b, s, k)
  run_syscall exit_call a b c s k = let (r, s') = sys_exit a b s in (r, s', k)
  run_syscall yield_call a b c s k = (0, s, (scheduler_yield k).1)
  run_syscall get_pid_call a b c s k = (s.counts.shell_process_id, s, k)
  run_syscall open_call a b c s k = let (fd, s') = posix_open (string_at a) s in (word_of fd, s', k)
  run_syscall read_call a b c s k = ((posix_read (fd_of a) (not (b == 0)) c s).0, s, k)
  run_syscall close_call a b c s k =
      let (closed, s') = posix_close (fd_of a) s in
      (word_of (if closed then some 0 else none), s', k)
  run_syscall pipe_call a b c s k =
      let (slot, s') = create_pipe (not (a == 0) && not (b == 0)) s in
      (answer (some_slot slot), s', k)
  run_syscall signal_call a b c s k =
      let (sent, s', k') = deliver_user_signal a b (c % 2 ^ 32) s k in (answer sent, s', k')
  run_syscall get_env_call a b c s k = (address_of (get_environment_variable (string_at a) s), s, k)
  run_syscall unknown_call a b c s k = (0, s, k)

  unfoldable pub kernel_syscall : ℕ → ℕ → ℕ → ℕ → Userspace → Scheduler → ℕ × Userspace × Scheduler
  unfolding run_syscall enter_syscall
  kernel_syscall number a b c s k = run_syscall (syscall_number number) a b c (enter_syscall s) k
