-- ===== src/Userspace.antt =====
-- kernel/src/userspace.cpp: processes of user space, the tables of the loader and of the SDK, files
-- and pipes, the ELF loader, system calls, and the start of applications.
pub mod Tables
pub mod Environment
pub mod Files
pub mod Libc
pub mod Sqrt
pub mod Elf
pub mod Loader
pub mod Syscall
pub mod SelfTest
pub mod SdkTest
pub mod Boot
mod Tests
use uefi_boot_system.Prelude.{ℕ, Bool, true, false, List, Option, none, some, replicate}
use uefi_boot_system.Prelude.Text.{Text}

pub data UserProcessState : Type 0 where
  empty_slot ready_to_run runs exited : UserProcessState

pub record UserProcess : Type 0 where
  pub process_id : ℕ
  pub name : Option Text
  pub state : UserProcessState
  pub ring3_intent : Bool

pub record DynamicSymbol : Type 0 where
  pub name : Option Text
  pub address : ℕ
  pub resolved : Bool

-- A descriptor number; `none` stands for -1 and every other negative number.
abbrev pub Fd : Type 0
Fd = Option ℕ

pub record PosixFileDescriptor : Type 0 where
  pub fd : Fd
  pub path : Option Text
  pub is_open : Bool

pub record LoaderCacheEntry : Type 0 where
  pub path : Option Text
  pub base_address : ℕ
  pub entry_address : ℕ
  pub image_size : ℕ
  pub valid : Bool

pub record EnvironmentVariable : Type 0 where
  pub name : Option Text
  pub value : Option Text
  pub active : Bool

pub record SharedLibrary : Type 0 where
  pub soname : Option Text
  pub base_address : ℕ
  pub reference_count : ℕ
  pub loaded : Bool

pub record UserSignalHandler : Type 0 where
  pub process_id : ℕ
  pub signal : ℕ
  pub pending : Bool
  pub delivered : Bool

pub record UserPipe : Type 0 where
  pub read_fd : Fd
  pub write_fd : Fd
  pub buffer : List ℕ
  pub read_offset : ℕ
  pub write_offset : ℕ
  pub is_open : Bool

pub record PseudoTerminal : Type 0 where
  pub master_fd : Fd
  pub slave_fd : Fd
  pub name : Option Text
  pub is_open : Bool

-- The number of an SDK component's kind, in the order of the enumeration.
abbrev pub SdkComponentKind : Type 0
SdkComponentKind = ℕ

pub record SdkComponent : Type 0 where
  pub kind : SdkComponentKind
  pub name : Option Text
  pub path : Option Text
  pub available : Bool

-- The number of a target's kind, in the order of the enumeration.
abbrev pub CompatibilityTargetKind : Type 0
CompatibilityTargetKind = ℕ

pub record CompatibilityTarget : Type 0 where
  pub kind : CompatibilityTargetKind
  pub name : Option Text
  pub version_major : ℕ
  pub version_minor : ℕ
  pub available : Bool

-- The counters and process ids of `UserspaceStatus`.
pub record UserspaceCounts : Type 0 where
  pub shell_process_id : ℕ
  pub shell_thread_id : ℕ
  pub init_process_id : ℕ
  pub init_thread_id : ℕ
  pub syscall_count : ℕ
  pub loaded_elf_count : ℕ
  pub cached_loader_entry_count : ℕ
  pub environment_variable_count : ℕ
  pub shared_library_count : ℕ
  pub delivered_signal_count : ℕ
  pub pipe_count : ℕ
  pub pty_count : ℕ
  pub sdk_component_count : ℕ
  pub compatibility_target_count : ℕ

pub record Userspace : Type 0 where
  pub counts : UserspaceCounts
  pub processes : List UserProcess
  pub symbols : List DynamicSymbol
  pub descriptors : List PosixFileDescriptor
  pub loader_cache : List LoaderCacheEntry
  pub environment : List EnvironmentVariable
  pub libraries : List SharedLibrary
  pub handlers : List UserSignalHandler
  pub pipes : List UserPipe
  pub ptys : List PseudoTerminal
  pub components : List SdkComponent
  pub targets : List CompatibilityTarget
  pub next_synthetic_fd : ℕ

abbrev pub pipe_buffer_size : ℕ
pipe_buffer_size = 64

abbrev pub first_synthetic_fd : ℕ
first_synthetic_fd = 64

abbrev pub no_process : UserProcess
no_process = record { process_id = 0; name = none; state = empty_slot; ring3_intent = false }

abbrev pub no_symbol : DynamicSymbol
no_symbol = record { name = none; address = 0; resolved = false }

abbrev pub no_descriptor : PosixFileDescriptor
no_descriptor = record { fd = none; path = none; is_open = false }

abbrev pub no_loader_entry : LoaderCacheEntry
no_loader_entry = record {
  path = none;
  base_address = 0;
  entry_address = 0;
  image_size = 0;
  valid = false;
}

abbrev pub no_variable : EnvironmentVariable
no_variable = record { name = none; value = none; active = false }

abbrev pub no_library : SharedLibrary
no_library = record { soname = none; base_address = 0; reference_count = 0; loaded = false }

abbrev pub no_handler : UserSignalHandler
no_handler = record { process_id = 0; signal = 0; pending = false; delivered = false }

abbrev pub no_pipe : UserPipe
no_pipe = record {
  read_fd = none;
  write_fd = none;
  buffer = replicate pipe_buffer_size 0;
  read_offset = 0;
  write_offset = 0;
  is_open = false;
}

abbrev pub no_pty : PseudoTerminal
no_pty = record { master_fd = none; slave_fd = none; name = none; is_open = false }

abbrev pub no_component : SdkComponent
no_component = record { kind = 0; name = none; path = none; available = false }

abbrev pub no_target : CompatibilityTarget
no_target = record {
  kind = 0;
  name = none;
  version_major = 0;
  version_minor = 0;
  available = false;
}

abbrev pub no_counts : UserspaceCounts
no_counts = record {
  shell_process_id = 0;
  shell_thread_id = 0;
  init_process_id = 0;
  init_thread_id = 0;
  syscall_count = 0;
  loaded_elf_count = 0;
  cached_loader_entry_count = 0;
  environment_variable_count = 0;
  shared_library_count = 0;
  delivered_signal_count = 0;
  pipe_count = 0;
  pty_count = 0;
  sdk_component_count = 0;
  compatibility_target_count = 0;
}

-- `ResetUserspaceStatus`, but for the readiness flags.
abbrev pub reset_userspace : Userspace
reset_userspace = record {
  counts = no_counts;
  processes = replicate 64 no_process;
  symbols = replicate 24 no_symbol;
  descriptors = replicate 8 no_descriptor;
  loader_cache = replicate 64 no_loader_entry;
  environment = replicate 12 no_variable;
  libraries = replicate 16 no_library;
  handlers = replicate 8 no_handler;
  pipes = replicate 4 no_pipe;
  ptys = replicate 4 no_pty;
  components = replicate 16 no_component;
  targets = replicate 16 no_target;
  next_synthetic_fd = first_synthetic_fd;
}
