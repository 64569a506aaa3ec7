-- ===== src/Userspace/Tables.antt =====
-- kernel/src/userspace.cpp: the tables of processes, symbols, loader entries, environment variables,
-- shared libraries, signal handlers, SDK components and compatibility targets. The counters count at
-- most the slots of their tables, so that their 32 bits do not wrap.
use uefi_boot_system.Prelude.{
  ℕ, ◌+◌, ◌%◌, ◌^◌, Bool, true, false, not, ◌&&◌, ◌||◌, Option, none, some, if◌then◌else◌, leb,
  ◌==◌, get_or, set,
}
use uefi_boot_system.Prelude.Table.{find_first}
use uefi_boot_system.Prelude.Upsert.{upsert, lookup}
use uefi_boot_system.Prelude.Text.{Text, string_equals, string_length}
use uefi_boot_system.Scheduler.{Scheduler}
use uefi_boot_system.Scheduler.Run.{send_signal}
use uefi_boot_system.Userspace.{
  UserProcessState, empty_slot, ready_to_run, runs, exited, UserProcess, DynamicSymbol,
  LoaderCacheEntry, EnvironmentVariable, SharedLibrary, UserSignalHandler, SdkComponentKind,
  SdkComponent, CompatibilityTargetKind, CompatibilityTarget, Userspace, no_process, no_symbol,
  no_loader_entry, no_variable, no_library, no_handler, no_component, no_target,
}

abbrev pub is_null : Option Text → Bool
is_null none = true
is_null (some t) = false

abbrev pub is_empty_slot : UserProcessState → Bool
is_empty_slot empty_slot = true
is_empty_slot ready_to_run = false
is_empty_slot runs = false
is_empty_slot exited = false

-- The slot of the new process, `none` for a failure.
unfoldable pub register_user_process : ℕ → Option Text → Userspace → Option ℕ × Userspace
register_user_process process_id name s =
    if process_id == 0 || is_null name
    then (none, s)
    else elim (find_first (λ (p : UserProcess). is_empty_slot p.state) s.processes) [
      | none ↦ (none, s)
      | some i ↦ (
        some i,
        record s {
          processes = set s.processes i (record {
            process_id = process_id;
            name = name;
            state = ready_to_run;
            ring3_intent = true;
          });
        },
      )
    ]

unfoldable pub find_user_process : ℕ → Userspace → Option ℕ
find_user_process process_id s =
    find_first (λ (p : UserProcess). (p.process_id == process_id) && not (is_empty_slot p.state))
      s.processes

unfoldable pub set_user_state : ℕ → UserProcessState → Userspace → Userspace
set_user_state i state s = record s {
  processes = set s.processes i (record (get_or s.processes i no_process) { state = state });
}

unfoldable pub sys_exit : ℕ → ℕ → Userspace → ℕ × Userspace
unfolding find_user_process set_user_state
sys_exit process_id code s = elim (find_user_process process_id s) [
  | none ↦ (0, s)
  | some i ↦ (1, set_user_state i exited s)
]

abbrev same_path : Option Text → LoaderCacheEntry → Bool
same_path path entry = string_equals entry.path path

abbrev valid_entry : LoaderCacheEntry → Bool
valid_entry entry = entry.valid

unfoldable pub register_loader_cache_entry : Option Text → ℕ → ℕ → ℕ → Userspace → Bool × Userspace
register_loader_cache_entry path base_address entry_address image_size s =
    if is_null path || base_address == 0 || entry_address == 0 || image_size == 0
    then (false, s)
    else elim (upsert valid_entry (same_path path)
        (λ (e : LoaderCacheEntry). record e {
          base_address = base_address;
          entry_address = entry_address;
          image_size = image_size;
        })
        (record {
          path = path;
          base_address = base_address;
          entry_address = entry_address;
          image_size = image_size;
          valid = true;
        })
        s.loader_cache) [
          | none ↦ (false, s)
          | some (added, table) ↦ (
            true,
            record s {
              loader_cache = table;
              counts = record s.counts {
                cached_loader_entry_count =
                    if added
                    then s.counts.cached_loader_entry_count + 1
                    else s.counts.cached_loader_entry_count;
              };
            },
          )
        ]

unfoldable pub find_loader_cache_entry : Option Text → Userspace → Option LoaderCacheEntry
find_loader_cache_entry path s = lookup valid_entry (same_path path) no_loader_entry s.loader_cache

abbrev pub same_name : Option Text → EnvironmentVariable → Bool
same_name name variable = string_equals variable.name name

abbrev pub active_variable : EnvironmentVariable → Bool
active_variable variable = variable.active

unfoldable pub set_environment_variable : Option Text → Option Text → Userspace → Bool × Userspace
set_environment_variable name value s =
    if is_null name || is_null value || string_length name == 0
    then (false, s)
    else elim (upsert active_variable (same_name name)
        (λ (v : EnvironmentVariable). record v { value = value })
        (record { name = name; value = value; active = true }) s.environment) [
          | none ↦ (false, s)
          | some (added, table) ↦ (
            true,
            record s {
              environment = table;
              counts = record s.counts {
                environment_variable_count =
                    if added
                    then s.counts.environment_variable_count + 1
                    else s.counts.environment_variable_count;
              };
            },
          )
        ]

abbrev pub value_of : Option EnvironmentVariable → Option Text
value_of none = none
value_of (some v) = v.value

unfoldable pub get_environment_variable : Option Text → Userspace → Option Text
get_environment_variable name s =
    value_of (lookup active_variable (same_name name) no_variable s.environment)

abbrev same_soname : Option Text → SharedLibrary → Bool
same_soname soname library = string_equals library.soname soname

abbrev loaded_library : SharedLibrary → Bool
loaded_library library = library.loaded

unfoldable pub load_shared_library : Option Text → ℕ → Userspace → Bool × Userspace
load_shared_library soname base_address s =
    if is_null soname || base_address == 0
    then (false, s)
    else elim (upsert loaded_library (same_soname soname)
        (λ (l : SharedLibrary). record l { reference_count = (l.reference_count + 1) % 2 ^ 32 })
        (record {
          soname = soname;
          base_address = base_address;
          reference_count = 1;
          loaded = true;
        })
        s.libraries) [
          | none ↦ (false, s)
          | some (added, table) ↦ (
            true,
            record s {
              libraries = table;
              counts = record s.counts {
                shared_library_count =
                    if added
                    then s.counts.shared_library_count + 1
                    else s.counts.shared_library_count;
              };
            },
          )
        ]

unfoldable pub find_shared_library : Option Text → Userspace → Option SharedLibrary
find_shared_library soname s = lookup loaded_library (same_soname soname) no_library s.libraries

unfoldable pub register_signal_handler : ℕ → ℕ → Userspace → Bool × Userspace
register_signal_handler process_id signal s =
    if process_id == 0 || leb 32 signal
    then (false, s)
    else elim (find_first (λ (h : UserSignalHandler). not h.pending && not h.delivered)
        s.handlers) [
          | none ↦ (false, s)
          | some i ↦ (
            true,
            record s {
              handlers = set s.handlers i (record (get_or s.handlers i no_handler) {
                process_id = process_id;
                signal = signal;
              });
            },
          )
        ]

unfoldable pub deliver_user_signal :
    ℕ → ℕ → ℕ → Userspace → Scheduler → Bool × Userspace × Scheduler
deliver_user_signal process_id thread_id signal s k =
    elim (find_first
      (λ (h : UserSignalHandler). (h.process_id == process_id) && (h.signal == signal))
      s.handlers) [
        | none ↦ (false, s, k)
        | some i ↦
            let (sent, k') = send_signal thread_id signal k in
            if not sent then (false, s, k') else (
              true,
              record s {
                handlers =
                    set s.handlers i (record (get_or s.handlers i no_handler) {
                      pending = false;
                      delivered = true;
                    });
                counts = record s.counts {
                  delivered_signal_count = (s.counts.delivered_signal_count + 1) % 2 ^ 32;
                };
              },
              k',
            )
      ]

abbrev available_component : SdkComponent → Bool
available_component c = c.available

unfoldable pub sdk_register_component :
    SdkComponentKind → Option Text → Option Text → Userspace → Bool × Userspace
sdk_register_component kind name path s =
    if is_null name || is_null path
    then (false, s)
    else elim (upsert available_component (λ (c : SdkComponent). c.kind == kind)
        (λ (c : SdkComponent). record c { name = name; path = path })
        (record { kind = kind; name = name; path = path; available = true }) s.components) [
          | none ↦ (false, s)
          | some (added, table) ↦ (
            true,
            record s {
              components = table;
              counts = record s.counts {
                sdk_component_count =
                    if added
                    then s.counts.sdk_component_count + 1
                    else s.counts.sdk_component_count;
              };
            },
          )
        ]

unfoldable pub find_sdk_component : SdkComponentKind → Userspace → Option SdkComponent
find_sdk_component kind s =
    lookup available_component (λ (c : SdkComponent). c.kind == kind) no_component s.components

abbrev available_target : CompatibilityTarget → Bool
available_target t = t.available

unfoldable pub register_compatibility_target :
    CompatibilityTargetKind → Option Text → ℕ → ℕ → Userspace → Bool × Userspace
register_compatibility_target kind name version_major version_minor s =
    if is_null name || version_major == 0
    then (false, s)
    else elim (upsert available_target (λ (t : CompatibilityTarget). t.kind == kind)
        (λ (t : CompatibilityTarget). record t {
          name = name;
          version_major = version_major;
          version_minor = version_minor;
        })
        (record {
          kind = kind;
          name = name;
          version_major = version_major;
          version_minor = version_minor;
          available = true;
        })
        s.targets) [
          | none ↦ (false, s)
          | some (added, table) ↦ (
            true,
            record s {
              targets = table;
              counts = record s.counts {
                compatibility_target_count =
                    if added
                    then s.counts.compatibility_target_count + 1
                    else s.counts.compatibility_target_count;
              };
            },
          )
        ]

unfoldable pub find_compatibility_target :
    CompatibilityTargetKind → Userspace → Option CompatibilityTarget
find_compatibility_target kind s =
    lookup available_target (λ (t : CompatibilityTarget). t.kind == kind) no_target s.targets

unfoldable pub register_dynamic_symbol : Option Text → ℕ → Userspace → Bool × Userspace
register_dynamic_symbol name address s =
    if is_null name || address == 0
    then (false, s)
    else elim (find_first (λ (y : DynamicSymbol). not y.resolved) s.symbols) [
      | none ↦ (false, s)
      | some i ↦ (
        true,
        record s {
          symbols = set s.symbols i (record { name = name; address = address; resolved = true });
        },
      )
    ]

unfoldable pub resolve_dynamic_symbol : Option Text → Userspace → ℕ
resolve_dynamic_symbol name s =
    elim (find_first (λ (y : DynamicSymbol). y.resolved && string_equals y.name name) s.symbols) [
      | none ↦ 0
      | some i ↦ (get_or s.symbols i no_symbol).address
    ]
