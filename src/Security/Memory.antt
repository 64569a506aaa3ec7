-- ===== src/Security/Memory.antt =====
-- kernel/src/security.cpp: process isolation domains and the protection of memory regions.
use uefi_boot_system.Prelude.{
  ℕ, ◌^◌, ◌≡◌, ◌↔◌, refl, inl, inr, Bool, true, false, not, ◌&&◌, ◌||◌, List, [], ◌∷◌, Option, none,
  some, if◌then◌else◌, ◌==◌, set, bit_and, arith, Bool-cases,
}
use uefi_boot_system.Prelude.Bits.{test_bit, bit_and_mask, pow-pos}
use uefi_boot_system.Prelude.Table.{find_first}
use uefi_boot_system.Security.{Security, ProcessIsolationDomain, VmRegionPolicy, is_null, find_user}

abbrev pub user_readable : ℕ
user_readable = 1

abbrev pub user_writable : ℕ
user_writable = 2

abbrev pub user_executable : ℕ
user_executable = 4

abbrev pub kernel_only : ℕ
kernel_only = 8

abbrev pub no_execute : ℕ
no_execute = 16

unfoldable pub add_process_isolation_domain : ℕ → ℕ → ℕ → Bool → Security → Bool × Security
add_process_isolation_domain process_id uid address_space_id ipc_restricted s =
    let domain : ProcessIsolationDomain = record {
      process_id = process_id;
      uid = uid;
      address_space_id = address_space_id;
      ipc_restricted = ipc_restricted;
      active = true;
    } in
    if process_id == 0 || address_space_id == 0 || is_null (find_user uid s)
    then (false, s)
    else elim (find_first (λ d. not d.active) s.domains) [
      | none ↦ (false, s)
      | some i ↦ (true, record s { domains = set s.domains i domain })
    ]

-- The loop of `ProcessesAreIsolated`: the last active domain of each process.
unfoldable pub last_domains :
    ℕ
    → ℕ
    → List ProcessIsolationDomain
    → Option ProcessIsolationDomain
    → Option ProcessIsolationDomain
    → Option ProcessIsolationDomain × Option ProcessIsolationDomain
last_domains lhs_id rhs_id [] lhs rhs = (lhs, rhs)
last_domains lhs_id rhs_id (d ∷ ds) lhs rhs =
    last_domains lhs_id rhs_id ds (if d.active && d.process_id == lhs_id then some d else lhs)
      (if d.active && d.process_id == rhs_id then some d else rhs)

abbrev pub separated : Option ProcessIsolationDomain × Option ProcessIsolationDomain → Bool
separated (some lhs, some rhs) =
    not (lhs.address_space_id == rhs.address_space_id) && lhs.ipc_restricted && rhs.ipc_restricted
separated (some lhs, none) = false
separated (none, rhs) = false

unfoldable pub processes_are_isolated : ℕ → ℕ → Security → Bool
unfolding last_domains
processes_are_isolated lhs_process_id rhs_process_id s =
    separated (last_domains lhs_process_id rhs_process_id s.domains none none)

-- The slot of the region that `AddVmRegion` returns.
unfoldable pub add_vm_region : ℕ → ℕ → ℕ → Security → Option ℕ × Security
add_vm_region base size protection s =
    let region : VmRegionPolicy = record {
      base = base;
      size = size;
      protection = protection;
      active = true;
    } in
    if base == 0 || size == 0
    then (none, s)
    else elim (find_first (λ r. not r.active) s.vm_regions) [
      | none ↦ (none, s)
      | some i ↦ (some i, record s { vm_regions = set s.vm_regions i region })
    ]

unfoldable pub vm_access_allowed : VmRegionPolicy → Bool → Bool → Bool → Bool
vm_access_allowed region write execute kernel_mode =
    if not (bit_and region.protection kernel_only == 0) && not kernel_mode
    then false
    else if write && bit_and region.protection user_writable == 0
    then false
    else if execute
        && (bit_and region.protection user_executable == 0
            || not (bit_and region.protection no_execute == 0))
    then false
    else true

unfoldable pub vm_region_has_nx : VmRegionPolicy → Bool
vm_region_has_nx region = not (bit_and region.protection no_execute == 0)

-- What a region allows, bit by bit: a kernel region only the kernel, a write only with the write
-- bit, and execution only with the execute bit and without the no-execute bit.
abbrev pub Allows : VmRegionPolicy → Bool → Bool → Bool → Type 0
Allows region write execute kernel_mode =
    (test_bit region.protection 3 ≡ true → kernel_mode ≡ true)
    × (write ≡ true → test_bit region.protection 1 ≡ true)
    × (execute ≡ true
        → (test_bit region.protection 2 ≡ true) × (test_bit region.protection 4 ≡ false))

mask_clear : (word k mask : ℕ) → mask ≡ 2 ^ k → (bit_and word mask == 0) ≡ not (test_bit word k)
mask_clear word k mask e =
    rw (e, bit_and_mask k word)
      (elim (Bool-cases (test_bit word k)) [
        | inl t ↦ rw t (ground (arith, pow-pos k))
        | inr t ↦ rw t refl
      ])

decide :
    (only writable executable nx write execute kernel_mode : Bool)
    → ((if not (not only) && not kernel_mode
          then false
          else if write && not writable
          then false
          else if execute && (not executable || not (not nx))
          then false
          else true)
        ≡ true)
      ↔ ((only ≡ true → kernel_mode ≡ true)
          × (write ≡ true → writable ≡ true)
          × (execute ≡ true → (executable ≡ true) × (nx ≡ false)))
decide only writable executable nx write execute kernel_mode = (
  (λ h. ((λ o. ground arith), (λ w. ground arith), (λ x. (ground arith, ground arith)))),
  (λ h.
      let (kernel, written, executed) = h in
      let runs : execute ≡ true → executable ≡ true = (λ x. (executed x).0) in
      let clear : execute ≡ true → nx ≡ false = (λ x. (executed x).1) in
      ground (arith, kernel, written, runs, clear)),
)

-- `VmAccessAllowed` answers true exactly when the region's bits allow the access.
pub vm_access_allowed-Allows :
    (region : VmRegionPolicy) (write execute kernel_mode : Bool)
    → (vm_access_allowed region write execute kernel_mode ≡ true)
      ↔ Allows region write execute kernel_mode
unfolding vm_access_allowed
vm_access_allowed-Allows region write execute kernel_mode =
    rw
      (
        mask_clear region.protection 3 8 refl,
        mask_clear region.protection 1 2 refl,
        mask_clear region.protection 2 4 refl,
        mask_clear region.protection 4 16 refl,
      )
      (decide (test_bit region.protection 3) (test_bit region.protection 1)
        (test_bit region.protection 2) (test_bit region.protection 4) write execute kernel_mode)

last_domains_same :
    (id : ℕ) (domains : List ProcessIsolationDomain) (found : Option ProcessIsolationDomain)
    → (d : Option ProcessIsolationDomain) × (last_domains id id domains found found ≡ (d, d))
unfolding last_domains
last_domains_same id [] found = (found, refl)
last_domains_same id (d ∷ ds) found =
    last_domains_same id ds (if d.active && d.process_id == id then some d else found)

separated_same : (d : Option ProcessIsolationDomain) → separated (d, d) ≡ false
separated_same none = refl
separated_same (some d) = ground arith

abbrev pub swapped :
    Option ProcessIsolationDomain × Option ProcessIsolationDomain
    → Option ProcessIsolationDomain × Option ProcessIsolationDomain
swapped (a, b) = (b, a)

last_domains-swapped :
    (p q : ℕ) (domains : List ProcessIsolationDomain) (a b : Option ProcessIsolationDomain)
    → last_domains q p domains b a ≡ swapped (last_domains p q domains a b)
unfolding last_domains
last_domains-swapped p q [] a b = refl
last_domains-swapped p q (d ∷ ds) a b = last_domains-swapped p q ds _ _

separated_swapped : (a b : Option ProcessIsolationDomain) → separated (a, b) ≡ separated (b, a)
separated_swapped none none = refl
separated_swapped none (some b) = refl
separated_swapped (some a) none = refl
separated_swapped (some a) (some b) = ground arith

-- `ProcessesAreIsolated` does not depend on the order of the processes, and no process is isolated
-- from itself.
pub processes_are_isolated-swap :
    (p q : ℕ) (s : Security)
    → (processes_are_isolated p q s ≡ processes_are_isolated q p s)
      × (processes_are_isolated p p s ≡ false)
unfolding processes_are_isolated
processes_are_isolated-swap p q s =
    let (d, same) = last_domains_same p s.domains none in
    (
      rw (last_domains-swapped p q s.domains none none) (
          separated_swapped (last_domains p q s.domains none none).0
            (last_domains p q s.domains none none).1),
      rw same (separated_same d),
    )
