-- ===== src/Memory/Paging.antt =====
-- kernel/src/kernel.cpp, class VirtualMemoryManager: the page tables of the first 4 GiB, and the walk
-- of the processor through them. Loading `cr3` is assembly.
pub mod Identity
mod Tests
use uefi_boot_system.Prelude.{
  ℕ, zero, suc, ◌+◌, ◌-◌, ◌*◌, ◌/◌, ◌%◌, ◌^◌, ◌≤◌, ◌<◌, ◌≡◌, refl, ap, sym, ◌∙◌, Bool, true, false,
  not, ◌&&◌, ◌||◌, List, [], ◌∷◌, Option, none, some, if◌then◌else◌, ltb, leb, ◌==◌, bit_or, get_or,
  set, replicate, arith, every, every_holds, Bool-cases, inl, inr,
}
use uefi_boot_system.Prelude.Bits.{test_bit}
use uefi_boot_system.Memory.Pmm.Boot.{Statics}

abbrev pub present_writable : ℕ
present_writable = 3

abbrev pub page_size_2mib : ℕ
page_size_2mib = 0x80

abbrev pub large_page_size : ℕ
large_page_size = 0x200000

pub record PageTables : Type 0 where
  pub pml4 : List ℕ
  pub pdpt : List ℕ
  pub directories : List (List ℕ)

-- The inner loop of `InitIdentityMap4GiB` on directory `pd`, with `n` entries left.
unfoldable pub fill_directory : ℕ → ℕ → ℕ → List ℕ → List ℕ
fill_directory zero entry pd directory = directory
fill_directory (suc n) entry pd directory = fill_directory n (entry + 1) pd (
    set directory entry
      (bit_or (bit_or ((pd * 512 + entry) * large_page_size) present_writable) page_size_2mib))

-- The second loop, with `n` directories left; `base` is the address of `g_PageDirectories`.
unfoldable pub fill_directories : ℕ → ℕ → ℕ → PageTables → PageTables
fill_directories zero pd base t = t
fill_directories (suc n) pd base t = fill_directories n (pd + 1) base (record t {
  pdpt = set t.pdpt pd (bit_or (base + pd * 4096) present_writable);
  directories = set t.directories pd (fill_directory 512 0 pd (get_or t.directories pd []));
})

-- Whatever the static tables held, 512 entries in each.
unfoldable pub init_identity_map_4gib : Statics → List (List ℕ) → PageTables
init_identity_map_4gib s before =
    let t =
      fill_directories 4 0 s.page_directories_address
        (record { pml4 = replicate 512 0; pdpt = replicate 512 0; directories = before }) in
    record t { pml4 = set t.pml4 0 (bit_or s.pdpt_address present_writable) }

-- The address field of an entry that points to a table.
abbrev table_of : ℕ → ℕ
table_of entry = entry - entry % 4096

-- The directory at an address of the four.
abbrev directory_at : Statics → PageTables → ℕ → Option (List ℕ)
directory_at s t address =
    if leb s.page_directories_address address && ltb address (s.page_directories_address + 4 * 4096)
    then some (get_or t.directories ((address - s.page_directories_address) / 4096) [])
    else none

-- The walk of a processor with four levels of tables and pages of 2 MiB: `none` where an entry is not
-- present or points to no table of these.
unfoldable pub translate : Statics → PageTables → ℕ → Option ℕ
translate s t a =
    let e4 = get_or t.pml4 (a / 2 ^ 39 % 512) 0 in
    let e3 = get_or t.pdpt (a / 2 ^ 30 % 512) 0 in
    if not (test_bit e4 0) || not (table_of e4 == s.pdpt_address)
    then none
    else if not (test_bit e3 0)
    then none
    else elim (directory_at s t (table_of e3)) [
      | none ↦ none
      | some directory ↦
          let e2 = get_or directory (a / 2 ^ 21 % 512) 0 in
          if test_bit e2 0 && test_bit e2 7
          then some (e2 - e2 % large_page_size + a % large_page_size)
          else none
    ]
