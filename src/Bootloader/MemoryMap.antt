-- ===== src/Bootloader/MemoryMap.antt =====
-- bootloader/src/memory_map.cpp: the memory map of the firmware in a buffer of the loader. The boot
-- services are a parameter; a null buffer is 0. Print is left out.
use mathlib.Core.Option.{some-injective}
use native.Mathlib.Nat.{le-div_iff_mul-le, mod-eq_of_lt, mul_comm, mul-suc}
use uefi_boot_system.Prelude.{
  ℕ, zero, suc, ◌+◌, ◌*◌, ◌/◌, ◌%◌, ◌^◌, ◌≤◌, ◌<◌, ◌≡◌, ap, ◌∙◌, Bool, true, false, not, ◌||◌,
  Option, none, some, if◌then◌else◌, leb, ◌==◌, arith,
}
use uefi_boot_system.Prelude.Cases.{by_if}
use uefi_boot_system.Memory.Pmm.{efi_conventional_memory}
use uefi_boot_system.Memory.Pmm.Boot.{Descriptor}

abbrev pub efi_success : ℕ
efi_success = 0

abbrev pub efi_buffer_too_small : ℕ
efi_buffer_too_small = 0x8000000000000005

pub record MemoryMap : Type 0 where
  pub buffer : ℕ
  pub map_size : ℕ
  pub map_key : ℕ
  pub descriptor_size : ℕ
  pub descriptor_version : ℕ

-- What `GetMemoryMap` of the firmware answers and writes to its arguments.
pub record MapAnswer : Type 0 where
  pub status : ℕ
  pub size : ℕ
  pub key : ℕ
  pub descriptor_bytes : ℕ
  pub version : ℕ

-- The boot services that are called, on the firmware's own state: GetMemoryMap of a size and a buffer,
-- AllocatePool, which answers a status and a buffer, and FreePool.
pub record BootServices (F : Type 0) : Type 0 where
  pub get_memory_map : ℕ → ℕ → F → MapAnswer × F
  pub allocate_pool : ℕ → F → ℕ × ℕ × F
  pub free_pool : ℕ → F → F

unfoldable pub empty_map : MemoryMap
empty_map = record {
  buffer = 0;
  map_size = 0;
  map_key = 0;
  descriptor_size = 0;
  descriptor_version = 0;
}

abbrev answered : MapAnswer → MemoryMap → MemoryMap
answered a m = record m {
  map_size = a.size;
  map_key = a.key;
  descriptor_size = a.descriptor_bytes;
  descriptor_version = a.version;
}

module _ {F : Type 0} (bs : BootServices F) where
  unfoldable pub free_map : MemoryMap → F → MemoryMap × F
  free_map m f = (
    record m { buffer = 0; map_size = 0 },
    if not (m.buffer == 0) then bs.free_pool m.buffer f else f,
  )

  -- The part of `Get` with a buffer.
  unfoldable pub fill_buffer : MemoryMap → F → Bool × MemoryMap × F
  fill_buffer m f =
      let (a, f') = bs.get_memory_map m.map_size m.buffer f in
      let (freed, f'') = free_map (answered a m) f' in
      if not (a.status == efi_success) then (false, freed, f'') else (true, answered a m, f')

  unfoldable pub get_map : MemoryMap → F → Bool × MemoryMap × F
  get_map before f0 =
      let (m, f) = free_map before f0 in
      let (a, f') = bs.get_memory_map m.map_size 0 f in
      let asked = answered a m in
      let size = (a.size + 2048) % 2 ^ 64 in
      let (status, buffer, f'') = bs.allocate_pool size f' in
      let with_buffer = record asked { map_size = size; buffer = buffer } in
      let filled = fill_buffer with_buffer f'' in
      if not (a.status == efi_buffer_too_small)
      then (false, asked, f')
      else if not (status == efi_success) || (buffer == 0)
      then (false, with_buffer, f'')
      else filled

unfoldable pub get_entry_count : MemoryMap → ℕ
get_entry_count m = if not (m.descriptor_size == 0) then m.map_size / m.descriptor_size else 0

-- The address of the descriptor, `none` for null.
unfoldable pub get_entry : ℕ → MemoryMap → Option ℕ
get_entry index m =
    if m.buffer == 0 || leb (get_entry_count m) index
    then none
    else some ((m.buffer + index * m.descriptor_size) % 2 ^ 64)

-- The loop of `GetTotalConventionalMemory` from entry `i` on, with `n` left; `describe` reads memory.
unfoldable pub sum_conventional : ℕ → ℕ → (ℕ → Descriptor) → MemoryMap → ℕ → ℕ
sum_conventional zero i describe m total = total
sum_conventional (suc n) i describe m total =
    sum_conventional n (i + 1) describe m (elim (get_entry i m) [
      | none ↦ total
      | some address ↦
          let d = describe address in
          if d.kind == efi_conventional_memory
          then (total + d.number_of_pages * 4096 % 2 ^ 64) % 2 ^ 64
          else total
    ])

unfoldable pub get_total_conventional_memory : (ℕ → Descriptor) → MemoryMap → ℕ
get_total_conventional_memory describe m = sum_conventional (get_entry_count m) 0 describe m 0

times_suc : (n size : ℕ) → suc n * size ≡ size + n * size
times_suc n size =
    mul_comm (suc n) size ∙ mul-suc size n ∙ ap (λ t. t + size) (mul_comm size n) ∙ omega arith

-- Where the map ends below 2 to the 64, every entry that GetEntry answers lies in the buffer with all
-- the bytes of a descriptor.
pub get_entry-inside :
    (index address : ℕ) (m : MemoryMap)
    → m.buffer + m.map_size < 2 ^ 64
    → get_entry index m ≡ some address
    → (m.buffer ≤ address) × (address + m.descriptor_size ≤ m.buffer + m.map_size)
unfolding get_entry get_entry_count
get_entry-inside index address m fits =
    let P : Option ℕ → Type 0 = λ o.
      o ≡ some address
      → (m.buffer ≤ address) × (address + m.descriptor_size ≤ m.buffer + m.map_size) in
    let count = if not (m.descriptor_size == 0) then m.map_size / m.descriptor_size else 0 in
    by_if P (m.buffer == 0 || leb count index) _ _ (λ e found. absurd (cc found))
      (λ e found.
        let some_size : 0 < m.descriptor_size = ground (arith, e) in
        let below : suc index ≤ m.map_size / m.descriptor_size = ground (arith, e) in
        let bytes : suc index * m.descriptor_size ≤ m.map_size =
          (le-div_iff_mul-le some_size).0 below in
        let step : suc index * m.descriptor_size ≡ m.descriptor_size + index * m.descriptor_size =
          times_suc index m.descriptor_size in
        let at : (m.buffer + index * m.descriptor_size) % 2 ^ 64 ≡ address =
          some-injective _ _ found in
        let plain : (m.buffer + index * m.descriptor_size) % 2 ^ 64
            ≡ m.buffer + index * m.descriptor_size =
          mod-eq_of_lt (omega (arith, bytes, step, fits, some_size)) in
        (omega (arith, at, plain), omega (arith, at, plain, bytes, step)))
