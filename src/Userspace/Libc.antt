-- ===== src/Userspace/Libc.antt =====
-- kernel/src/userspace.cpp: the string and number routines of the SDK, and the tests on names and
-- sizes. `StringEquals` and `StringLength` are in Prelude/Text.antt.
use uefi_boot_system.Prelude.{
  ℕ, zero, suc, ◌+◌, ◌-◌, ◌*◌, ◌%◌, ◌^◌, Bool, true, false, not, ◌&&◌, ◌||◌, List, [], ◌∷◌, Option,
  none, some, if◌then◌else◌, ltb, leb, ◌==◌, get_or, set,
}
use uefi_boot_system.Prelude.Text.{Text, text, string_equals, string_length}
use uefi_boot_system.Userspace.Tables.{is_null}

-- The loop of `StringStartsWith`: a text that ends first differs from the prefix at its terminator.
unfoldable pub starts_loop : Text → Text → Bool
starts_loop t [] = true
starts_loop [] (y ∷ ys) = false
starts_loop (x ∷ xs) (y ∷ ys) = if x == y then starts_loop xs ys else false

unfoldable pub string_starts_with : Option Text → Option Text → Bool
unfolding starts_loop
string_starts_with (some t) (some prefix) = starts_loop t prefix
string_starts_with (some t) none = false
string_starts_with none prefix = false

-- `text + n`.
abbrev pub drop : ℕ → Text → Text
drop zero t = t
drop (suc n) [] = []
drop (suc n) (x ∷ xs) = drop n xs

abbrev suffix_at : ℕ → Option Text → Option Text
suffix_at n none = none
suffix_at n (some t) = some (drop n t)

unfoldable pub string_ends_with : Option Text → Option Text → Bool
string_ends_with t suffix =
    if is_null t || is_null suffix || ltb (string_length t) (string_length suffix)
    then false
    else string_equals (suffix_at (string_length t - string_length suffix) t) suffix

-- The bytes of the destination afterwards, `none` for null.
unfoldable pub copy_loop : ℕ → ℕ → List ℕ → List ℕ → List ℕ
copy_loop zero i destination source = destination
copy_loop (suc n) i destination source =
    copy_loop n (i + 1) (set destination i (get_or source i 0)) source

unfoldable pub sdk_libc_memcpy : Option (List ℕ) → Option (List ℕ) → ℕ → Option (List ℕ)
unfolding copy_loop
sdk_libc_memcpy none source count = none
sdk_libc_memcpy (some destination) none count = none
sdk_libc_memcpy (some destination) (some source) count = some (copy_loop count 0 destination source)

-- The sign and the distance of the two first bytes that differ; bytes are below 128 here, where
-- `char` is their value.
pub data Comparison : Type 0 where
  equal : Comparison
  less more : ℕ → Comparison

abbrev compare_bytes : ℕ → ℕ → Comparison
compare_bytes a b = if a == b then equal else if ltb a b then less (b - a) else more (a - b)

unfoldable pub strcmp_loop : Text → Text → Comparison
strcmp_loop [] [] = equal
strcmp_loop [] (y ∷ ys) = compare_bytes 0 y
strcmp_loop (x ∷ xs) [] = compare_bytes x 0
strcmp_loop (x ∷ xs) (y ∷ ys) = if x == y then strcmp_loop xs ys else compare_bytes x y

unfoldable pub sdk_libc_strcmp : Option Text → Option Text → Comparison
unfolding strcmp_loop
sdk_libc_strcmp none none = equal
sdk_libc_strcmp none (some right) = less 1
sdk_libc_strcmp (some left) none = more 1
sdk_libc_strcmp (some left) (some right) = strcmp_loop left right

-- A 64-bit word in two's complement.
unfoldable pub sdk_libm_abs : ℕ → ℕ
sdk_libm_abs value = if leb (2 ^ 63) value then (2 ^ 64 - value) % 2 ^ 64 else value

-- The loop of `SdkLibmSqrt`; `none` when the fuel runs out.
unfoldable pub sqrt_loop : ℕ → ℕ → ℕ → Option ℕ
sqrt_loop zero result value = none
sqrt_loop (suc fuel) result value =
    let next = (result + 1) % 2 ^ 64 in
    let rest = sqrt_loop fuel next value in
    if leb (next * next % 2 ^ 64) value then rest else some result

unfoldable pub sdk_libm_sqrt : ℕ → ℕ → Option ℕ
unfolding sqrt_loop
sdk_libm_sqrt fuel value = sqrt_loop fuel 0 value

unfoldable pub sdk_compile_command_valid : Option Text → Option Text → Option Text → Bool
sdk_compile_command_valid compiler source output =
    not (is_null compiler)
    && not (is_null source)
    && not (is_null output)
    && ltb 0 (string_length compiler)
    && ltb 2 (string_length source)
    && ltb 0 (string_length output)

unfoldable pub sdk_package_manifest_valid : Option Text → Option Text → Option Text → Bool
sdk_package_manifest_valid name version target =
    not (is_null name)
    && not (is_null version)
    && not (is_null target)
    && ltb 0 (string_length name)
    && leb 3 (string_length version)
    && ltb 0 (string_length target)

unfoldable pub graphics_api_surface_valid : Option Text → ℕ → ℕ → Bool
graphics_api_surface_valid api_name width height =
    not (is_null api_name) && leb 64 width && leb 64 height

unfoldable pub audio_api_device_valid : ℕ → ℕ → Bool
audio_api_device_valid channels sample_rate =
    ltb 0 channels && leb channels 8 && leb 8000 sample_rate && leb sample_rate 192000

unfoldable pub window_protocol_handshake_valid : Option Text → Option Text → Bool
window_protocol_handshake_valid protocol display =
    not (is_null protocol)
    && not (is_null display)
    && ltb 0 (string_length protocol)
    && ltb 0 (string_length display)

unfoldable pub app_executable_path_valid : Option Text → Bool
app_executable_path_valid path =
    not (is_null path)
    && (string_starts_with path (some (text "/system/apps/"))
        || string_starts_with path (some (text "/bin/")))
    && (string_ends_with path (some (text ".app")) || string_starts_with path (some (text "/bin/")))
