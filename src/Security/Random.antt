-- ===== src/Security/Random.antt =====
-- kernel/src/security.cpp: the random generator, address space layout randomisation and the canary.
use uefi_boot_system.Prelude.{
  ℕ, ◌+◌, ◌*◌, ◌/◌, ◌%◌, ◌^◌, ◌≤◌, ◌<◌, ◌≡◌, ◌≢◌, ◌↔◌, refl, Bool, true, false, not, ◌&&◌, ◌||◌,
  if◌then◌else◌, ◌==◌, bit_and, bit_or, bit_xor, arith,
}
use uefi_boot_system.Prelude.Bits.{
  bit_xor-zero, bit_xor-lt, bit_and_low, HasBits, test_bit, bit_or-HasBits, zero-test_bit,
}
use uefi_boot_system.Prelude.Cases.{by_if}
use uefi_boot_system.Security.{Security}

abbrev pub user_aslr_base : ℕ
user_aslr_base = 0x400000

abbrev pub kernel_aslr_base : ℕ
kernel_aslr_base = 0xFFFFFFFF80000000

abbrev pub aslr_page_mask : ℕ
aslr_page_mask = 0xFFFFF

abbrev pub kernel_aslr_page_mask : ℕ
kernel_aslr_page_mask = 0x7FFFF

abbrev pub stack_canary_terminator : ℕ
stack_canary_terminator = 0x00FF0A0000000000

unfoldable pub mix_security_entropy : ℕ → ℕ
mix_security_entropy value =
    let v1 = bit_xor value (value / 2 ^ 33) in
    let v2 = v1 * 0xFF51AFD7ED558CCD % 2 ^ 64 in
    let v3 = bit_xor v2 (v2 / 2 ^ 33) in
    let v4 = v3 * 0xC4CEB9FE1A85EC53 % 2 ^ 64 in bit_xor v4 (v4 / 2 ^ 33)

unfoldable pub seed_secure_random : ℕ → Security → Bool × Security
seed_secure_random seed s =
    let state = mix_security_entropy seed in
    let seeded = not (state == 0) in
    if seed == 0
    then (false, s)
    else (seeded, record s { random = record { state = state; seeded = seeded } })

-- One step of the generator: `x ^= x << 13; x ^= x >> 7; x ^= x << 17;` on 64 bits.
unfoldable pub xorshift : ℕ → ℕ
xorshift x0 =
    let x1 = bit_xor x0 (x0 * 2 ^ 13 % 2 ^ 64) in
    let x2 = bit_xor x1 (x1 / 2 ^ 7) in bit_xor x2 (x2 * 2 ^ 17 % 2 ^ 64)

unfoldable pub secure_random64 : Security → ℕ × Security
unfolding xorshift
secure_random64 s =
    let x = xorshift s.random.state in
    if not s.random.seeded
    then (0, s)
    else (x, record s { random = record { state = x; seeded = s.random.seeded } })

unfoldable pub generate_aslr_offset : ℕ → ℕ → ℕ
generate_aslr_offset image_id salt =
    bit_and (mix_security_entropy (bit_xor image_id salt)) aslr_page_mask * 2 ^ 12 % 2 ^ 64

unfoldable pub generate_kernel_aslr_offset : ℕ → ℕ → ℕ
generate_kernel_aslr_offset image_id salt =
    bit_and (mix_security_entropy (bit_xor image_id salt)) kernel_aslr_page_mask * 2 ^ 12 % 2 ^ 64

unfoldable pub apply_user_aslr : ℕ → ℕ → ℕ
unfolding generate_aslr_offset
apply_user_aslr image_id salt = (user_aslr_base + generate_aslr_offset image_id salt) % 2 ^ 64

unfoldable pub apply_kernel_aslr : ℕ → ℕ
unfolding generate_kernel_aslr_offset
apply_kernel_aslr boot_seed =
    (kernel_aslr_base + generate_kernel_aslr_offset 0xC0DEF00D boot_seed) % 2 ^ 64

unfoldable pub generate_stack_canary : ℕ → Security → ℕ × Security
generate_stack_canary thread_id s =
    let (random, after) = secure_random64 s in
    let value = bit_or (bit_xor random thread_id) stack_canary_terminator in
    if random == 0 || thread_id == 0
    then (0, after)
    else (value, record after { stack_canary = record { value = value; active = true } })

unfoldable pub check_stack_canary : ℕ → ℕ → Security → Bool
check_stack_canary expected observed s =
    s.stack_canary.active && expected == observed && observed == s.stack_canary.value

-- A user image is placed at a page boundary, within 4 GiB above its base.
pub apply_user_aslr-aligned :
    (image_id salt : ℕ)
    → let address = apply_user_aslr image_id salt in
      (address % 4096 ≡ 0) × (user_aslr_base ≤ address) × (address < user_aslr_base + 2 ^ 32)
unfolding apply_user_aslr
apply_user_aslr-aligned image_id salt =
    let masked = bit_and_low 20 (mix_security_entropy (bit_xor image_id salt)) in
    (omega (arith, masked), omega (arith, masked), omega (arith, masked))

-- Each step keeps a 64-bit state in 64 bits and never makes it 0.
xorshift-nonzero : (x : ℕ) → 0 < x → x < 2 ^ 64 → (0 < xorshift x) × (xorshift x < 2 ^ 64)
unfolding xorshift
xorshift-nonzero x0 some_bit small =
    let x1 : ℕ = bit_xor x0 (x0 * 2 ^ 13 % 2 ^ 64) in
    let x2 : ℕ = bit_xor x1 (x1 / 2 ^ 7) in
    let small1 : x1 < 2 ^ 64 = bit_xor-lt 64 x0 (x0 * 2 ^ 13 % 2 ^ 64) small (omega arith) in
    let small2 : x2 < 2 ^ 64 = bit_xor-lt 64 x1 (x1 / 2 ^ 7) small1 (omega (arith, small1)) in
    let keeps1 : x1 ≢ 0 =
      (λ e. omega (arith, bit_xor-zero x0 (x0 * 2 ^ 13 % 2 ^ 64) e, some_bit, small)) in
    let keeps2 : x2 ≢ 0 = (λ e. keeps1 (omega (arith, bit_xor-zero x1 (x1 / 2 ^ 7) e))) in
    let keeps3 : bit_xor x2 (x2 * 2 ^ 17 % 2 ^ 64) ≢ 0 =
      (λ e. keeps2 (omega (arith, bit_xor-zero x2 (x2 * 2 ^ 17 % 2 ^ 64) e, small2))) in
    (omega (arith, keeps3), bit_xor-lt 64 x2 (x2 * 2 ^ 17 % 2 ^ 64) small2 (omega arith))

-- The generator is seeded with a nonzero 64-bit state.
pub record IsSeeded (s : Security) : Type 0 where
  pub seeded : s.random.seeded ≡ true
  pub some_bit : 0 < s.random.state
  pub small : s.random.state < 2 ^ 64

-- A seeded generator answers a nonzero number every time, and stays seeded.
pub secure_random64-IsSeeded :
    (s : Security) → IsSeeded s → (0 < (secure_random64 s).0) × IsSeeded (secure_random64 s).1
unfolding secure_random64
secure_random64-IsSeeded s h =
    let (more, fewer) = xorshift-nonzero s.random.state h.some_bit h.small in
    rw (h.seeded) (more, record { seeded = refl; some_bit = more; small = fewer })

-- The mixing keeps a 64-bit value in 64 bits.
pub mix_security_entropy-lt : (value : ℕ) → value < 2 ^ 64 → mix_security_entropy value < 2 ^ 64
unfolding mix_security_entropy
mix_security_entropy-lt value small =
    let v1 : ℕ = bit_xor value (value / 2 ^ 33) in
    let v2 : ℕ = v1 * 0xFF51AFD7ED558CCD % 2 ^ 64 in
    let v3 : ℕ = bit_xor v2 (v2 / 2 ^ 33) in
    let v4 : ℕ = v3 * 0xC4CEB9FE1A85EC53 % 2 ^ 64 in
    bit_xor-lt 64 v4 (v4 / 2 ^ 33) (omega arith) (omega arith)

-- When `SeedSecureRandom` of a 64-bit seed answers true, the generator is seeded with a nonzero
-- 64-bit state.
pub seed_secure_random-IsSeeded :
    (seed : ℕ) (s : Security)
    → seed < 2 ^ 64
    → (seed_secure_random seed s).0 ≡ true
    → IsSeeded (seed_secure_random seed s).1
unfolding seed_secure_random
seed_secure_random-IsSeeded seed s small ok =
    by_if (λ (r : Bool × Security). r.0 ≡ true → IsSeeded r.1) (seed == 0) _ _ (λ z h. cc)
      (λ z h. record {
        seeded = h;
        some_bit = ground (arith, h);
        small = mix_security_entropy-lt seed small;
      })
      ok

-- A canary's terminator bytes keep it from being 0.
terminated : (word : ℕ) → HasBits word stack_canary_terminator → word ≢ 0
unfolding test_bit
terminated word bits e = ground (arith, zero-test_bit 41, rw e at (bits 41 refl))

-- A seeded generator gives every thread a canary with all bits of the terminator, which is not 0,
-- and after that `CheckStackCanary` accepts that canary and no other.
pub generate_stack_canary-HasBits :
    (thread_id : ℕ) (s : Security)
    → IsSeeded s
    → 0 < thread_id
    → let r = generate_stack_canary thread_id s in
      HasBits r.0 stack_canary_terminator
      × (r.0 ≢ 0)
      × ((observed : ℕ) → (check_stack_canary r.0 observed r.1 ≡ true) ↔ (observed ≡ r.0))
unfolding generate_stack_canary check_stack_canary
generate_stack_canary-HasBits thread_id s h some_thread =
    by_if
      (λ (r : ℕ × Security).
        HasBits r.0 stack_canary_terminator
        × (r.0 ≢ 0)
        × ((observed : ℕ) → (check_stack_canary r.0 observed r.1 ≡ true) ↔ (observed ≡ r.0)))
      ((secure_random64 s).0 == 0 || thread_id == 0) _ _
      (λ e. absurd (ground (arith, e, (secure_random64-IsSeeded s h).0)))
      (λ e.
        let bits : HasBits
            (bit_or (bit_xor (secure_random64 s).0 thread_id) stack_canary_terminator)
            stack_canary_terminator =
          bit_or-HasBits (bit_xor (secure_random64 s).0 thread_id) stack_canary_terminator in
        (
          bits,
          terminated _ bits,
          (λ observed. ((λ q. ground (arith, q)), (λ q. ground (arith, q)))),
        ))
