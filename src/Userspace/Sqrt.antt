-- ===== src/Userspace/Sqrt.antt =====
-- `SdkLibmSqrt`: the loop ends, with the integer square root.
use native.Mathlib.Nat.{mul-le-mul_left, mul_comm, mod-eq_of_lt}
use uefi_boot_system.Prelude.{
  ℕ, zero, suc, ◌+◌, ◌-◌, ◌*◌, ◌%◌, ◌^◌, ◌≤◌, ◌<◌, ◌≡◌, refl, some, leb, arith, leb→le, Bool-cases,
  inl, inr,
}
use uefi_boot_system.Userspace.Libc.{sqrt_loop, sdk_libm_sqrt}

-- The root is the greatest number whose square is not above the value.
abbrev pub IsRoot : ℕ → ℕ → Type 0
IsRoot value r = (r * r ≤ value) × (value < (r + 1) * (r + 1))

square_mono : (a b : ℕ) → a ≤ b → a * a ≤ b * b
square_mono a b h =
    let left : a * a ≤ a * b = mul-le-mul_left a h in
    let right : b * a ≤ b * b = mul-le-mul_left b h in omega (arith, left, right, mul_comm a b)

sqrt_loop-IsRoot :
    (fuel result value : ℕ)
    → value < (2 ^ 32 - 1) * (2 ^ 32 - 1)
    → result * result ≤ value
    → 2 ^ 32 ≤ result + fuel
    → (r : ℕ) × (sqrt_loop fuel result value ≡ some r) × IsRoot value r
unfolding sqrt_loop
sqrt_loop-IsRoot zero result value small low enough =
    absurd (omega (arith, square_mono (2 ^ 32 - 1) result (omega arith), low, small))
sqrt_loop-IsRoot (suc fuel) result value small low enough =
    let below : result < 2 ^ 32 - 1 = elim (Bool-cases (leb (2 ^ 32 - 1) result)) [
      | inl e ↦ absurd (omega (arith, square_mono (2 ^ 32 - 1) result (leb→le _ _ e), low, small))
      | inr e ↦ ground (arith, e)
    ] in
    let plain : (result + 1) % 2 ^ 64 ≡ result + 1 = omega (arith, below) in
    let bound : (result + 1) * (result + 1) ≤ (2 ^ 32 - 1) * (2 ^ 32 - 1) =
      square_mono (result + 1) (2 ^ 32 - 1) (omega (arith, below)) in
    let square : (result + 1) * (result + 1) % 2 ^ 64 ≡ (result + 1) * (result + 1) =
      mod-eq_of_lt (omega (arith, bound)) in
    rw (plain, square)
      (elim (Bool-cases (leb ((result + 1) * (result + 1)) value)) [
        | inl e ↦
            rw e (
              sqrt_loop-IsRoot fuel (result + 1) value small (leb→le _ _ e) (omega (arith, enough)))
        | inr e ↦ rw e (result, refl, (low, ground (arith, e)))
      ])

-- For a value below the square of 2 to the 32 less 1, 2 to the 32 rounds are enough for the loop of
-- `SdkLibmSqrt`, and it answers the integer square root.
pub sdk_libm_sqrt-IsRoot :
    (value : ℕ)
    → value < (2 ^ 32 - 1) * (2 ^ 32 - 1)
    → (r : ℕ) × (sdk_libm_sqrt (2 ^ 32) value ≡ some r) × IsRoot value r
unfolding sdk_libm_sqrt
sdk_libm_sqrt-IsRoot value small =
    sqrt_loop-IsRoot (2 ^ 32) 0 value small (omega arith) (omega arith)
