-- ===== src/Prelude/Bits.antt =====
-- The bits of machine words: what `&`, `|` and a test against a one-bit mask do to each bit.
use Prim.Native.Nat.{
  ℕ, zero, suc, ◌+◌, ◌-◌, ◌*◌, ◌/◌, ◌%◌, ◌^◌, ◌≤◌, ◌<◌, min, max, bit_and, bit_or, bit_xor, digits,
  differ, bit_and-bitwise, bit_or-bitwise, bit_xor-bitwise,
}
use mathlib.Core.Path.{◌≡◌, refl, sym, ap, ◌∙◌}
use mathlib.Core.Logic.{◌↔◌, inl, inr}
use mathlib.Core.Bool.{Bool, true, false, ◌&&◌, ◌||◌}
use native.Mathlib.Omega.{arith}
use native.Mathlib.Nat.{
  pow-suc, mod-eq-sub-mul-div, div-div-eq-div-mul, div-add-mod, mul_assoc, mul_comm, one-mul,
  div-one,
}
use uefi_boot_system.Prelude.Tests.{◌==◌, Bool-cases, if◌then◌else◌}

pub pow-pos : (k : ℕ) → 0 < 2 ^ k
pow-pos zero = omega arith
pow-pos (suc k) = omega (arith, pow-suc 2 k, pow-pos k)

-- What both native operations are: a recursion on the binary digits of two words, with more fuel
-- than digits.
module _ (tail : ℕ → ℕ) (join : ℕ → ℕ → ℕ) where
  digits_agree : (n m x y : ℕ) → (x ≤ n) × (x ≤ m) → digits tail join m x y ≡ digits tail join n x y
  digits_agree (suc n) (suc m) (suc x) y h =
      ap (λ t. t * 2 + join (suc x % 2) (y % 2))
        (digits_agree n m (suc x / 2) (y / 2) (omega arith, omega arith))
  digits_agree (suc n) (suc m) zero y h = refl
  digits_agree (suc n) zero zero y h = refl
  digits_agree zero (suc m) zero y h = refl
  digits_agree zero zero zero y h = refl
  digits_agree _ _ _ _ h = absurd (omega arith)

  -- An operation with this recursion works on the halves and on the lowest digits.
  halves :
      (op : ℕ → ℕ → ℕ)
      → ((x y : ℕ) → op x y ≡ digits tail join x x y)
      → ((y : ℕ) → tail y ≡ 2 * tail (y / 2) + join 0 (y % 2))
      → (x y : ℕ) → op x y ≡ 2 * op (x / 2) (y / 2) + join (x % 2) (y % 2)
  halves op law base zero y = omega (arith, law zero y, law zero (y / 2), base y)
  halves op law base (suc x) y =
      let fewer = digits_agree (suc x / 2) x (suc x / 2) (y / 2) (omega arith, omega arith) in
      omega (arith, law (suc x) y, law (suc x / 2) (y / 2), fewer)

bit_and-halves : (x y : ℕ) → bit_and x y ≡ 2 * bit_and (x / 2) (y / 2) + min (x % 2) (y % 2)
bit_and-halves = halves (λ y. zero) min bit_and bit_and-bitwise (λ y. omega arith)

bit_or-halves : (x y : ℕ) → bit_or x y ≡ 2 * bit_or (x / 2) (y / 2) + max (x % 2) (y % 2)
bit_or-halves = halves (λ y. y) max bit_or bit_or-bitwise (λ y. omega arith)

bit_xor-halves : (x y : ℕ) → bit_xor x y ≡ 2 * bit_xor (x / 2) (y / 2) + differ (x % 2) (y % 2)
bit_xor-halves = halves (λ y. y) differ bit_xor bit_xor-bitwise (λ y. omega arith)

differ_sound : (a b : ℕ) → differ a b ≡ 0 → a ≡ b
differ_sound zero b e = omega arith
differ_sound (suc a) zero e = absurd (omega arith)
differ_sound (suc a) (suc b) e = ap suc (differ_sound a b e)

differ_small : (a b : ℕ) → a < 2 → b < 2 → differ a b < 2
differ_small zero b low high = high
differ_small (suc zero) zero low high = omega arith
differ_small (suc zero) (suc zero) low high = omega arith
differ_small (suc zero) (suc (suc b)) low high = absurd (omega arith)
differ_small (suc (suc a)) b low high = absurd (omega arith)

bit_xor_fuel : (n x y : ℕ) → x + y ≤ n → bit_xor x y ≡ 0 → x ≡ y
bit_xor_fuel zero x y few e = omega arith
bit_xor_fuel (suc n) x y few e = elim (Bool-cases (x + y == 0)) [
  | inl both ↦ ground arith
  | inr more ↦
      let step = bit_xor-halves x y in
      let upper : x / 2 ≡ y / 2 =
        bit_xor_fuel n (x / 2) (y / 2) (ground arith) (omega (arith, step, e)) in
      let lower : x % 2 ≡ y % 2 = differ_sound (x % 2) (y % 2) (omega (arith, step, e)) in
      omega (arith, upper, lower)
]

-- Words whose exclusive or is 0 are the same.
pub bit_xor-zero : (x y : ℕ) → bit_xor x y ≡ 0 → x ≡ y
bit_xor-zero x y e = bit_xor_fuel (x + y) x y (omega arith) e

pub bit_xor-lt : (k x y : ℕ) → x < 2 ^ k → y < 2 ^ k → bit_xor x y < 2 ^ k
bit_xor-lt zero x y low high =
    let left : x ≡ 0 = omega arith in
    let right : y ≡ 0 = omega arith in rw (left, right) (omega arith)
bit_xor-lt (suc k) x y low high =
    let double = pow-suc 2 k in
    let upper = bit_xor-lt k (x / 2) (y / 2) (omega (arith, double)) (omega (arith, double)) in
    omega (
      arith,
      double,
      upper,
      bit_xor-halves x y,
      differ_small (x % 2) (y % 2) (omega arith) (omega arith),
    )

-- Bit `k` of a word.
unfoldable pub test_bit : ℕ → ℕ → Bool
test_bit a zero = a % 2 == 1
test_bit a (suc k) = test_bit (a / 2) k

pub test_bit-and : (k a b : ℕ) → test_bit (bit_and a b) k ≡ (test_bit a k && test_bit b k)
unfolding test_bit
test_bit-and zero a b = ground (arith, bit_and-halves a b)
test_bit-and (suc k) a b =
    let e : bit_and a b / 2 ≡ bit_and (a / 2) (b / 2) = omega (arith, bit_and-halves a b) in
    ground (arith, e, test_bit-and k (a / 2) (b / 2))

pub test_bit-or : (k a b : ℕ) → test_bit (bit_or a b) k ≡ (test_bit a k || test_bit b k)
unfolding test_bit
test_bit-or zero a b = ground (arith, bit_or-halves a b)
test_bit-or (suc k) a b =
    let e : bit_or a b / 2 ≡ bit_or (a / 2) (b / 2) = omega (arith, bit_or-halves a b) in
    ground (arith, e, test_bit-or k (a / 2) (b / 2))

pub zero-test_bit : (k : ℕ) → test_bit 0 k ≡ false
unfolding test_bit
zero-test_bit zero = refl
zero-test_bit (suc k) = zero-test_bit k

-- A one-bit mask has one bit.
pub test_bit-mask : (j k : ℕ) → test_bit (2 ^ j) k ≡ (j == k)
unfolding test_bit
test_bit-mask zero zero = refl
test_bit-mask zero (suc k) = ground (arith, zero-test_bit k)
test_bit-mask (suc j) zero = ground (arith, pow-suc 2 j)
test_bit-mask (suc j) (suc k) =
    let half : 2 ^ suc j / 2 ≡ 2 ^ j = omega (arith, pow-suc 2 j) in
    rw (half, test_bit-mask j k) (ground arith)

-- Words with the same bits are equal.
test_bit_ext_fuel : (n a b : ℕ) → a ≤ n → b ≤ n → ((k : ℕ) → test_bit a k ≡ test_bit b k) → a ≡ b
unfolding test_bit
test_bit_ext_fuel zero a b p q h = omega arith
test_bit_ext_fuel (suc n) a b p q h =
    let rest : a / 2 ≡ b / 2 =
      test_bit_ext_fuel n (a / 2) (b / 2) (omega arith) (omega arith) (λ k. h (suc k)) in
    ground (arith, rest, h 0)

pub test_bit_ext : (a b : ℕ) → ((k : ℕ) → test_bit a k ≡ test_bit b k) → a ≡ b
test_bit_ext a b h = test_bit_ext_fuel (a + b) a b (omega arith) (omega arith) h

pub bit_and-zero : (word : ℕ) → bit_and word 0 ≡ 0
bit_and-zero word = test_bit_ext _ _ λ k. ground (arith, test_bit-and k word 0, zero-test_bit k)

-- `word & (1 << k)` is the mask or zero, by bit `k` of the word.
pub bit_and_mask : (k a : ℕ) → bit_and a (2 ^ k) ≡ (if test_bit a k then 2 ^ k else 0)
unfolding test_bit
bit_and_mask zero a = ground (arith, bit_and-halves a 1, bit_and-zero (a / 2))
bit_and_mask (suc k) a =
    let half : 2 ^ suc k / 2 ≡ 2 ^ k = omega (arith, pow-suc 2 k) in
    let even : 2 ^ suc k % 2 ≡ 0 = omega (arith, pow-suc 2 k) in
    let step : bit_and a (2 ^ suc k) ≡ bit_and (a / 2) (2 ^ k) * 2 =
      rw (bit_and-halves a (2 ^ suc k), half) (omega (arith, even)) in
    rw (step, bit_and_mask k (a / 2)) (twice (test_bit (a / 2) k))
  where
    twice : (b : Bool) → (if b then 2 ^ k else 0) * 2 ≡ (if b then 2 ^ suc k else 0)
    twice true = omega (arith, pow-suc 2 k)
    twice false = refl

-- The test `(word & mask) == mask` asks for every bit of the mask.
abbrev pub HasBits : ℕ → ℕ → Type 0
HasBits word mask = (k : ℕ) → test_bit mask k ≡ true → test_bit word k ≡ true

pub bit_and-HasBits : (word mask : ℕ) → (bit_and word mask ≡ mask) ↔ HasBits word mask
bit_and-HasBits word mask = (
  λ e k h.
      both (test_bit word k) (test_bit mask k)
        (sym (test_bit-and k word mask) ∙ ap (λ w. test_bit w k) e) h,
  λ h.
      test_bit_ext _ _
        λ k. test_bit-and k word mask ∙ absorb (test_bit word k) (test_bit mask k) (h k),
)
  where
    both : (x y : Bool) → (x && y) ≡ y → y ≡ true → x ≡ true
    both x y e h = ground arith

    absorb : (x y : Bool) → (y ≡ true → x ≡ true) → (x && y) ≡ y
    absorb x y h = ground arith

mod-double : (a m : ℕ) → a % (2 * m) ≡ a / 2 % m * 2 + a % 2
mod-double a m =
    rw (mod-eq-sub-mul-div a (2 * m), ← div-div-eq-div-mul a 2 m)
      (omega (arith, div-add-mod (a / 2) m, mul_assoc 2 m (a / 2 / m)))

-- `word & ((1 << k) - 1)` is the remainder.
pub bit_and_low : (k a : ℕ) → bit_and a (2 ^ k - 1) ≡ a % 2 ^ k
bit_and_low zero a = omega (arith, bit_and-zero a)
bit_and_low (suc k) a =
    let double : 2 ^ suc k ≡ 2 * 2 ^ k = omega (arith, pow-suc 2 k) in
    let positive : 0 < 2 ^ k = pow-pos k in
    let half : (2 ^ suc k - 1) / 2 ≡ 2 ^ k - 1 = omega (arith, double, positive) in
    let odd : (2 ^ suc k - 1) % 2 ≡ 1 = omega (arith, double, positive) in
    let step : bit_and a (2 ^ suc k - 1) ≡ bit_and (a / 2) (2 ^ k - 1) * 2 + a % 2 =
      rw (bit_and-halves a (2 ^ suc k - 1), half) (omega (arith, odd)) in
    rw (step, bit_and_low k (a / 2), double) (sym (mod-double a (2 ^ k)))

-- A mask with `k` zeros at its low end.
pub bit_and_shift : (k a b : ℕ) → bit_and a (2 ^ k * b) ≡ 2 ^ k * bit_and (a / 2 ^ k) b
bit_and_shift zero a b = rw (one-mul b, div-one a, one-mul) refl
bit_and_shift (suc k) a b =
    let double : 2 ^ suc k * b ≡ 2 * (2 ^ k * b) =
      rw (pow-suc 2 k, mul_comm (2 ^ k) 2) (mul_assoc 2 (2 ^ k) b) in
    let half : 2 * (2 ^ k * b) / 2 ≡ 2 ^ k * b = omega arith in
    let shift : a / 2 / 2 ^ k ≡ a / 2 ^ suc k =
      rw (pow-suc 2 k, mul_comm (2 ^ k) 2) (div-div-eq-div-mul a 2 (2 ^ k)) in
    rw (double, bit_and-halves a (2 * (2 ^ k * b)), half, bit_and_shift k (a / 2) b, shift)
      (rw (pow-suc 2 k, mul_comm (2 ^ k) 2, mul_assoc 2 (2 ^ k) (bit_and (a / (2 * 2 ^ k)) b))
        (omega arith))

or_right : (a b : Bool) → b ≡ true → (a || b) ≡ true
or_right true b e = refl
or_right false b e = e

-- A mask's bits are there after `|`.
pub bit_or-HasBits : (word mask : ℕ) → HasBits (bit_or word mask) mask
bit_or-HasBits word mask k e =
    test_bit-or k word mask ∙ or_right (test_bit word k) (test_bit mask k) e

pub bit_or-zero : (a : ℕ) → bit_or a 0 ≡ a
bit_or-zero a = test_bit_ext _ _ λ k. ground (arith, test_bit-or k a 0, zero-test_bit k)

-- Setting bits below a multiple of a power of two adds them.
pub bit_or_low : (k c b : ℕ) → b < 2 ^ k → bit_or (2 ^ k * c) b ≡ 2 ^ k * c + b
bit_or_low zero c b small =
    let none_set : b ≡ 0 = omega arith in rw none_set (bit_or-zero (2 ^ 0 * c) ∙ omega arith)
bit_or_low (suc k) c b small =
    let twice = pow-suc 2 k in
    let double : 2 ^ suc k * c ≡ 2 * (2 ^ k * c) =
      rw (twice, mul_comm (2 ^ k) 2, mul_assoc 2 (2 ^ k) c) refl in
    let half : 2 ^ suc k * c / 2 ≡ 2 ^ k * c = omega (arith, double) in
    let rest : bit_or (2 ^ suc k * c / 2) (b / 2) ≡ 2 ^ k * c + b / 2 =
      rw half (bit_or_low k c (b / 2) (omega (arith, twice))) in
    omega (arith, bit_or-halves (2 ^ suc k * c) b, rest, double)
