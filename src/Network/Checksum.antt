-- ===== src/Network/Checksum.antt =====
-- kernel/src/network.cpp: `Ipv4Checksum`.
use uefi_boot_system.Prelude.{
  ℕ, zero, suc, ◌+◌, ◌-◌, ◌*◌, ◌/◌, ◌%◌, ◌^◌, ◌≤◌, ◌<◌, ◌≡◌, List, [], ◌∷◌, if◌then◌else◌, ◌==◌,
  length, arith, All,
}

-- The loop over the 16-bit words, and the odd byte at the end as a high byte. The data is its
-- `size` bytes.
unfoldable pub sum_words : List ℕ → ℕ → ℕ
sum_words [] sum = sum
sum_words (a ∷ []) sum = (sum + a * 2 ^ 8 % 2 ^ 16) % 2 ^ 32
sum_words (a ∷ b ∷ rest) sum = sum_words rest ((sum + (a * 2 ^ 8 + b) % 2 ^ 16) % 2 ^ 32)

-- `while ((sum >> 16) != 0) sum = (sum & 0xFFFF) + (sum >> 16);`
unfoldable pub fold_carries : ℕ → ℕ → ℕ
fold_carries zero sum = sum
fold_carries (suc fuel) sum =
    let rest = fold_carries fuel ((sum % 2 ^ 16 + sum / 2 ^ 16) % 2 ^ 32) in
    if sum / 2 ^ 16 == 0 then sum else rest

-- Two rounds end the loop, which `fold_carries-ends` proves of every 32-bit sum.
unfoldable pub ipv4_checksum : List ℕ → ℕ
unfolding sum_words fold_carries
ipv4_checksum bytes_in = 65535 - fold_carries 2 (sum_words bytes_in 0) % 2 ^ 16

-- The sum of the words, without an end.
abbrev pub word_sum : List ℕ → ℕ
word_sum [] = 0
word_sum (a ∷ []) = a * 256
word_sum (a ∷ b ∷ rest) = a * 256 + b + word_sum rest

abbrev pub Bytes : List ℕ → Type 0
Bytes = All (λ b. b < 256)

sum_words-word_sum :
    (bytes_in : List ℕ) (sum : ℕ)
    → Bytes bytes_in
    → sum + 65536 * length bytes_in < 2 ^ 32
    → sum_words bytes_in sum ≡ sum + word_sum bytes_in
unfolding sum_words
sum_words-word_sum [] sum bytes room = omega arith
sum_words-word_sum (a ∷ []) sum (small, _) room = omega arith
sum_words-word_sum (a ∷ b ∷ rest) sum (small, (small_b, bytes)) room =
    let here : (sum + (a * 2 ^ 8 + b) % 2 ^ 16) % 2 ^ 32 ≡ sum + (a * 256 + b) = omega arith in
    rw here (omega (arith, sum_words-word_sum rest (sum + (a * 256 + b)) bytes (omega arith)))

word_sum_le : (bytes_in : List ℕ) → Bytes bytes_in → word_sum bytes_in ≤ 65536 * length bytes_in
word_sum_le [] bytes = omega arith
word_sum_le (a ∷ []) (small, _) = omega arith
word_sum_le (a ∷ b ∷ rest) (small, (small_b, bytes)) = omega (arith, word_sum_le rest bytes)

-- Two rounds leave 16 bits of a 32-bit sum, and each keeps the sum modulo 65535.
fold_carries-ends :
    (sum : ℕ)
    → sum < 2 ^ 32
    → (fold_carries 2 sum < 2 ^ 16) × (fold_carries 2 sum % 65535 ≡ sum % 65535)
unfolding fold_carries
fold_carries-ends sum small = (ground arith, ground arith)

-- For at most 65535 bytes the loop ends, and the checksum is the 16-bit word that brings the sum of
-- the words to a multiple of 65535.
pub ipv4_checksum-word_sum :
    (bytes_in : List ℕ)
    → Bytes bytes_in
    → length bytes_in ≤ 65535
    → (ipv4_checksum bytes_in < 2 ^ 16) × ((word_sum bytes_in + ipv4_checksum bytes_in) % 65535 ≡ 0)
unfolding ipv4_checksum
ipv4_checksum-word_sum bytes_in bytes few =
    let summed = sum_words-word_sum bytes_in 0 bytes (omega arith) in
    let (ends, same) =
      fold_carries-ends (sum_words bytes_in 0)
        (omega (arith, summed, word_sum_le bytes_in bytes)) in
    (omega arith, omega (arith, ends, same, summed))
