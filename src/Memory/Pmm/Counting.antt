-- ===== src/Memory/Pmm/Counting.antt =====
-- The number of free pages, as a set of pages changes.
use uefi_boot_system.Prelude.{
  ℕ, zero, suc, ◌+◌, ◌≤◌, ◌<◌, ◌≡◌, refl, Bool, true, false, ◌&&◌, if◌then◌else◌, ltb, leb, ◌==◌,
  arith, inl, inr, Bool-cases, ==_iff, dec_lt,
}

-- Every page of `[start, end)` is free.
abbrev pub AllFree : (ℕ → Bool) → ℕ → ℕ → Type 0
AllFree free start end = (q : ℕ) → start ≤ q → q < end → free q ≡ true

-- How many of the first `n` pages are free.
pub count_free : (ℕ → Bool) → ℕ → ℕ
count_free free zero = 0
count_free free (suc n) = (if free n then 1 else 0) + count_free free n

-- Counting, one page changed.
pub count_free_ext :
    (f g : ℕ → Bool) (n : ℕ) → ((q : ℕ) → q < n → f q ≡ g q) → count_free f n ≡ count_free g n
unfolding count_free
count_free_ext f g zero h = refl
count_free_ext f g (suc n) h =
    ground (arith, h n (omega arith), count_free_ext f g n (λ q lt. h q (omega arith)))

pub count_free-le : (f : ℕ → Bool) (n : ℕ) → count_free f n ≤ n
unfolding count_free
count_free-le f zero = omega arith
count_free-le f (suc n) = ground (arith, count_free-le f n)

abbrev pub weight : Bool → ℕ
weight true = 1
weight false = 0

pub count_free_change :
    (f g : ℕ → Bool) (page : ℕ) (b : Bool) (n : ℕ)
    → ((q : ℕ) → g q ≡ (if page == q then b else f q))
    → page < n
    → count_free g n + weight (f page) ≡ count_free f n + weight b
unfolding count_free
count_free_change f g page b zero h lt = absurd (omega arith)
count_free_change f g page b (suc n) h lt = elim (Bool-cases (page == n)) [
  | inl e ↦ ground (arith, h n, count_free_ext g f n (λ q less. ground (arith, h q)))
  | inr e ↦ ground (arith, h n, count_free_change f g page b n h)
]

-- A free page is counted, and a used one leaves room.
pub count_free_room :
    (f : ℕ → Bool) (page n : ℕ)
    → page < n
    → (weight (f page) ≤ count_free f n) × (count_free f n < n + weight (f page))
unfolding count_free
count_free_room f page zero lt = absurd (omega arith)
count_free_room f page (suc n) lt = elim (Bool-cases (page == n)) [
  | inl e ↦ let here : page ≡ n = (==_iff page n).0 e in rw here (ground (arith, count_free-le f n))
  | inr e ↦ ground (arith, count_free_room f page n)
]

-- A run of free pages is counted.
pub count_free_run :
    (f : ℕ → Bool) (s count n : ℕ)
    → s + count ≤ n
    → AllFree f s (s + count)
    → count ≤ count_free f n
unfolding count_free
count_free_run f s count zero h c = omega arith
count_free_run f s zero (suc n) h c = omega arith
count_free_run f s (suc count) (suc n) h c = elim (dec_lt (s + count) n) [
  | yes lt ↦ ground (arith, count_free_run f s (suc count) n (omega arith) c)
  | no ge ↦
      let last : s + count ≡ n = omega arith in
      let free_last : f n ≡ true = c n (omega arith) (omega arith) in
      let rest : count ≤ count_free f n =
        count_free_run f s count n (omega arith) (λ q lo hi. c q lo (omega arith)) in
      ground (arith, free_last, rest)
]

-- Taking a run of free pages lowers the count by its length.
pub count_free_taken :
    (f g : ℕ → Bool) (s count n : ℕ)
    → s + count ≤ n
    → AllFree f s (s + count)
    → ((q : ℕ) → q < n → g q ≡ (if leb s q && ltb q (s + count) then false else f q))
    → count_free g n + count ≡ count_free f n
unfolding count_free
count_free_taken f g s count zero h c change = omega arith
count_free_taken f g s zero (suc n) h c change = ground (
  arith,
  count_free_ext g f n (λ q lt. ground (arith, change q (omega arith))),
  change n (omega arith),
)
count_free_taken f g s (suc count) (suc n) h c change = elim (dec_lt (s + count) n) [
  | yes lt ↦ ground (
    arith,
    change n (omega arith),
    count_free_taken f g s (suc count) n (omega arith) c (λ q less. change q (omega arith)),
  )
  | no ge ↦
      let last : s + count ≡ n = omega arith in
      let free_last : f n ≡ true = c n (omega arith) (omega arith) in
      let rest : count_free g n + count ≡ count_free f n =
        count_free_taken f g s count n (omega arith) (λ q lo hi. c q lo (omega arith))
          (λ q less. ground (arith, change q (omega arith))) in
      ground (arith, free_last, rest, change n (omega arith))
]

pub count_free-false : (f : ℕ → Bool) (n : ℕ) → ((q : ℕ) → f q ≡ false) → count_free f n ≡ 0
unfolding count_free
count_free-false f zero h = refl
count_free-false f (suc n) h = ground (arith, h n, count_free-false f n h)
