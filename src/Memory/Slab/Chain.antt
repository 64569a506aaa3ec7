-- ===== src/Memory/Slab/Chain.antt =====
-- SlabAllocator: the free list of a cache as a chain of distinct blocks.
use native.Mathlib.Nat.{mul_comm, mul-suc, zero-add}
use uefi_boot_system.Prelude.{
  ℕ, zero, suc, ◌+◌, ◌*◌, ◌≤◌, ◌<◌, ◌≡◌, ◌≢◌, refl, ap, sym, ◌∙◌, subst, List, [], ◌∷◌, arith,
  length, All,
}
use uefi_boot_system.Memory.Frames.{write}
use uefi_boot_system.Memory.Slab.{Links, chain_blocks}

-- The list at `head` runs through the blocks and ends with null.
abbrev pub Chain : Links → ℕ → List ℕ → Type 0
Chain links head [] = head ≡ 0
Chain links head (b ∷ bs) = (head ≡ b) × (0 < b) × Chain links (links b) bs

-- A write to the link of a block outside the list leaves the list.
pub Chain-write :
    (links : Links) (address v head : ℕ) (bs : List ℕ)
    → All (λ b. b ≢ address) bs
    → Chain links head bs
    → Chain (write links address v) head bs
Chain-write links address v head [] others c = c
Chain-write links address v head (b ∷ bs) (ne, others) (at, positive, c) =
    let kept : write links address v b ≡ links b = ground (arith, ne) in
    (at, positive, rw kept (Chain-write links address v (links b) bs others c))

-- Blocks `base`, `base + size`, ... with the last one first, `n` of them.
abbrev pub blocks : ℕ → ℕ → ℕ → List ℕ
blocks zero base size = []
blocks (suc n) base size = (base + n * size) ∷ blocks n base size

pub suc_times : (n size : ℕ) → suc n * size ≡ n * size + size
suc_times n size = mul_comm (suc n) size ∙ mul-suc size n ∙ ap (λ t. t + size) (mul_comm size n)

-- Every block of the list lies below a bound.
blocks_below :
    (n bound base size : ℕ)
    → base + n * size ≤ bound
    → 0 < size
    → All (λ b. b ≢ bound) (blocks n base size)
blocks_below zero bound base size low positive = tt
blocks_below (suc n) bound base size low positive = (
  λ e. omega (arith, suc_times n size, low, e, positive),
  blocks_below n bound base size (omega (arith, suc_times n size, low)) positive,
)

pub length-blocks : (n base size : ℕ) → length (blocks n base size) ≡ n
length-blocks zero base size = refl
length-blocks (suc n) base size = ap suc (length-blocks n base size)

-- The loop of `GrowCache` chains the blocks of the page, the last one first.
pub chain_blocks-Chain :
    (n i base size head : ℕ) (links : Links)
    → 0 < base
    → 0 < size
    → Chain links head (blocks i base size)
    → let r = chain_blocks n i base size head links in Chain r.1 r.0 (blocks (n + i) base size)
unfolding chain_blocks
chain_blocks-Chain zero i base size head links positive some_size c =
    subst (λ t. Chain links head (blocks t base size)) (sym (zero-add i)) c
chain_blocks-Chain (suc n) i base size head links positive some_size c =
    let next : n + suc i ≡ suc n + i = omega arith in
    let here : write links (base + i * size) head (base + i * size) ≡ head = ground arith in
    let more : Chain (write links (base + i * size) head) (base + i * size)
        (blocks (suc i) base size) =
      (
        refl,
        omega (arith, positive),
        rw here (
            Chain-write links (base + i * size) head head (blocks i base size)
              (blocks_below i (base + i * size) base size (omega arith) some_size) c),
      ) in
    let rest =
      chain_blocks n (suc i) base size (base + i * size) (write links (base + i * size) head) in
    subst (λ t. Chain rest.1 rest.0 (blocks t base size)) next
      (chain_blocks-Chain n (suc i) base size (base + i * size) (write links (base + i * size) head)
        positive some_size more)
