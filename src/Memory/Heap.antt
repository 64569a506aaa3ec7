-- ===== src/Memory/Heap.antt =====
-- kernel/src/kernel.cpp: KernelHeap, the heap behind KernelAllocate, whose blocks are never freed.
pub mod Tests
use native.Mathlib.Nat.{
  mul-suc, mul_assoc, mul_comm, pow-suc, mod-lt, mod-eq_of_lt, div-lt_iff_lt-mul, mul-mod_left,
  mul-le-mul_left,
}
use native.Mathlib.Omega.{div_any}
use uefi_boot_system.Prelude.{
  ℕ, zero, suc, ◌+◌, ◌-◌, ◌*◌, ◌/◌, ◌%◌, ◌^◌, ◌≤◌, ◌<◌, ◌≡◌, ◌⊎◌, inl, inr, refl, sym, ap, ◌∙◌,
  subst, Bool, true, false, ◌||◌, if◌then◌else◌, ltb, ◌==◌, bit_and, arith, Bool-cases,
}
use uefi_boot_system.Prelude.Bits.{pow-pos, bit_and_shift, bit_and_low}
use uefi_boot_system.Prelude.Cases.{by_if}
use uefi_boot_system.Memory.Pmm.{
  PhysicalMemory, align_down, align_up, page_size, allocate_contiguous,
}

pub record KernelHeap : Type 0 where
  pub start : ℕ
  pub current : ℕ
  pub finish : ℕ

abbrev pub heap_initial_pages : ℕ
heap_initial_pages = 128

-- Whether the pages were there, the heap, and the page manager afterwards.
unfoldable pub heap_init : KernelHeap → PhysicalMemory → Bool × KernelHeap × PhysicalMemory
heap_init before p =
    let (base, after) = allocate_contiguous heap_initial_pages p in
    if base == 0 then (false, before, after) else (
      true,
      record {
        start = base;
        current = base;
        finish = (base + heap_initial_pages * page_size) % 2 ^ 64;
      },
      after,
    )

-- The address, 0 for null, and the heap afterwards.
unfoldable pub heap_allocate : ℕ → ℕ → KernelHeap → ℕ × KernelHeap
heap_allocate size alignment h =
    let aligned = align_up h.current alignment in
    if size == 0 || alignment == 0
    then (0, h)
    else if ltb h.finish ((aligned + size) % 2 ^ 64)
    then (0, h)
    else (aligned, record h { current = (aligned + size) % 2 ^ 64 })

pub heap_capacity : KernelHeap → ℕ
heap_capacity h = (h.finish + 2 ^ 64 - h.start) % 2 ^ 64

pub heap_used : KernelHeap → ℕ
heap_used h = (h.current + 2 ^ 64 - h.start) % 2 ^ 64

pub record IsHeap (h : KernelHeap) : Type 0 where
  pub used : h.start ≤ h.current
  pub inside : h.current ≤ h.finish

pow-add : (k m : ℕ) → 2 ^ (k + m) ≡ 2 ^ k * 2 ^ m
pow-add zero m = let same : 0 + m ≡ m = omega arith in rw same (omega arith)
pow-add (suc k) m =
    let next : suc k + m ≡ suc (k + m) = omega arith in
    rw
      (
        next,
        pow-suc 2 (k + m),
        pow-suc 2 k,
        pow-add k m,
        mul_assoc (2 ^ k) (2 ^ m) 2,
        mul_comm (2 ^ m) 2,
        mul_assoc (2 ^ k) 2 (2 ^ m),
      )
      refl

module _ (k m : ℕ) (width : k + m ≡ 64) where
  total : 2 ^ 64 ≡ 2 ^ k * 2 ^ m
  total = ap (λ t. 2 ^ t) (sym width) ∙ pow-add k m

  -- The mask of a power of two rounds down to a multiple of it.
  align_down_lem : (v : ℕ) → v < 2 ^ 64 → align_down v (2 ^ k) ≡ v / 2 ^ k * 2 ^ k
  unfolding align_down
  align_down_lem v small =
      let u : ℕ = 2 ^ m - 1 in
      let more : 2 ^ m ≡ suc u = omega (arith, pow-pos m) in
      let spread : 2 ^ k * 2 ^ m ≡ 2 ^ k * u + 2 ^ k =
        ap (λ t. 2 ^ k * t) more ∙ mul-suc (2 ^ k) u in
      let mask : 2 ^ 64 - 1 - (2 ^ k - 1) ≡ 2 ^ k * u = omega (arith, total, spread, pow-pos k) in
      let few : v / 2 ^ k < 2 ^ m =
        (div-lt_iff_lt-mul (pow-pos k)).1 (omega (arith, total, mul_comm (2 ^ k) (2 ^ m))) in
      rw (mask, bit_and_shift k v u, bit_and_low m (v / 2 ^ k), mod-eq_of_lt few)
        (mul_comm (2 ^ k) (v / 2 ^ k))

  -- The multiple of a unit less than one unit above a number is the first one from it on.
  first_multiple :
      (start up a : ℕ) → up % 2 ^ k ≡ 0 → up < start + 2 ^ k → a % 2 ^ k ≡ 0 → start ≤ a → up ≤ a
  first_multiple start up a even near even_a above = elim (Bool-cases (ltb a up)) [
    | inr e ↦ ground (arith, e)
    | inl e ↦
        let whole_a = div_any a (2 ^ k) in
        let whole = div_any up (2 ^ k) in
        let more : 2 ^ k * suc (a / 2 ^ k) ≡ 2 ^ k * (a / 2 ^ k) + 2 ^ k =
          mul-suc (2 ^ k) (a / 2 ^ k) in
        absurd (elim (Bool-cases (ltb (a / 2 ^ k) (up / 2 ^ k))) [
          | inl less ↦
              let grows : 2 ^ k * suc (a / 2 ^ k) ≤ 2 ^ k * (up / 2 ^ k) =
                mul-le-mul_left (2 ^ k) (ground (arith, less)) in
              ground (arith, e, grows, more, whole_a, whole, even, even_a, near, above)
          | inr less ↦
              let grows : 2 ^ k * (up / 2 ^ k) ≤ 2 ^ k * (a / 2 ^ k) =
                mul-le-mul_left (2 ^ k) (ground (arith, less)) in
              ground (arith, e, grows, whole_a, whole, even, even_a)
        ])
  ]

  -- What an allocation does: it fails and changes nothing, where no aligned block fits, or it gives a block that is aligned,
  -- starts at or after the current end, fits in the heap, and becomes the new end.
  abbrev pub Allocates : ℕ → KernelHeap → ℕ × KernelHeap → Type 0
  Allocates size h r =
      ((r.0 ≡ 0) × (r.1 ≡ h) × ((a : ℕ) → a % 2 ^ k ≡ 0 → h.current ≤ a → h.finish < a + size))
      ⊎ ((r.0 % 2 ^ k ≡ 0)
          × (h.current ≤ r.0)
          × (r.0 + size ≤ h.finish)
          × (r.1 ≡ record h { current = r.0 + size })
          × IsHeap r.1)

  -- With an alignment that is a power of two, a size that is not 0, and the end of the heap, the
  -- alignment and the size together below 2 to the 64, `Allocate` on a heap whose bounds are in order
  -- does what `Allocates` says, whether it succeeds or fails.
  heap_allocate-Allocates :
      (size : ℕ) (h : KernelHeap)
      → IsHeap h
      → 0 < size
      → h.finish + 2 ^ k + size < 2 ^ 64
      → Allocates size h (heap_allocate size (2 ^ k) h)
  unfolding heap_allocate align_up
  heap_allocate-Allocates size h heap some_size room =
      by_if (Allocates size h) (size == 0 || 2 ^ k == 0) _ _
        (λ e. absurd (ground (arith, e, pow-pos k, some_size)))
        (λ e.
          by_if (Allocates size h) (ltb h.finish ((align_up h.current (2 ^ k) + size) % 2 ^ 64)) _ _
            (λ l.
              let (even, low, high) = rounded in
              inl (
                refl,
                refl,
                (λ a even_a above. ground (
                  arith,
                  l,
                  first_multiple h.current (align_up h.current (2 ^ k)) a even high even_a above,
                  room,
                  high,
                  heap.inside,
                )),
              ))
            (λ l.
              let (even, low, high) = rounded in
              let sum : (align_up h.current (2 ^ k) + size) % 2 ^ 64
                  ≡ align_up h.current (2 ^ k) + size =
                omega (arith, high, room, heap.inside) in
              let fits : align_up h.current (2 ^ k) + size ≤ h.finish = ground (arith, sum, l) in
              inr (
                even,
                low,
                fits,
                ap (λ t. record h { current = t }) sum,
                record {
                  used = omega (arith, sum, low, heap.used);
                  inside = omega (arith, sum, fits);
                },
              )))
    where
      rounded :
          (align_up h.current (2 ^ k) % 2 ^ k ≡ 0)
          × (h.current ≤ align_up h.current (2 ^ k))
          × (align_up h.current (2 ^ k) < h.current + 2 ^ k)
      rounded =
          let v : ℕ = h.current + 2 ^ k - 1 in
          let some_unit = pow-pos k in
          let plain : (h.current + 2 ^ k + 2 ^ 64 - 1) % 2 ^ 64 ≡ v =
            omega (arith, some_unit, heap.inside, room) in
          let up : align_up h.current (2 ^ k) ≡ v / 2 ^ k * 2 ^ k =
            ap (λ t. align_down t (2 ^ k)) plain
            ∙ align_down_lem v (omega (arith, heap.inside, room)) in
          let whole = div_any v (2 ^ k) in
          let left = mod-lt v some_unit in
          let turn = mul_comm (2 ^ k) (v / 2 ^ k) in
          (
            ap (λ t. t % 2 ^ k) up ∙ mul-mod_left (v / 2 ^ k) (2 ^ k),
            omega (arith, up, whole, left, turn, some_unit),
            omega (arith, up, whole, left, turn, some_unit),
          )
