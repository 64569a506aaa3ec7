-- ===== src/Memory/Pmm/Search.antt =====
-- The scan of `AllocateAligned`: it finds the first aligned run of free pages, if there is one.
use uefi_boot_system.Prelude.{
  ℕ, zero, suc, ◌+◌, ◌-◌, ◌≤◌, ◌<◌, ◌≡◌, ◌≢◌, refl, sym, ◌∙◌, Bool, true, false, some, ◌==◌, arith,
  dec_lt, inl, inr, ◌⊎◌, Bool-cases, bit_and,
}
use uefi_boot_system.Memory.Pmm.{find_run}
use uefi_boot_system.Memory.Pmm.Counting.{AllFree}

abbrev pub IsAligned : ℕ → ℕ → Type 0
IsAligned alignment page = bit_and page (alignment - 1) ≡ 0

module _ (free : ℕ → Bool) (count alignment : ℕ) where
  -- The run so far: `run_length` free pages that end at `page`.
  record Run (page run_start run_length : ℕ) : Type 0 where
    ends : run_length ≢ 0 → run_start + run_length ≡ page
    aligned : run_length ≢ 0 → IsAligned alignment run_start
    clear : run_length ≢ 0 → AllFree free run_start page

  -- A run that the search may return, within the first `end` pages.
  pub record Fits (end start : ℕ) : Type 0 where
    pub inside : start + count ≤ end
    pub aligned : IsAligned alignment start
    pub clear : AllFree free start (start + count)

  -- What one page does to the scan.
  data Visit (n page rs rl : ℕ) : Type 0 where
    broken :
        free page ≡ false
        → find_run free count alignment (suc n) page rs rl
          ≡ find_run free count alignment n (page + 1) rs 0
        → Visit n page rs rl
    skipped :
        rl ≡ 0
        → bit_and page (alignment - 1) ≢ 0
        → find_run free count alignment (suc n) page rs rl
          ≡ find_run free count alignment n (page + 1) rs rl
        → Visit n page rs rl
    done :
        (start : ℕ)
        → free page ≡ true
        → ((rl ≡ 0) × (start ≡ page) × IsAligned alignment page) ⊎ ((rl ≢ 0) × (start ≡ rs))
        → rl + 1 ≡ count
        → find_run free count alignment (suc n) page rs rl ≡ some start
        → Visit n page rs rl
    longer :
        (start : ℕ)
        → free page ≡ true
        → ((rl ≡ 0) × (start ≡ page) × IsAligned alignment page) ⊎ ((rl ≢ 0) × (start ≡ rs))
        → rl + 1 ≢ count
        → find_run free count alignment (suc n) page rs rl
          ≡ find_run free count alignment n (page + 1) start (rl + 1)
        → Visit n page rs rl

  visit : (n page rs rl : ℕ) → Visit n page rs rl
  unfolding find_run
  visit n page rs rl = elim (Bool-cases (free page)) [
    | inr e ↦ broken e (ground arith)
    | inl e ↦ elim (Bool-cases (rl == 0)) [
      | inl z ↦ elim (Bool-cases (bit_and page (alignment - 1) == 0)) [
        | inr m ↦ skipped (ground arith) (ground arith) (ground arith)
        | inl a ↦ elim (Bool-cases (rl + 1 == count)) [
          | inl c ↦ done page e (inl (ground arith)) (ground arith) (ground arith)
          | inr c ↦ longer page e (inl (ground arith)) (ground arith) (ground arith)
        ]
      ]
      | inr z ↦ elim (Bool-cases (rl + 1 == count)) [
        | inl c ↦ done rs e (inr (ground arith)) (ground arith) (ground arith)
        | inr c ↦ longer rs e (inr (ground arith)) (ground arith) (ground arith)
      ]
    ]
  ]

  no-Run : (page rs : ℕ) → Run page rs 0
  no-Run page rs = record {
    ends = λ z. absurd (z refl);
    aligned = λ z. absurd (z refl);
    clear = λ z. absurd (z refl);
  }

  extend :
      (page rs rl start : ℕ)
      → free page ≡ true
      → Run page rs rl
      → ((rl ≡ 0) × (start ≡ page) × IsAligned alignment page) ⊎ ((rl ≢ 0) × (start ≡ rs))
      → Run (page + 1) start (rl + 1)
  extend page rs rl start e r (inl (z, s, a)) = record {
    ends = λ _. omega arith;
    aligned = λ _. rw s a;
    clear = λ _ q lo hi. let here : q ≡ page = omega arith in rw here e;
  }
  extend page rs rl start e r (inr (z, s)) = record {
    ends = λ _. omega (arith, r.ends z);
    aligned = λ _. rw s (r.aligned z);
    clear = λ _ q lo hi. elim (Bool-cases (q == page)) [
      | inl h ↦ let here : q ≡ page = ground arith in rw here e
      | inr h ↦ r.clear z q (omega arith) (ground arith)
    ];
  }

  -- A run that is returned fits.
  find_run-Fits :
      (n page rs rl end s : ℕ)
      → page + n ≡ end
      → Run page rs rl
      → find_run free count alignment n page rs rl ≡ some s
      → Fits end s
  unfolding find_run
  find_run-Fits zero page rs rl end s e r h = cc
  find_run-Fits (suc n) page rs rl end s e r h = elim (visit n page rs rl) [
    | broken b eq ↦
        find_run-Fits n (page + 1) rs 0 end s (omega arith) (no-Run (page + 1) rs) (sym eq ∙ h)
    | skipped z m eq ↦
        find_run-Fits n (page + 1) rs rl end s (omega arith) (rw z (no-Run (page + 1) rs))
          (sym eq ∙ h)
    | done start f how full eq ↦
        let run = extend page rs rl start f r how in
        let same : s ≡ start = ground arith in
        rw same (record {
          inside = omega (arith, run.ends (omega arith));
          aligned = run.aligned (omega arith);
          clear = λ q lo hi. run.clear (omega arith) q lo (omega (arith, run.ends (omega arith)));
        })
    | longer start f how more eq ↦
        find_run-Fits n (page + 1) start (rl + 1) end s (omega arith)
          (extend page rs rl start f r how) (sym eq ∙ h)
  ]

  start-le :
      (page rs rl start s : ℕ)
      → Run page rs rl
      → ((rl ≡ 0) × (start ≡ page) × IsAligned alignment page) ⊎ ((rl ≢ 0) × (start ≡ rs))
      → (page ≤ s) ⊎ ((rl ≢ 0) × (rs ≤ s))
      → start ≤ s
  start-le page rs rl start s r (inl h) (inl k) = omega arith
  start-le page rs rl start s r (inl h) (inr k) = absurd (k.0 h.0)
  start-le page rs rl start s r (inr h) (inl k) = omega (arith, r.ends h.0)
  start-le page rs rl start s r (inr h) (inr k) = omega arith

  past :
      (page rs rl end s : ℕ)
      → free page ≡ false
      → rl < count
      → Run page rs rl
      → Fits end s
      → (page ≤ s) ⊎ ((rl ≢ 0) × (rs ≤ s))
      → page + 1 ≤ s
  past page rs rl end s b short r fit at = elim (dec_lt page s) [
    | yes h ↦ omega arith
    | no h ↦ ground (arith, fit.clear page (omega arith) (below at))
  ]
    where
      below : (page ≤ s) ⊎ ((rl ≢ 0) × (rs ≤ s)) → page < s + count
      below (inl k) = omega arith
      below (inr k) = omega (arith, r.ends k.0)

  find_run_first :
      (n page rs rl end s : ℕ)
      → page + n ≡ end
      → rl < count
      → Run page rs rl
      → Fits end s
      → (page ≤ s) ⊎ ((rl ≢ 0) × (rs ≤ s))
      → (first : ℕ) × (find_run free count alignment n page rs rl ≡ some first) × (first ≤ s)
  find_run_first zero page rs rl end s e short r fit (inl k) = absurd (omega (arith, fit.inside))
  find_run_first zero page rs rl end s e short r fit (inr k) =
      absurd (omega (arith, fit.inside, r.ends k.0))
  find_run_first (suc n) page rs rl end s e short r fit at = elim (visit n page rs rl) [
    | broken b eq ↦
        let later = past page rs rl end s b short r fit at in
        rw eq (
          find_run_first n (page + 1) rs 0 end s (omega arith) (omega arith) (no-Run (page + 1) rs)
            fit (inl later))
    | skipped z m eq ↦ rw eq (
        find_run_first n (page + 1) rs rl end s (omega arith) short (rw z (no-Run (page + 1) rs))
          fit (inl (unaligned z m at)))
    | done start f how full eq ↦ (start, eq, start-le page rs rl start s r how at)
    | longer start f how more eq ↦ rw eq (
        find_run_first n (page + 1) start (rl + 1) end s (omega arith) (omega arith)
          (extend page rs rl start f r how) fit
          (inr (omega arith, start-le page rs rl start s r how at)))
  ]
    where
      unaligned :
          rl ≡ 0
          → bit_and page (alignment - 1) ≢ 0
          → (page ≤ s) ⊎ ((rl ≢ 0) × (rs ≤ s))
          → page + 1 ≤ s
      unaligned z m (inr k) = absurd (k.0 z)
      unaligned z m (inl k) = elim (Bool-cases (page == s)) [
        | inl h ↦ let here : page ≡ s = ground arith in absurd (m (rw here fit.aligned))
        | inr h ↦ ground arith
      ]

  -- What the scan of the first `end` pages returns is an aligned run of free pages among them.
  pub find_run_sound : (end s : ℕ) → find_run free count alignment end 0 0 0 ≡ some s → Fits end s
  find_run_sound end s h = find_run-Fits end 0 0 0 end s (omega arith) (no-Run 0 0) h

  -- If a run fits at `s`, the scan returns one that starts no later.
  pub find_run_complete :
      (end s : ℕ)
      → 0 < count
      → Fits end s
      → (first : ℕ) × (find_run free count alignment end 0 0 0 ≡ some first) × (first ≤ s)
  find_run_complete end s h fit =
      find_run_first end 0 0 0 end s (omega arith) h (no-Run 0 0) fit (inl (omega arith))
