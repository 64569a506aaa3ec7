-- ===== src/Console/Ends.antt =====
-- KernelConsole: writing text ends, on screens that are large enough for the line that a scroll writes.
use uefi_boot_system.Prelude.{
  ℕ, ◌+◌, ◌-◌, ◌%◌, ◌^◌, ◌≤◌, ◌<◌, ◌≡◌, refl, ap, sym, ◌∙◌, subst, true, not, Option, none, some,
  ltb, ◌==◌, arith,
}
use uefi_boot_system.Prelude.Cases.{by_if}
use uefi_boot_system.Console.{FramebufferInfo, KernelConsole, new_line, place_char, put_with}
use uefi_boot_system.Console.Shape.{Shape, shape-place_char}

-- Large enough for the line of a scroll, and of 32 bits.
pub record IsRoomy (fb : FramebufferInfo) : Type 0 where
  pub wide : 548 ≤ fb.width
  pub high : 72 ≤ fb.height
  pub width_bits : fb.width < 2 ^ 32
  pub height_bits : fb.height < 2 ^ 32

-- A console on a screen, its cursor at most one advance beyond the last glyph of a line.
pub record IsPlaced (fb : FramebufferInfo) (c : KernelConsole) : Type 0 where
  pub ready : c.ready ≡ true
  pub screen : c.framebuffer ≡ fb
  pub column : c.cursor_x + 30 ≤ fb.width

-- The same with room for one more glyph.
pub record IsFit (fb : FramebufferInfo) (c : KernelConsole) : Type 0 where
  pub ready : c.ready ≡ true
  pub screen : c.framebuffer ≡ fb
  pub column : c.cursor_x + 48 ≤ fb.width

-- A call ends, in a state with a property.
abbrev pub Ends : (KernelConsole → Type 0) → Option KernelConsole → Type 0
Ends Holds o = (d : KernelConsole) × (o ≡ some d) × Holds d

place_char-IsPlaced :
    (fb : FramebufferInfo) (char color : ℕ) (c : KernelConsole)
    → IsRoomy fb
    → IsFit fb c
    → IsPlaced fb (place_char char color c)
place_char-IsPlaced fb char color c roomy fit =
    let e = shape-place_char char color c in
    let x : (place_char char color c).cursor_x ≡ (c.cursor_x + 18) % 2 ^ 32 =
      ap (λ (s : Shape). s.2) e in
    record {
      ready = ap (λ (s : Shape). s.0) e ∙ fit.ready;
      screen = ap (λ (s : Shape). s.1) e ∙ fit.screen;
      column = omega (arith, x, fit.column, roomy.width_bits);
    }

pub new_line-IsFit :
    (fb : FramebufferInfo) (c : KernelConsole) → IsRoomy fb → IsPlaced fb c → IsFit fb (new_line c)
unfolding new_line
new_line-IsFit fb c roomy placed = record {
  ready = placed.ready;
  screen = placed.screen;
  column = omega (arith, roomy.wide);
}

fit-IsPlaced : (fb : FramebufferInfo) (c : KernelConsole) → IsFit fb c → IsPlaced fb c
fit-IsPlaced fb c fit = record {
  ready = fit.ready;
  screen = fit.screen;
  column = omega (arith, fit.column);
}

-- `PutChar` ends where the scroll it may need does.
pub put_with-Ends :
    (fb : FramebufferInfo) (scroll : KernelConsole → Option KernelConsole) (char color : ℕ)
    (c : KernelConsole)
    → IsRoomy fb
    → ((d : KernelConsole) → IsFit fb d → Ends (IsFit fb) (scroll d))
    → IsPlaced fb c
    → Ends (IsPlaced fb) (put_with scroll char color c)
unfolding put_with
put_with-Ends fb scroll char color c roomy scrolls placed =
    let P : Option KernelConsole → Type 0 = λ o. Ends (IsPlaced fb) o in
    let same : c.framebuffer.width ≡ fb.width =
      ap (λ (f : FramebufferInfo). f.width) placed.screen in
    let fits =
      by_if (λ d. IsFit fb d)
        (ltb ((c.framebuffer.width + (2 ^ 32 - 32)) % 2 ^ 32) ((c.cursor_x + 16) % 2 ^ 32))
        (new_line c) c (λ e. new_line-IsFit fb c roomy placed)
        (λ e. record {
          ready = placed.ready;
          screen = placed.screen;
          column = ground (arith, e, same, placed.column, roomy.width_bits, roomy.wide);
        }) in
    by_if P (not c.ready) _ _ (λ e. absurd (ground (arith, e, placed.ready)))
      (λ e.
        by_if P (char == 10) _ _
          (λ nl.
            (new_line c, refl, fit-IsPlaced fb (new_line c) (new_line-IsFit fb c roomy placed)))
          (λ other.
            by_if P _ _ _
              (λ full.
                let (d, ends, fit) = scrolls _ fits in
                subst
                  (λ (o : Option KernelConsole).
                    P (elim o [ none ↦ none | some s ↦ some (place_char char color s) ]))
                  (sym ends)
                  (place_char char color d, refl, place_char-IsPlaced fb char color d roomy fit))
              (λ room. (_, refl, place_char-IsPlaced fb char color _ roomy fits))))
