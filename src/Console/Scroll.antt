-- ===== src/Console/Scroll.antt =====
-- KernelConsole: a scroll ends on a screen that is large enough for the line that it writes.
use uefi_boot_system.Prelude.{
  ℕ, ◌+◌, ◌-◌, ◌*◌, ◌%◌, ◌^◌, ◌≤◌, ◌≡◌, refl, ap, sym, ◌∙◌, subst, Bool, true, false, not, ◌&&◌, [],
  ◌∷◌, ◌++◌, Option, none, some, if◌then◌else◌, ltb, ◌==◌, arith, length,
}
use uefi_boot_system.Prelude.Cases.{by_if}
use uefi_boot_system.Prelude.Text.{Text, text}
use uefi_boot_system.Console.{
  FramebufferInfo, KernelConsole, clear, new_line, place_char, put_with, write_with, put_char,
  scroll_text, color_info, color_background,
}
use uefi_boot_system.Console.Shape.{Shape, shape-clear, shape-place_char}
use uefi_boot_system.Console.Ends.{IsRoomy, IsFit, Ends, new_line-IsFit, IsPlaced}

-- On the line of a scroll, at column `x`.
record IsAt (fb : FramebufferInfo) (x : ℕ) (c : KernelConsole) : Type 0 where
  ready : c.ready ≡ true
  screen : c.framebuffer ≡ fb
  column : c.cursor_x ≡ x
  line : c.cursor_y ≡ 28

-- A glyph on that line needs no new line and no scroll.
put_here :
    (fb : FramebufferInfo) (scroll : KernelConsole → Option KernelConsole) (char color x : ℕ)
    (c : KernelConsole)
    → IsRoomy fb
    → IsAt fb x c
    → (char == 10) ≡ false
    → x + 48 ≤ fb.width
    → put_with scroll char color c ≡ some (place_char char color c)
unfolding put_with
put_here fb scroll char color x c roomy at glyph fits =
    let Q : Option KernelConsole → Type 0 = λ o. o ≡ some (place_char char color c) in
    let width : c.framebuffer.width ≡ fb.width = ap (λ (f : FramebufferInfo). f.width) at.screen in
    let height : c.framebuffer.height ≡ fb.height =
      ap (λ (f : FramebufferInfo). f.height) at.screen in
    let test = ltb ((c.framebuffer.width + (2 ^ 32 - 32)) % 2 ^ 32) ((c.cursor_x + 16) % 2 ^ 32) in
    let stays : (if test then new_line c else c) ≡ c =
      by_if (λ w. w ≡ c) test (new_line c) c
        (λ e. absurd (ground (arith, e, width, at.column, fits, roomy.width_bits))) (λ e. refl) in
    let line : (if test then new_line c else c).cursor_y ≡ 28 =
      ap (λ (w : KernelConsole). w.cursor_y) stays ∙ at.line in
    by_if Q (not c.ready) _ _ (λ e. absurd (ground (arith, e, at.ready)))
      (λ e.
        by_if Q (char == 10) _ _ (λ nl. absurd (cc (nl, glyph)))
          (λ other.
            by_if Q
              (ltb ((c.framebuffer.height + (2 ^ 32 - 28)) % 2 ^ 32)
                (((if test then new_line c else c).cursor_y + 16) % 2 ^ 32))
              (elim (scroll (if test then new_line c else c)) [
                | none ↦ none
                | some scrolled ↦ some (place_char char color scrolled)
              ])
              (some (place_char char color (if test then new_line c else c)))
              (λ full. absurd (ground (arith, full, line, height, roomy.high, roomy.height_bits)))
              (λ room. ap (λ (w : KernelConsole). some (place_char char color w)) stays)))

put_new_line :
    (scroll : KernelConsole → Option KernelConsole) (color : ℕ) (c : KernelConsole)
    → c.ready ≡ true
    → put_with scroll 10 color c ≡ some (new_line c)
unfolding put_with
put_new_line scroll color c ready =
    let Q : Option KernelConsole → Type 0 = λ o. o ≡ some (new_line c) in
    by_if Q (not c.ready) _ _ (λ e. absurd (ground (arith, e, ready))) (λ e. refl)

-- Whether a text is on one line.
abbrev all_glyphs : Text → Bool
all_glyphs [] = true
all_glyphs (char ∷ chars) = not (char == 10) && all_glyphs chars

-- A line that fits, with its end.
write_line :
    (fb : FramebufferInfo) (chars : Text) (x color : ℕ) (c : KernelConsole)
    → IsRoomy fb
    → all_glyphs chars ≡ true
    → IsAt fb x c
    → x + 18 * length chars + 30 ≤ fb.width
    → Ends (IsFit fb) (write_with (λ t. put_char 0 t color) (chars ++ (10 ∷ [])) c)
unfolding write_with put_char
write_line fb [] x color c roomy glyphs at fits =
    let e = put_new_line (λ s. none) color c at.ready in
    let placed : IsPlaced fb c = record {
      ready = at.ready;
      screen = at.screen;
      column = omega (arith, at.column, fits);
    } in
    subst
      (λ (o : Option KernelConsole).
        Ends (IsFit fb) (elim o [ none ↦ none | some next ↦ some next ]))
      (sym e) (new_line c, refl, new_line-IsFit fb c roomy placed)
write_line fb (char ∷ chars) x color c roomy glyphs at fits =
    let glyph : (char == 10) ≡ false = ground (arith, glyphs) in
    let more : all_glyphs chars ≡ true = ground (arith, glyphs) in
    let e = put_here fb (λ s. none) char color x c roomy at glyph (omega (arith, fits)) in
    let s = shape-place_char char color c in
    let column : (c.cursor_x + 18) % 2 ^ 32 ≡ x + 18 =
      omega (arith, at.column, fits, roomy.width_bits) in
    let next : IsAt fb (x + 18) (place_char char color c) = record {
      ready = ap (λ (s : Shape). s.0) s ∙ at.ready;
      screen = ap (λ (s : Shape). s.1) s ∙ at.screen;
      column = ap (λ (s : Shape). s.2) s ∙ column;
      line = ap (λ (s : Shape). s.3) s ∙ at.line;
    } in
    subst
      (λ (o : Option KernelConsole). Ends (IsFit fb) (elim o [
        | none ↦ none
        | some next ↦ write_with (λ t. put_char 0 t color) (chars ++ (10 ∷ [])) next
      ]))
      (sym e)
      (write_line fb chars (x + 18) color (place_char char color c) roomy more next
        (omega (arith, fits)))

abbrev front : Text
front = text "[INFO] Console scroll reset"

-- The scroll of a console in order, where no scroll may start within it.
pub scroll-Ends :
    (fb : FramebufferInfo) (c : KernelConsole)
    → IsRoomy fb
    → IsFit fb c
    → Ends
        (IsFit fb)
        (write_with (λ t. put_char 0 t color_info) scroll_text (clear color_background c))
scroll-Ends fb c roomy fit =
    let e = shape-clear color_background c in
    let at : IsAt fb 32 (clear color_background c) = record {
      ready = ap (λ (s : Shape). s.0) e ∙ fit.ready;
      screen = ap (λ (s : Shape). s.1) e ∙ fit.screen;
      column = ap (λ (s : Shape). s.2) e;
      line = ap (λ (s : Shape). s.3) e;
    } in
    write_line fb front 32 color_info (clear color_background c) roomy refl at
      (omega (arith, roomy.wide))
