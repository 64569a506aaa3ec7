-- ===== src/Console/Written.antt =====
-- KernelConsole: every text is written to its end.
use uefi_boot_system.Prelude.{ℕ, refl, sym, subst, [], ◌∷◌, Option, none, some}
use uefi_boot_system.Prelude.Text.{Text}
use uefi_boot_system.Console.{
  FramebufferInfo, KernelConsole, put_char, write_with, write_text, color_info, color_background,
  clear, scroll_text,
}
use uefi_boot_system.Console.Ends.{IsRoomy, IsPlaced, Ends, put_with-Ends}
use uefi_boot_system.Console.Scroll.{scroll-Ends}

put_char-Ends :
    (fb : FramebufferInfo) (char color : ℕ) (c : KernelConsole)
    → IsRoomy fb
    → IsPlaced fb c
    → Ends (IsPlaced fb) (put_char 1 char color c)
unfolding put_char
put_char-Ends fb char color c roomy placed =
    put_with-Ends fb
      (λ s. write_with (λ t. put_char 0 t color_info) scroll_text (clear color_background s)) char
      color c roomy (λ d fit. scroll-Ends fb d roomy fit) placed

write_chars-Ends :
    (fb : FramebufferInfo) (chars : Text) (color : ℕ) (c : KernelConsole)
    → IsRoomy fb
    → IsPlaced fb c
    → Ends (IsPlaced fb) (write_with (λ t. put_char 1 t color) chars c)
unfolding write_with
write_chars-Ends fb [] color c roomy placed = (c, refl, placed)
write_chars-Ends fb (char ∷ chars) color c roomy placed =
    let (d, e, there) = put_char-Ends fb char color c roomy placed in
    subst
      (λ (o : Option KernelConsole).
        Ends (IsPlaced fb)
          (elim o [ none ↦ none | some next ↦ write_with (λ t. put_char 1 t color) chars next ]))
      (sym e) (write_chars-Ends fb chars color d roomy there)

-- On a screen of at least 548 by 72 pixels, with a console in order on it, Write of any text ends with
-- no scroll inside a scroll, and leaves the console in order: on the same screen, with the cursor at
-- most as far right as 30 pixels from the edge.
pub write_text-Ends :
    (fb : FramebufferInfo) (chars : Option Text) (color : ℕ) (c : KernelConsole)
    → IsRoomy fb
    → IsPlaced fb c
    → Ends (IsPlaced fb) (write_text 1 chars color c)
unfolding write_text
write_text-Ends fb none color c roomy placed = (c, refl, placed)
write_text-Ends fb (some chars) color c roomy placed =
    write_chars-Ends fb chars color c roomy placed
