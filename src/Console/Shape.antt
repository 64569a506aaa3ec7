-- ===== src/Console/Shape.antt =====
-- KernelConsole: what drawing leaves alone.
use uefi_boot_system.Prelude.{
  ℕ, zero, suc, ◌+◌, ◌-◌, ◌*◌, ◌%◌, ◌^◌, ◌≡◌, refl, ap, ◌∙◌, Bool, not, List,
}
use uefi_boot_system.Prelude.Bits.{test_bit}
use uefi_boot_system.Prelude.Cases.{by_if}
use uefi_boot_system.Console.{
  FramebufferInfo, KernelConsole, draw_pixel, fill_row, fill_rows, fill_rect, clear, draw_dot,
  draw_row, draw_rows, draw_char, place_char,
}

-- What drawing leaves alone.
abbrev pub Shape : Type 0
Shape = Bool × FramebufferInfo × ℕ × ℕ

abbrev pub shape : KernelConsole → Shape
shape c = (c.ready, c.framebuffer, c.cursor_x, c.cursor_y)

shape-draw_pixel : (x y color : ℕ) (c : KernelConsole) → shape (draw_pixel x y color c) ≡ shape c
unfolding draw_pixel
shape-draw_pixel x y color c =
    let P : KernelConsole → Type 0 = λ d. shape d ≡ shape c in by_if P _ _ _ (λ e. refl) (λ e. refl)

shape-fill_row :
    (n cx limit cy color : ℕ) (c : KernelConsole) → shape (fill_row n cx limit cy color c) ≡ shape c
unfolding fill_row
shape-fill_row zero cx limit cy color c = refl
shape-fill_row (suc n) cx limit cy color c =
    let P : KernelConsole → Type 0 = λ d. shape d ≡ shape c in
    by_if P _ _ _
      (λ e.
        shape-fill_row n (cx + 1) limit cy color (draw_pixel cx cy color c)
        ∙ shape-draw_pixel cx cy color c)
      (λ e. refl)

shape-fill_rows :
    (n cy limit x x_limit color : ℕ) (c : KernelConsole)
    → shape (fill_rows n cy limit x x_limit color c) ≡ shape c
unfolding fill_rows
shape-fill_rows zero cy limit x x_limit color c = refl
shape-fill_rows (suc n) cy limit x x_limit color c =
    let P : KernelConsole → Type 0 = λ d. shape d ≡ shape c in
    let width = c.framebuffer.width in
    by_if P _ _ _
      (λ e.
        shape-fill_rows n (cy + 1) limit x x_limit color (fill_row width x x_limit cy color c)
        ∙ shape-fill_row width x x_limit cy color c)
      (λ e. refl)

pub shape-clear :
    (color : ℕ) (c : KernelConsole) → shape (clear color c) ≡ (c.ready, c.framebuffer, 32, 28)
unfolding clear fill_rect
shape-clear color c =
    let fb = c.framebuffer in
    let P : KernelConsole → Type 0 = λ d. shape d ≡ shape c in
    let filled =
      by_if P (not c.ready) c
        (fill_rows fb.height 0 ((0 + fb.height) % 2 ^ 32) 0 ((0 + fb.width) % 2 ^ 32) color c)
        (λ e. refl)
        (λ e.
          shape-fill_rows fb.height 0 ((0 + fb.height) % 2 ^ 32) 0 ((0 + fb.width) % 2 ^ 32) color
            c) in
    ap (λ (s : Shape). (s.0, s.1, 32, 28)) filled

shape-draw_dot : (x y color : ℕ) (c : KernelConsole) → shape (draw_dot x y color c) ≡ shape c
unfolding draw_dot
shape-draw_dot x y color c =
    shape-draw_pixel _ _ color _
    ∙ shape-draw_pixel _ _ color _
    ∙ shape-draw_pixel _ _ color _
    ∙ shape-draw_pixel _ _ color _

shape-draw_row :
    (n gx bits x y color : ℕ) (c : KernelConsole) → shape (draw_row n gx bits x y color c) ≡ shape c
unfolding draw_row
shape-draw_row zero gx bits x y color c = refl
shape-draw_row (suc n) gx bits x y color c =
    let P : KernelConsole → Type 0 = λ d. shape d ≡ shape c in
    shape-draw_row n (gx + 1) bits x y color _
    ∙ by_if P (test_bit bits (7 - gx)) (draw_dot ((x + gx * 2) % 2 ^ 32) y color c) c
        (λ e. shape-draw_dot ((x + gx * 2) % 2 ^ 32) y color c) (λ e. refl)

shape-draw_rows :
    (n gy : ℕ) (glyph : List ℕ) (x y color : ℕ) (c : KernelConsole)
    → shape (draw_rows n gy glyph x y color c) ≡ shape c
unfolding draw_rows
shape-draw_rows zero gy glyph x y color c = refl
shape-draw_rows (suc n) gy glyph x y color c =
    shape-draw_rows n (gy + 1) glyph x y color _ ∙ shape-draw_row 8 0 _ x _ color c

pub shape-place_char :
    (char color : ℕ) (c : KernelConsole)
    → shape (place_char char color c)
      ≡ (c.ready, c.framebuffer, (c.cursor_x + 18) % 2 ^ 32, c.cursor_y)
unfolding place_char draw_char
shape-place_char char color c =
    ap (λ (s : Shape). (s.0, s.1, (s.2 + 18) % 2 ^ 32, s.3))
      (shape-draw_rows 8 0 _ c.cursor_x c.cursor_y color c)
