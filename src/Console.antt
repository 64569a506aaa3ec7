-- ===== src/Console.antt =====
-- kernel/src/kernel.cpp, class KernelConsole: text on the framebuffer. A pixel is the word at its index
-- from the base address; an index and a coordinate are 32 bits. A null m_Framebuffer is `ready = false`.
pub mod Font
pub mod Shape
pub mod Ends
pub mod Scroll
pub mod Written
mod Tests
use uefi_boot_system.Prelude.{
  ℕ, zero, suc, ◌+◌, ◌-◌, ◌*◌, ◌/◌, ◌%◌, ◌^◌, Bool, true, false, not, ◌&&◌, ◌||◌, List, [], ◌∷◌,
  Option, none, some, if◌then◌else◌, ltb, leb, ◌==◌, bit_and, bit_or, get_or,
}
use uefi_boot_system.Prelude.Bits.{test_bit}
use uefi_boot_system.Prelude.Text.{Text, text}
use uefi_boot_system.Console.Font.{font8x8_kernel}

pub record FramebufferInfo : Type 0 where
  pub base_address : ℕ
  pub width : ℕ
  pub height : ℕ
  pub pixels_per_scanline : ℕ
  pub format : ℕ

pub record KernelConsole : Type 0 where
  pub ready : Bool
  pub framebuffer : FramebufferInfo
  pub cursor_x : ℕ
  pub cursor_y : ℕ
  pub pixels : ℕ → ℕ

abbrev pub margin_x : ℕ
margin_x = 32

abbrev pub margin_y : ℕ
margin_y = 28

abbrev pub glyph_width : ℕ
glyph_width = 16

abbrev pub glyph_height : ℕ
glyph_height = 16

abbrev pub advance_x : ℕ
advance_x = 18

abbrev pub advance_y : ℕ
advance_y = 22

abbrev pub color_background : ℕ
color_background = 0xFF050505

abbrev pub color_info : ℕ
color_info = 0xFF4CC9F0

unfoldable pub convert_color : FramebufferInfo → ℕ → ℕ
convert_color fb color =
    let red = bit_and (color / 2 ^ 16) 0xFF in
    let green = bit_and (color / 2 ^ 8) 0xFF in
    let blue = bit_and color 0xFF in
    if fb.format == 0
    then bit_or (bit_or red (green * 2 ^ 8)) (blue * 2 ^ 16)
    else bit_or (bit_or blue (green * 2 ^ 8)) (red * 2 ^ 16)

abbrev write_pixel : (ℕ → ℕ) → ℕ → ℕ → ℕ → ℕ
write_pixel pixels index v i = if i == index then v else pixels i

unfoldable pub draw_pixel : ℕ → ℕ → ℕ → KernelConsole → KernelConsole
draw_pixel x y color c =
    let fb = c.framebuffer in
    if leb fb.width x || leb fb.height y then c else record c {
      pixels =
          write_pixel c.pixels ((y * fb.pixels_per_scanline + x) % 2 ^ 32) (convert_color fb color);
    }

-- The inner loop of `FillRect` from `cx` to `limit`, with `n` rounds left.
unfoldable pub fill_row : ℕ → ℕ → ℕ → ℕ → ℕ → KernelConsole → KernelConsole
fill_row zero cx limit cy color c = c
fill_row (suc n) cx limit cy color c =
    let rest = fill_row n (cx + 1) limit cy color (draw_pixel cx cy color c) in
    if ltb cx limit && ltb cx c.framebuffer.width then rest else c

-- The outer loop from `cy` to `limit`, with `n` rounds left.
unfoldable pub fill_rows : ℕ → ℕ → ℕ → ℕ → ℕ → ℕ → KernelConsole → KernelConsole
fill_rows zero cy limit x x_limit color c = c
fill_rows (suc n) cy limit x x_limit color c =
    let filled = fill_row c.framebuffer.width x x_limit cy color c in
    let rest = fill_rows n (cy + 1) limit x x_limit color filled in
    if ltb cy limit && ltb cy c.framebuffer.height then rest else c

-- The loops end at the edges of the screen, so its height and width are enough rounds.
unfoldable pub fill_rect : ℕ → ℕ → ℕ → ℕ → ℕ → KernelConsole → KernelConsole
fill_rect x y w h color c =
    if not c.ready
    then c
    else fill_rows c.framebuffer.height y ((y + h) % 2 ^ 32) x ((x + w) % 2 ^ 32) color c

unfoldable pub clear : ℕ → KernelConsole → KernelConsole
clear color c = record (fill_rect 0 0 c.framebuffer.width c.framebuffer.height color c) {
  cursor_x = margin_x;
  cursor_y = margin_y;
}

-- The four pixels of a set bit.
unfoldable pub draw_dot : ℕ → ℕ → ℕ → KernelConsole → KernelConsole
draw_dot x y color c = draw_pixel ((x + 1) % 2 ^ 32) ((y + 1) % 2 ^ 32) color (
    draw_pixel x ((y + 1) % 2 ^ 32) color
      (draw_pixel ((x + 1) % 2 ^ 32) y color (draw_pixel x y color c)))

-- The inner loop of `DrawChar` on a row of the glyph, with `n` bits left.
unfoldable pub draw_row : ℕ → ℕ → ℕ → ℕ → ℕ → ℕ → KernelConsole → KernelConsole
draw_row zero gx bits x y color c = c
draw_row (suc n) gx bits x y color c =
    draw_row n (gx + 1) bits x y color
      (if test_bit bits (7 - gx) then draw_dot ((x + gx * 2) % 2 ^ 32) y color c else c)

-- The outer loop, with `n` rows left.
unfoldable pub draw_rows : ℕ → ℕ → List ℕ → ℕ → ℕ → ℕ → KernelConsole → KernelConsole
draw_rows zero gy glyph x y color c = c
draw_rows (suc n) gy glyph x y color c =
    draw_rows n (gy + 1) glyph x y color
      (draw_row 8 0 (get_or glyph gy 0) x ((y + gy * 2) % 2 ^ 32) color c)

unfoldable pub draw_char : ℕ → ℕ → ℕ → ℕ → KernelConsole → KernelConsole
draw_char x y char color =
    let code = if leb 128 char then 63 else char in
    draw_rows 8 0 (get_or font8x8_kernel code []) x y color

unfoldable pub new_line : KernelConsole → KernelConsole
new_line c = record c { cursor_x = margin_x; cursor_y = (c.cursor_y + advance_y) % 2 ^ 32 }

-- The end of `PutChar`.
unfoldable pub place_char : ℕ → ℕ → KernelConsole → KernelConsole
place_char char color c =
    let drawn = draw_char c.cursor_x c.cursor_y char color c in
    record drawn { cursor_x = (drawn.cursor_x + advance_x) % 2 ^ 32 }

-- `PutChar`, by what `Scroll` does; `none` where that does not end.
unfoldable pub put_with :
    (KernelConsole → Option KernelConsole) → ℕ → ℕ → KernelConsole → Option KernelConsole
put_with scroll char color c =
    let fb = c.framebuffer in
    let wrapped =
      if ltb ((fb.width + (2 ^ 32 - margin_x)) % 2 ^ 32) ((c.cursor_x + glyph_width) % 2 ^ 32)
      then new_line c
      else c in
    if not c.ready
    then some c
    else if char == 10
    then some (new_line c)
    else if ltb ((fb.height + (2 ^ 32 - margin_y)) % 2 ^ 32)
        ((wrapped.cursor_y + glyph_height) % 2 ^ 32)
    then elim (scroll wrapped) [
      | none ↦ none
      | some scrolled ↦ some (place_char char color scrolled)
    ]
    else some (place_char char color wrapped)

-- The loop of `Write`, by what `PutChar` does.
unfoldable pub write_with :
    (ℕ → KernelConsole → Option KernelConsole) → Text → KernelConsole → Option KernelConsole
write_with put [] c = some c
write_with put (char ∷ chars) c = elim (put char c) [
  | none ↦ none
  | some next ↦ write_with put chars next
]

abbrev pub scroll_text : Text
scroll_text = text "[INFO] Console scroll reset\n"

-- `PutChar`, `Scroll` and `Write` call each other: `depth` bounds the scrolls within scrolls.
unfoldable pub put_char : ℕ → ℕ → ℕ → KernelConsole → Option KernelConsole
put_char zero char color c = put_with (λ s. none) char color c
put_char (suc depth) char color c =
    put_with
      (λ s. write_with (λ t. put_char depth t color_info) scroll_text (clear color_background s))
      char color c

unfoldable pub write_text : ℕ → Option Text → ℕ → KernelConsole → Option KernelConsole
write_text depth none color c = some c
write_text depth (some chars) color c = write_with (λ t. put_char depth t color) chars c

-- The decimal digits that `WriteUnsigned` puts, the first one last in `buffer`; `n` rounds are left.
unfoldable pub digits : ℕ → ℕ → Text → Text
digits zero value buffer = buffer
digits (suc n) value buffer =
    let rest = digits n (value / 10) ((48 + value % 10) ∷ buffer) in
    if value == 0 then buffer else rest

unfoldable pub write_unsigned : ℕ → ℕ → ℕ → KernelConsole → Option KernelConsole
write_unsigned depth value color =
    write_with (λ t. put_char depth t color) (if value == 0 then 48 ∷ [] else digits 31 value [])

-- The digits that `WriteHex` puts, with the lowest `n` left.
unfoldable pub hex_digits : ℕ → Bool → ℕ → Text
hex_digits zero started value = []
hex_digits (suc n) started value =
    let nibble = bit_and (value / 2 ^ (4 * n)) 0xF in
    let shown =
      (if ltb nibble 10 then 48 + nibble else 65 + (nibble - 10)) ∷ hex_digits n true value in
    let skipped = hex_digits n started value in
    if not (nibble == 0) || started || n == 0 then shown else skipped

unfoldable pub write_hex : ℕ → ℕ → ℕ → KernelConsole → Option KernelConsole
write_hex depth value color c = elim (write_text depth (some (text "0x")) color c) [
  | none ↦ none
  | some next ↦ write_with (λ t. put_char depth t color) (hex_digits 16 false value) next
]

-- `framebuffer` is `none` where the pointer is null; `Clear` fills the screen it has just got.
unfoldable pub console_init : Option FramebufferInfo → KernelConsole → Bool × KernelConsole
console_init none c = (false, c)
console_init (some fb) c =
    if fb.base_address == 0 || fb.width == 0 || fb.height == 0 then (false, c) else (
      true,
      clear color_background
          (record c { ready = true; framebuffer = fb; cursor_x = margin_x; cursor_y = margin_y }),
    )
