-- ===== src/Console/Tests.antt =====
-- KernelConsole on a screen of 640 by 480 pixels.
use uefi_boot_system.Prelude.{◌≡◌, refl, true, false, [], some, arith}
use uefi_boot_system.Prelude.Text.{text}
use uefi_boot_system.Console.{FramebufferInfo, KernelConsole, write_text, digits, hex_digits}
use uefi_boot_system.Console.Ends.{IsPlaced, Ends}
use uefi_boot_system.Console.Written.{write_text-Ends}

abbrev screen : FramebufferInfo
screen = record {
  base_address = 0x80000000;
  width = 640;
  height = 480;
  pixels_per_scanline = 640;
  format = 1;
}

abbrev console : KernelConsole
console = record {
  ready = true;
  framebuffer = screen;
  cursor_x = 32;
  cursor_y = 28;
  pixels = λ index. 0;
}

write_text-Ends_example :
    Ends (IsPlaced screen) (write_text 1 (some (text "kernel\nready")) 0xFFE8E8E8 console)
write_text-Ends_example =
    write_text-Ends screen (some (text "kernel\nready")) 0xFFE8E8E8 console
      (record {
        wide = omega arith;
        high = omega arith;
        width_bits = omega arith;
        height_bits = omega arith;
      })
      (record { ready = refl; screen = refl; column = omega arith })

digits_run : digits 31 2048 [] ≡ text "2048"
unfolding digits
digits_run = refl

hex_digits_run : hex_digits 16 false 0xBEE0 ≡ text "BEE0"
unfolding hex_digits
hex_digits_run = refl
