-- ===== src/Console/Font.antt =====
-- kernel/src/kernel.cpp: the glyphs of the console, 8 rows of 8 pixels for each of 128 characters.
use uefi_boot_system.Prelude.{ℕ, List, [], ◌∷◌, ◌++◌, replicate}

abbrev row : ℕ → ℕ → ℕ → ℕ → ℕ → ℕ → ℕ → ℕ → List ℕ
row a b c d e f g h = a ∷ b ∷ c ∷ d ∷ e ∷ f ∷ g ∷ h ∷ []

-- The glyphs from the space on.
printable : List (List ℕ)
printable =
    row 0x00 0x00 0x00 0x00 0x00 0x00 0x00 0x00
    ∷ row 0x18 0x18 0x18 0x18 0x00 0x00 0x18 0x00
    ∷ row 0x36 0x36 0x00 0x00 0x00 0x00 0x00 0x00
    ∷ row 0x36 0x7f 0x36 0x36 0x7f 0x36 0x36 0x00
    ∷ row 0x18 0x3e 0x60 0x3c 0x06 0x7c 0x18 0x00
    ∷ row 0x00 0x66 0x30 0x18 0x0c 0x66 0x00 0x00
    ∷ row 0x38 0x6c 0x38 0x76 0xdc 0xcc 0x76 0x00
    ∷ row 0x18 0x18 0x18 0x00 0x00 0x00 0x00 0x00
    ∷ row 0x0c 0x18 0x30 0x30 0x30 0x18 0x0c 0x00
    ∷ row 0x30 0x18 0x0c 0x0c 0x0c 0x18 0x30 0x00
    ∷ row 0x00 0x66 0x3c 0xff 0x3c 0x66 0x00 0x00
    ∷ row 0x00 0x18 0x18 0x7e 0x18 0x18 0x00 0x00
    ∷ row 0x00 0x00 0x00 0x00 0x18 0x18 0x08 0x10
    ∷ row 0x00 0x00 0x00 0x7e 0x00 0x00 0x00 0x00
    ∷ row 0x00 0x00 0x00 0x00 0x00 0x18 0x18 0x00
    ∷ row 0x00 0x03 0x06 0x0c 0x18 0x30 0x60 0x00
    ∷ row 0x3c 0x66 0x6e 0x76 0x66 0x66 0x3c 0x00
    ∷ row 0x18 0x1c 0x18 0x18 0x18 0x18 0x7e 0x00
    ∷ row 0x3e 0x66 0x06 0x1c 0x30 0x62 0x7e 0x00
    ∷ row 0x3e 0x66 0x06 0x1e 0x06 0x66 0x3e 0x00
    ∷ row 0x06 0x0e 0x1e 0x36 0x7e 0x06 0x06 0x00
    ∷ row 0x7e 0x60 0x7c 0x06 0x06 0x66 0x3c 0x00
    ∷ row 0x1c 0x30 0x60 0x7c 0x66 0x66 0x3c 0x00
    ∷ row 0x7e 0x66 0x06 0x0c 0x18 0x18 0x18 0x00
    ∷ row 0x3c 0x66 0x66 0x3c 0x66 0x66 0x3c 0x00
    ∷ row 0x3c 0x66 0x66 0x3e 0x06 0x0c 0x38 0x00
    ∷ row 0x00 0x18 0x18 0x00 0x00 0x18 0x18 0x00
    ∷ row 0x00 0x18 0x18 0x00 0x18 0x18 0x08 0x10
    ∷ row 0x0c 0x18 0x30 0x60 0x30 0x18 0x0c 0x00
    ∷ row 0x00 0x7e 0x00 0x7e 0x00 0x00 0x00 0x00
    ∷ row 0x30 0x18 0x0c 0x06 0x0c 0x18 0x30 0x00
    ∷ row 0x3c 0x66 0x06 0x0c 0x18 0x00 0x18 0x00
    ∷ row 0x3c 0x66 0x6e 0x6e 0x60 0x62 0x3c 0x00
    ∷ row 0x18 0x3c 0x66 0x66 0x7e 0x66 0x66 0x00
    ∷ row 0x7c 0x66 0x66 0x7c 0x66 0x66 0x7c 0x00
    ∷ row 0x3e 0x66 0x60 0x60 0x60 0x66 0x3e 0x00
    ∷ row 0x78 0x6c 0x66 0x66 0x66 0x6c 0x78 0x00
    ∷ row 0x7e 0x60 0x60 0x78 0x60 0x60 0x7e 0x00
    ∷ row 0x7e 0x60 0x60 0x78 0x60 0x60 0x60 0x00
    ∷ row 0x3c 0x66 0x60 0x6e 0x66 0x66 0x3e 0x00
    ∷ row 0x66 0x66 0x66 0x7e 0x66 0x66 0x66 0x00
    ∷ row 0x7e 0x18 0x18 0x18 0x18 0x18 0x7e 0x00
    ∷ row 0x06 0x06 0x06 0x06 0x66 0x66 0x3c 0x00
    ∷ row 0x66 0x6c 0x78 0x70 0x78 0x6c 0x66 0x00
    ∷ row 0x60 0x60 0x60 0x60 0x60 0x60 0x7e 0x00
    ∷ row 0x63 0x77 0x7f 0x6b 0x63 0x63 0x63 0x00
    ∷ row 0x66 0x66 0x76 0x7e 0x6e 0x66 0x66 0x00
    ∷ row 0x3c 0x66 0x66 0x66 0x66 0x66 0x3c 0x00
    ∷ row 0x7c 0x66 0x66 0x7c 0x60 0x60 0x60 0x00
    ∷ row 0x3c 0x66 0x66 0x66 0x66 0x3c 0x0e 0x00
    ∷ row 0x7c 0x66 0x66 0x7c 0x78 0x6c 0x66 0x00
    ∷ row 0x3e 0x66 0x60 0x3c 0x06 0x66 0x3c 0x00
    ∷ row 0x7e 0x18 0x18 0x18 0x18 0x18 0x18 0x00
    ∷ row 0x66 0x66 0x66 0x66 0x66 0x66 0x3c 0x00
    ∷ row 0x66 0x66 0x66 0x66 0x66 0x3c 0x18 0x00
    ∷ row 0x63 0x63 0x63 0x6b 0x7f 0x77 0x63 0x00
    ∷ row 0x66 0x66 0x3c 0x18 0x3c 0x66 0x66 0x00
    ∷ row 0x66 0x66 0x66 0x3c 0x18 0x18 0x18 0x00
    ∷ row 0x7e 0x06 0x0c 0x18 0x30 0x60 0x7e 0x00
    ∷ row 0x3c 0x30 0x30 0x30 0x30 0x30 0x3c 0x00
    ∷ row 0x00 0x60 0x30 0x18 0x0c 0x06 0x03 0x00
    ∷ row 0x3c 0x0c 0x0c 0x0c 0x0c 0x0c 0x3c 0x00
    ∷ row 0x08 0x1c 0x36 0x63 0x00 0x00 0x00 0x00
    ∷ row 0x00 0x00 0x00 0x00 0x00 0x00 0xff 0x00
    ∷ row 0x18 0x18 0x0c 0x00 0x00 0x00 0x00 0x00
    ∷ row 0x00 0x00 0x3c 0x06 0x3e 0x66 0x3b 0x00
    ∷ row 0x60 0x60 0x7c 0x66 0x66 0x66 0x7c 0x00
    ∷ row 0x00 0x00 0x3c 0x66 0x60 0x66 0x3c 0x00
    ∷ row 0x06 0x06 0x3e 0x66 0x66 0x66 0x3e 0x00
    ∷ row 0x00 0x00 0x3c 0x66 0x7e 0x60 0x3c 0x00
    ∷ row 0x1c 0x30 0x7c 0x30 0x30 0x30 0x30 0x00
    ∷ row 0x00 0x00 0x3e 0x66 0x66 0x3e 0x06 0x3c
    ∷ row 0x60 0x60 0x7c 0x66 0x66 0x66 0x66 0x00
    ∷ row 0x18 0x00 0x38 0x18 0x18 0x18 0x3c 0x00
    ∷ row 0x06 0x00 0x0e 0x06 0x06 0x06 0x06 0x3c
    ∷ row 0x60 0x60 0x66 0x6c 0x78 0x6c 0x66 0x00
    ∷ row 0x38 0x18 0x18 0x18 0x18 0x18 0x3c 0x00
    ∷ row 0x00 0x00 0x6e 0x7f 0x6b 0x63 0x63 0x00
    ∷ row 0x00 0x00 0x7c 0x66 0x66 0x66 0x66 0x00
    ∷ row 0x00 0x00 0x3c 0x66 0x66 0x66 0x3c 0x00
    ∷ row 0x00 0x00 0x7c 0x66 0x66 0x7c 0x60 0x60
    ∷ row 0x00 0x00 0x3e 0x66 0x66 0x3e 0x06 0x06
    ∷ row 0x00 0x00 0x7c 0x66 0x60 0x60 0x60 0x00
    ∷ row 0x00 0x00 0x3e 0x60 0x3c 0x06 0x7c 0x00
    ∷ row 0x18 0x18 0x7e 0x18 0x18 0x18 0x0d 0x06
    ∷ row 0x00 0x00 0x66 0x66 0x66 0x66 0x3b 0x00
    ∷ row 0x00 0x00 0x66 0x66 0x66 0x3c 0x18 0x00
    ∷ row 0x00 0x00 0x63 0x6b 0x7f 0x36 0x22 0x00
    ∷ row 0x00 0x00 0x66 0x3c 0x18 0x3c 0x66 0x00
    ∷ row 0x00 0x00 0x66 0x66 0x66 0x3e 0x06 0x3c
    ∷ row 0x00 0x00 0x7e 0x0c 0x18 0x30 0x7e 0x00
    ∷ row 0x0e 0x18 0x18 0x70 0x18 0x18 0x0e 0x00
    ∷ row 0x18 0x18 0x18 0x00 0x18 0x18 0x18 0x00
    ∷ row 0x70 0x18 0x18 0x0e 0x18 0x18 0x70 0x00
    ∷ row 0x76 0xdc 0x00 0x00 0x00 0x00 0x00 0x00
    ∷ row 0x00 0x00 0x00 0x00 0x00 0x00 0x00 0x00
    ∷ []

pub font8x8_kernel : List (List ℕ)
unfolding printable
font8x8_kernel = replicate 32 (replicate 8 0) ++ printable
