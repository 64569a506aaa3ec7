-- ===== src/Userspace/Elf.antt =====
-- kernel/src/userspace.cpp: ELF headers in the bytes of an image, `LoadUserElfImage`, and the image
-- that the self-tests and the launcher build. A read outside the list of bytes gives 0.
use uefi_boot_system.Prelude.{
  ℕ, zero, suc, ◌+◌, ◌*◌, ◌/◌, ◌%◌, ◌^◌, Bool, true, false, not, ◌&&◌, ◌||◌, List, [], ◌∷◌, Option,
  none, some, if◌then◌else◌, ltb, leb, ◌==◌, get_or, set, replicate,
}
use uefi_boot_system.Userspace.{Userspace}

abbrev pub Image : Type 0
Image = List ℕ

-- A little-endian number of `n` bytes.
abbrev pub read_le : ℕ → Image → ℕ → ℕ
read_le zero image offset = 0
read_le (suc n) image offset = get_or image offset 0 + 256 * read_le n image (offset + 1)

abbrev pub write_le : ℕ → ℕ → ℕ → Image → Image
write_le zero offset value image = image
write_le (suc n) offset value image =
    write_le n (offset + 1) (value / 256) (set image offset (value % 256))

abbrev pub header_bytes : ℕ
header_bytes = 64

abbrev pub program_header_bytes : ℕ
program_header_bytes = 56

abbrev pub elf_load_segment : ℕ
elf_load_segment = 1

-- The fields of the two structures that the source reads or writes by name.
pub record Elf64Header : Type 0 where
  pub ident : List ℕ
  pub kind : ℕ
  pub machine : ℕ
  pub version : ℕ
  pub entry : ℕ
  pub program_header_offset : ℕ
  pub header_size : ℕ
  pub program_header_entry_size : ℕ
  pub program_header_count : ℕ

pub record Elf64ProgramHeader : Type 0 where
  pub kind : ℕ
  pub offset : ℕ
  pub virtual_address : ℕ
  pub file_size : ℕ
  pub memory_size : ℕ

pub record UserElfImage : Type 0 where
  pub entry : ℕ
  pub lowest_address : ℕ
  pub highest_address : ℕ
  pub segment_count : ℕ
  pub valid : Bool

abbrev bytes_from : ℕ → ℕ → Image → List ℕ
bytes_from zero offset image = []
bytes_from (suc n) offset image = get_or image offset 0 ∷ bytes_from n (offset + 1) image

-- The fields at their offsets in the packed structure.
unfoldable pub header_of : Image → Elf64Header
header_of image = record {
  ident = bytes_from 6 0 image;
  kind = read_le 2 image 16;
  machine = read_le 2 image 18;
  version = read_le 4 image 20;
  entry = read_le 8 image 24;
  program_header_offset = read_le 8 image 32;
  header_size = read_le 2 image 52;
  program_header_entry_size = read_le 2 image 54;
  program_header_count = read_le 2 image 56;
}

unfoldable pub program_at : Image → ℕ → Elf64ProgramHeader
program_at image at = record {
  kind = read_le 4 image at;
  offset = read_le 8 image (at + 8);
  virtual_address = read_le 8 image (at + 16);
  file_size = read_le 8 image (at + 32);
  memory_size = read_le 8 image (at + 40);
}

abbrev same_bytes : List ℕ → List ℕ → Bool
same_bytes [] [] = true
same_bytes [] (y ∷ ys) = false
same_bytes (x ∷ xs) [] = false
same_bytes (x ∷ xs) (y ∷ ys) = (x == y) && same_bytes xs ys

unfoldable pub validate_elf64_header : Elf64Header → ℕ → Bool
validate_elf64_header header image_size =
    leb header_bytes image_size
    && same_bytes header.ident (0x7F ∷ 0x45 ∷ 0x4C ∷ 0x46 ∷ 2 ∷ 1 ∷ [])
    && (header.kind == 2)
    && (header.machine == 0x3E)
    && (header.version == 1)
    && (header.header_size == header_bytes)
    && (header.program_header_entry_size == program_header_bytes)
    && ltb 0 header.program_header_count
    && leb
        ((header.program_header_offset + header.program_header_count * program_header_bytes)
          % 2 ^ 64)
        image_size

abbrev pub end_address : Elf64ProgramHeader → ℕ
end_address program = (program.virtual_address + program.memory_size) % 2 ^ 64

-- The tests that a loadable segment has to pass.
abbrev pub segment_refused : Elf64ProgramHeader → ℕ → Bool
segment_refused program image_size =
    ltb program.memory_size program.file_size
    || ltb image_size ((program.offset + program.file_size) % 2 ^ 64)
    || leb (end_address program) program.virtual_address

abbrev pub with_segment : Elf64ProgramHeader → UserElfImage → UserElfImage
with_segment program loaded = record loaded {
  lowest_address =
      if loaded.segment_count == 0 || ltb program.virtual_address loaded.lowest_address
      then program.virtual_address
      else loaded.lowest_address;
  highest_address =
      if ltb loaded.highest_address (end_address program)
      then end_address program
      else loaded.highest_address;
  segment_count = (loaded.segment_count + 1) % 2 ^ 16;
}

-- The loop of `LoadUserElfImage`, with `n` program headers left from `at` on; false for its early
-- returns.
unfoldable pub load_segments : ℕ → ℕ → Image → ℕ → UserElfImage → Bool × UserElfImage
load_segments zero at image image_size loaded = (true, loaded)
load_segments (suc n) at image image_size loaded =
    let program = program_at image at in
    let skipped = load_segments n (at + program_header_bytes) image image_size loaded in
    let more =
      load_segments n (at + program_header_bytes) image image_size (with_segment program loaded) in
    if not (program.kind == elf_load_segment)
    then skipped
    else if segment_refused program image_size
    then (false, loaded)
    else more

abbrev pub nothing_loaded : UserElfImage
nothing_loaded = record {
  entry = 0;
  lowest_address = 0;
  highest_address = 0;
  segment_count = 0;
  valid = false;
}

abbrev pub entry_inside : UserElfImage → Bool
entry_inside loaded =
    ltb 0 loaded.segment_count
    && leb loaded.lowest_address loaded.entry
    && ltb loaded.entry loaded.highest_address

-- The image without the count of loaded images. `none` stands for a null pointer.
unfoldable pub read_elf_image : Option Image → ℕ → Bool × UserElfImage
read_elf_image none image_size = (false, nothing_loaded)
read_elf_image (some image) image_size =
    if ltb image_size header_bytes
    then (false, nothing_loaded)
    else if not (validate_elf64_header (header_of image) image_size)
    then (false, nothing_loaded)
    else (let header = header_of image in
        let (whole, loaded) =
          load_segments header.program_header_count header.program_header_offset image image_size
            (record nothing_loaded { entry = header.entry }) in
        if not whole
        then (false, loaded)
        else (entry_inside loaded, record loaded { valid = entry_inside loaded }))

unfoldable pub load_user_elf_image : Option Image → ℕ → Userspace → Bool × UserElfImage × Userspace
load_user_elf_image image image_size s =
    let (answer, loaded) = read_elf_image image image_size in
    (
      answer,
      loaded,
      if answer
          then record s {
            counts = record s.counts {
              loaded_elf_count = (s.counts.loaded_elf_count + 1) % 2 ^ 32;
            };
          }
          else s,
    )

-- The header and the one program header of `BuildSyntheticAppElf`, over zeros: a segment of `size`
-- bytes at `base_address`, in an image that ends with it.
unfoldable pub synthetic_elf : ℕ → ℕ → Image
synthetic_elf base_address size = write_le 8 112 0x1000 (
    write_le 8 104 size (
      write_le 8 96 size (
        write_le 8 88 base_address (
          write_le 8 80 base_address (
            write_le 8 72 120 (
              write_le 4 64 elf_load_segment (
                write_le 2 56 1 (
                  write_le 2 54 program_header_bytes (
                    write_le 2 52 header_bytes (
                      write_le 8 32 header_bytes (
                        write_le 8 24 base_address (
                          write_le 4 20 1 (
                            write_le 2 18 0x3E (
                              write_le 2 16 2 (
                                write_le 6 0 0x1_02_46_4C_45_7F
                                  (replicate (120 + size) 0))))))))))))))))
