-- ===== src/Userspace/Loader.antt =====
-- `LoadUserElfImage`: what an accepted image has.
use uefi_boot_system.Prelude.{
  ℕ, zero, suc, ◌+◌, ◌*◌, ◌%◌, ◌^◌, ◌≤◌, ◌<◌, ◌≡◌, refl, sym, ◌∙◌, subst, Bool, true, not, some,
  ltb, ◌==◌, arith,
}
use uefi_boot_system.Prelude.Cases.{by_if}
use uefi_boot_system.Userspace.Elf.{
  Image, Elf64ProgramHeader, UserElfImage, header_bytes, program_header_bytes, elf_load_segment,
  header_of, program_at, validate_elf64_header, end_address, segment_refused, with_segment,
  load_segments, nothing_loaded, read_elf_image,
}

-- A loadable segment has no more bytes in the file than in memory, and its range does not wrap and
-- lies in the range of the image.
pub record Loads (program : Elf64ProgramHeader) (image_size : ℕ) (loaded : UserElfImage)
    : Type 0 where
  pub small : program.file_size ≤ program.memory_size
  pub in_file : (program.offset + program.file_size) % 2 ^ 64 ≤ image_size
  pub forward : program.virtual_address < end_address program
  pub above : loaded.lowest_address ≤ program.virtual_address
  pub below : end_address program ≤ loaded.highest_address

-- The range only grows.
pub record Widens (a b : UserElfImage) : Type 0 where
  pub entry_same : b.entry ≡ a.entry
  pub lower : 0 < a.segment_count → b.lowest_address ≤ a.lowest_address
  pub higher : a.highest_address ≤ b.highest_address
  pub counted : a.segment_count ≤ b.segment_count

Widens-segment :
    (program : Elf64ProgramHeader) (a : UserElfImage)
    → a.segment_count + 1 < 2 ^ 16
    → Widens a (with_segment program a)
Widens-segment program a few = record {
  entry_same = refl;
  lower = λ some_segment. ground (arith, some_segment);
  higher = ground arith;
  counted = omega (arith, few);
}

load_segments-Widens :
    (n at image_size : ℕ) (image : Image) (a : UserElfImage)
    → a.segment_count + n < 2 ^ 16
    → (load_segments n at image image_size a).0 ≡ true
    → Widens a (load_segments n at image image_size a).1
unfolding load_segments
load_segments-Widens zero at image_size image a few = λ done. record {
  entry_same = refl;
  lower = λ _. omega arith;
  higher = omega arith;
  counted = omega arith;
}
load_segments-Widens (suc n) at image_size image a few =
    let P : Bool × UserElfImage → Type 0 = λ r. r.0 ≡ true → Widens a r.1 in
    let program = program_at image at in
    by_if P (not (program.kind == elf_load_segment)) _ _
      (λ _.
        load_segments-Widens n (at + program_header_bytes) image_size image a (omega (arith, few)))
      (λ _.
        by_if P (segment_refused program image_size) _ _ (λ _ done. absurd (cc done))
          (λ _ done.
            let first = Widens-segment program a (omega (arith, few)) in
            let rest =
              load_segments-Widens n (at + program_header_bytes) image_size image
                (with_segment program a) (omega (arith, few)) done in
            record {
              entry_same = rest.entry_same ∙ first.entry_same;
              lower = λ some_segment. omega (
                arith,
                first.lower some_segment,
                rest.lower (omega (arith, first.counted, some_segment)),
              );
              higher = omega (arith, first.higher, rest.higher);
              counted = omega (arith, first.counted, rest.counted);
            }))

-- Program header `i` from `at` on.
abbrev pub nth_program : Image → ℕ → ℕ → Elf64ProgramHeader
nth_program image at i = program_at image (at + i * program_header_bytes)

abbrev AllLoad : Image → ℕ → ℕ → ℕ → Bool × UserElfImage → Type 0
AllLoad image at n image_size r =
    (i : ℕ)
    → i < n
    → (nth_program image at i).kind ≡ elf_load_segment
    → Loads (nth_program image at i) image_size r.1

-- The first header and the others.
AllLoad-suc :
    (image : Image) (at n image_size : ℕ) (r : Bool × UserElfImage)
    → ((program_at image at).kind ≡ elf_load_segment → Loads (program_at image at) image_size r.1)
    → AllLoad image (at + program_header_bytes) n image_size r
    → AllLoad image at (suc n) image_size r
AllLoad-suc image at n image_size r first rest zero lt =
    let here : at + 0 ≡ at = omega arith in
    subst
      (λ t.
        (program_at image t).kind ≡ elf_load_segment → Loads (program_at image t) image_size r.1)
      (sym here) first
AllLoad-suc image at n image_size r first rest (suc i) lt =
    let there : at + program_header_bytes + i * program_header_bytes
        ≡ at + suc i * program_header_bytes =
      omega arith in
    subst
      (λ t.
        (program_at image t).kind ≡ elf_load_segment → Loads (program_at image t) image_size r.1)
      there (rest i (omega arith))

-- Every loadable segment of a loop that ran to its end is in order.
load_segments-AllLoad :
    (n at image_size : ℕ) (image : Image) (a : UserElfImage)
    → a.segment_count + n < 2 ^ 16
    → (load_segments n at image image_size a).0 ≡ true
    → AllLoad image at n image_size (load_segments n at image image_size a)
unfolding load_segments
load_segments-AllLoad zero at image_size image a few = λ done i lt. absurd (omega arith)
load_segments-AllLoad (suc n) at image_size image a few =
    let P : Bool × UserElfImage → Type 0 =
      λ r. r.0 ≡ true → AllLoad image at (suc n) image_size r in
    let program = program_at image at in
    let next = at + program_header_bytes in
    by_if P (not (program.kind == elf_load_segment)) _ _
      (λ other done.
        AllLoad-suc image at n image_size (load_segments n next image image_size a)
          (λ loadable. absurd (ground (arith, other, loadable)))
          (load_segments-AllLoad n next image_size image a (omega (arith, few)) done))
      (λ _.
        by_if P (segment_refused program image_size) _ _ (λ _ done. absurd (cc done))
          (λ accepted done.
            let b = with_segment program a in
            let grown = Widens-segment program a (omega (arith, few)) in
            let rest = load_segments-Widens n next image_size image b (omega (arith, few)) done in
            AllLoad-suc image at n image_size (load_segments n next image image_size b)
              (λ _. record {
                small = ground (arith, accepted);
                in_file = ground (arith, accepted);
                forward = ground (arith, accepted);
                above = ground (arith, rest.lower (omega (arith, few)));
                below = ground (arith, rest.higher);
              })
              (load_segments-AllLoad n next image_size image b (omega (arith, few)) done)))

-- What `LoadUserElfImage` promises of an image that it accepts.
pub record IsLoaded (image : Image) (image_size : ℕ) (loaded : UserElfImage) : Type 0 where
  pub valid : loaded.valid ≡ true
  pub header : validate_elf64_header (header_of image) image_size ≡ true
  pub entry_from : loaded.entry ≡ (header_of image).entry
  pub entry_above : loaded.lowest_address ≤ loaded.entry
  pub entry_below : loaded.entry < loaded.highest_address
  pub segments :
      (i : ℕ)
      → i < (header_of image).program_header_count
      → (nth_program image (header_of image).program_header_offset i).kind ≡ elf_load_segment
      → Loads (nth_program image (header_of image).program_header_offset i) image_size loaded

-- When `LoadUserElfImage` accepts an image whose program headers are fewer than 65536, its header is
-- valid, its entry lies in the range of the loaded segments, and every loadable segment lies in that
-- range, does not wrap, and has no more bytes in the file than in memory.
pub read_elf_image-IsLoaded :
    (image : Image) (image_size : ℕ)
    → (header_of image).program_header_count < 2 ^ 16
    → (read_elf_image (some image) image_size).0 ≡ true
    → IsLoaded image image_size (read_elf_image (some image) image_size).1
unfolding read_elf_image
read_elf_image-IsLoaded image image_size few =
    let P : Bool × UserElfImage → Type 0 = λ r. r.0 ≡ true → IsLoaded image image_size r.1 in
    let header = header_of image in
    let start : UserElfImage = record nothing_loaded { entry = header.entry } in
    let r =
      load_segments header.program_header_count header.program_header_offset image image_size
        start in
    by_if P (ltb image_size header_bytes) _ _ (λ _ done. absurd (cc done))
      (λ _.
        by_if P (not (validate_elf64_header header image_size)) _ _ (λ _ done. absurd (cc done))
          (λ ok.
            by_if P (not r.0) _ _ (λ _ done. absurd (cc done))
              (λ whole done.
                let all : r.0 ≡ true = ground (arith, whole) in
                let wide =
                  load_segments-Widens header.program_header_count header.program_header_offset
                    image_size image start (omega (arith, few)) all in
                record {
                  valid = done;
                  header = ground (arith, ok);
                  entry_from = wide.entry_same;
                  entry_above = ground (arith, done);
                  entry_below = ground (arith, done);
                  segments = λ i lt loadable.
                      let l =
                        load_segments-AllLoad header.program_header_count
                          header.program_header_offset image_size image start (omega (arith, few))
                          all i lt loadable in
                      record {
                        small = l.small;
                        in_file = l.in_file;
                        forward = l.forward;
                        above = l.above;
                        below = l.below;
                      };
                })))
