-- ===== src/Filesystem/Paths.antt =====
-- kernel/src/filesystem.cpp: `PathHasPrefix`.
use mathlib.Core.List.{append-nil}
use uefi_boot_system.Prelude.{
  ℕ, ◌≡◌, ◌≢◌, ◌↔◌, ◌⊎◌, inl, inr, refl, ap, sym, ◌∙◌, subst, Bool, true, false, [], ◌∷◌, ◌++◌,
  Option, none, some, if◌then◌else◌, ◌==◌, arith, Bool-cases,
}
use uefi_boot_system.Prelude.Text.{
  Text, text, string_equals, string_length, string_equals_sound, string_equals_refl,
}

-- `path[prefix_length] == '\0' || path[prefix_length] == '/'`, at what is left of the path.
unfoldable pub ends_component : Text → Bool
ends_component [] = true
ends_component (c ∷ rest) = c == b'/'

-- The loop over the prefix. Where the path ends first, its terminator differs from the prefix.
unfoldable pub prefix_loop : Text → Text → Bool
unfolding ends_component
prefix_loop rest [] = ends_component rest
prefix_loop [] (p ∷ prefix) = false
prefix_loop (c ∷ rest) (p ∷ prefix) = if c == p then prefix_loop rest prefix else false

unfoldable pub starts_with_slash : Text → Bool
starts_with_slash [] = false
starts_with_slash (c ∷ rest) = c == b'/'

unfoldable pub path_has_prefix : Option Text → Option Text → Bool
unfolding prefix_loop starts_with_slash string_length
path_has_prefix none prefix = false
path_has_prefix (some path) none = false
path_has_prefix (some path) (some prefix) =
    if string_length (some prefix) == 0
    then false
    else if string_equals (some prefix) (some (text "/"))
    then starts_with_slash path
    else prefix_loop path prefix

-- The path is the prefix, or continues it with a slash.
abbrev pub Continues : Text → Text → Type 0
Continues prefix path = (path ≡ prefix) ⊎ ((rest : Text) × (path ≡ prefix ++ b'/' ∷ rest))

-- The prefix covers the path, component by component; "/" covers every absolute path.
abbrev pub Covers : Text → Text → Type 0
Covers prefix path =
    ((prefix ≡ text "/") × ((rest : Text) × (path ≡ b'/' ∷ rest)))
    ⊎ ((prefix ≢ []) × Continues prefix path)

Continues-cons :
    (c : ℕ) (path prefix : Text) → Continues prefix path → Continues (c ∷ prefix) (c ∷ path)
Continues-cons c path prefix (inl e) = inl (ap (λ t. c ∷ t) e)
Continues-cons c path prefix (inr (rest, e)) = inr (rest, ap (λ t. c ∷ t) e)

prefix_loop_sound : (path prefix : Text) → prefix_loop path prefix ≡ true → Continues prefix path
unfolding prefix_loop
prefix_loop_sound [] [] h = inl refl
prefix_loop_sound (c ∷ rest) [] h = inr (rest, ground arith)
prefix_loop_sound [] (p ∷ prefix) h = cc
prefix_loop_sound (c ∷ rest) (p ∷ prefix) h =
    let same : c ≡ p = ground arith in
    rw same (Continues-cons p rest prefix (prefix_loop_sound rest prefix (ground arith)))

prefix_loop-append :
    (prefix rest : Text) → prefix_loop (prefix ++ rest) prefix ≡ ends_component rest
unfolding prefix_loop
prefix_loop-append [] [] = refl
prefix_loop-append [] (c ∷ rest) = refl
prefix_loop-append (p ∷ prefix) rest = ground (arith, prefix_loop-append prefix rest)

prefix_loop_complete : (path prefix : Text) → Continues prefix path → prefix_loop path prefix ≡ true
unfolding ends_component
prefix_loop_complete path prefix (inl e) =
    rw e (ap (λ t. prefix_loop t prefix) (sym (append-nil prefix)) ∙ prefix_loop-append prefix [])
prefix_loop_complete path prefix (inr (rest, e)) = rw e (prefix_loop-append prefix (b'/' ∷ rest))

-- Past "/", a prefix that continues to the path starts with a slash when the path does.
starts_with_slash_root : (path : Text) → Covers (text "/") path → starts_with_slash path ≡ true
unfolding starts_with_slash
starts_with_slash_root path (inl (_, (rest, e))) = rw e
starts_with_slash_root path (inr (_, inl e)) = rw e
starts_with_slash_root path (inr (_, inr (rest, e))) = rw e

starts_with_slash_sound :
    (path : Text) → starts_with_slash path ≡ true → (rest : Text) × (path ≡ b'/' ∷ rest)
unfolding starts_with_slash
starts_with_slash_sound [] h = cc
starts_with_slash_sound (c ∷ rest) h = (rest, ground arith)

sound : (path prefix : Text) → path_has_prefix (some path) (some prefix) ≡ true → Covers prefix path
unfolding path_has_prefix
sound path [] h = absurd (ground arith)
sound path (p ∷ prefix) h =
    elim (Bool-cases (string_equals (some (p ∷ prefix)) (some (text "/")))) [
      | inl e ↦ inl (
        string_equals_sound (p ∷ prefix) (text "/") e,
        starts_with_slash_sound path (ground arith),
      )
      | inr e ↦ inr (λ n. cc, prefix_loop_sound path (p ∷ prefix) (ground arith))
    ]

complete :
    (path prefix : Text) → Covers prefix path → path_has_prefix (some path) (some prefix) ≡ true
unfolding path_has_prefix
complete path [] (inl h) = absurd (ground (arith, h.0))
complete path [] (inr h) = absurd (h.0 refl)
complete path (p ∷ prefix) h =
    elim (Bool-cases (string_equals (some (p ∷ prefix)) (some (text "/")))) [
      | inl e ↦
          let root : (p ∷ prefix) ≡ text "/" = string_equals_sound (p ∷ prefix) (text "/") e in
          ground (arith, starts_with_slash_root path (subst (λ t. Covers t path) root h))
      | inr e ↦ ground (arith, prefix_loop_complete path (p ∷ prefix) (continues e h))
    ]
  where
    continues :
        string_equals (some (p ∷ prefix)) (some (text "/")) ≡ false
        → Covers (p ∷ prefix) path
        → Continues (p ∷ prefix) path
    continues e (inl (root, _)) =
        absurd (ground (arith, rw root at e, string_equals_refl (text "/")))
    continues e (inr (_, c)) = c

-- `PathHasPrefix` holds exactly when the prefix covers the path, component by component.
pub path_has_prefix_iff :
    (path prefix : Text) → (path_has_prefix (some path) (some prefix) ≡ true) ↔ Covers prefix path
path_has_prefix_iff path prefix = (sound path prefix, complete path prefix)
