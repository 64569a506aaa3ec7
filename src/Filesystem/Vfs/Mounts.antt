-- ===== src/Filesystem/Vfs/Mounts.antt =====
-- `VfsFindMount` finds the mount with the longest path that covers the path.
use uefi_boot_system.Prelude.{
  ℕ, ◌≤◌, ◌≡◌, ◌⊎◌, inl, inr, refl, true, false, not, ◌||◌, List, [], ◌∷◌, Option, none, some, ltb,
  arith, Bool-cases, Member, All,
}
use uefi_boot_system.Prelude.Text.{Text, string_length}
use uefi_boot_system.Prelude.Registry.{entries}
use uefi_boot_system.Filesystem.Paths.{path_has_prefix}
use uefi_boot_system.Filesystem.Vfs.{VfsMount, FileSystem, find_mount_loop, vfs_find_mount}

-- An active mount whose path covers the path.
abbrev pub Serves : Option Text → VfsMount → Type 0
Serves path m = (m.active ≡ true) × (path_has_prefix path m.path ≡ true)

-- No mount of the list that serves the path has a longer path than `n`.
abbrev pub Longest : Option Text → ℕ → List VfsMount → Type 0
Longest path n = All (λ m. Serves path m → string_length m.path ≤ n)

-- What the search answers.
abbrev pub Answers : Option Text → List VfsMount → Option VfsMount → Type 0
Answers path mounts none = All (λ m. Serves path m → ⊥) mounts
Answers path mounts (some m) =
    Member m mounts × Serves path m × Longest path (string_length m.path) mounts

module _ (path : Option Text) where
  unserved :
      (x : VfsMount)
      → (not x.active || not (path_has_prefix path x.path)) ≡ true
      → Serves path x
      → ⊥
  unserved x e s = ground (arith, s.0, s.1)

  served :
      (x : VfsMount) → (not x.active || not (path_has_prefix path x.path)) ≡ false → Serves path x
  served x e = (ground arith, ground arith)

  skipped :
      (x : VfsMount)
      → (not x.active || not (path_has_prefix path x.path)) ≡ true
      → (mounts : List VfsMount) (answer : Option VfsMount) → Answers path mounts answer
      → Answers path (x ∷ mounts) answer
  skipped x e mounts none a = (unserved x e, a)
  skipped x e mounts (some m) (here, s, best) = (inr here, s, (λ t. absurd (unserved x e t), best))

  joined :
      (x m : VfsMount) (mounts : List VfsMount)
      → (not x.active || not (path_has_prefix path x.path)) ≡ false
      → (m ≡ x) ⊎ (Member m mounts × Serves path m)
      → Member m (x ∷ mounts) × Serves path m
  joined x m mounts e (inl same) = (inl same, rw same (served x e))
  joined x m mounts e (inr (here, s)) = (inr here, s)

  -- With a best mount, the loop ends with one at least as long, and as long as every one it saw.
  loop_some :
      (b : VfsMount) (mounts : List VfsMount)
      → (m : VfsMount) × (find_mount_loop path mounts (some b) (string_length b.path) ≡ some m)
        × ((m ≡ b) ⊎ (Member m mounts × Serves path m))
        × (string_length b.path ≤ string_length m.path)
        × Longest path (string_length m.path) mounts
  unfolding find_mount_loop
  loop_some b [] = (b, refl, inl refl, omega arith, tt)
  loop_some b (x ∷ xs) = elim (Bool-cases (not x.active || not (path_has_prefix path x.path))) [
    | inl e ↦
        let (m, run, from, longer, best) = loop_some b xs in
        (m, rw e run, ascend m from, longer, (λ s. absurd (unserved x e s), best))
    | inr e ↦ elim (Bool-cases (ltb (string_length b.path) (string_length x.path))) [
      | inl l ↦
          let (m, run, from, longer, best) = loop_some x xs in
          (m, rw (e, l) run, inr (joined x m xs e from), ground arith, (λ s. longer, best))
      | inr l ↦
          let (m, run, from, longer, best) = loop_some b xs in
          (m, rw (e, l) run, ascend m from, longer, (λ s. ground arith, best))
    ]
  ]
    where
      ascend :
          (m : VfsMount)
          → (m ≡ b) ⊎ (Member m xs × Serves path m)
          → (m ≡ b) ⊎ (Member m (x ∷ xs) × Serves path m)
      ascend m (inl same) = inl same
      ascend m (inr (here, s)) = inr (inr here, s)

  loop_none : (mounts : List VfsMount) → Answers path mounts (find_mount_loop path mounts none 0)
  unfolding find_mount_loop
  loop_none [] = tt
  loop_none (x ∷ xs) = elim (Bool-cases (not x.active || not (path_has_prefix path x.path))) [
    | inl e ↦ rw e (skipped x e xs (find_mount_loop path xs none 0) (loop_none xs))
    | inr e ↦
        let (m, run, from, longer, best) = loop_some x xs in
        let (here, s) = joined x m xs e from in rw (e, run) (here, s, (λ t. longer, best))
  ]

-- `VfsFindMount` returns an active mount that covers the path and has a longest path of all such
-- mounts, or null when there is none.
pub vfs_find_mount-Answers :
    (path : Option Text) (fs : FileSystem)
    → Answers path (entries fs.mounts) (vfs_find_mount path fs)
unfolding vfs_find_mount
vfs_find_mount-Answers path fs = loop_none path (entries fs.mounts)
