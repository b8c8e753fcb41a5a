-- ===== src/RepoLayout/Excluded.antt =====
-- What withholds a file: `isExcludedPath`.
use skillcdn.Common.{
  ℕ, zero, suc, ◌<◌, ◌≡◌, refl, sym, ◌∙◌, ◌≢◌, ◌↔◌, inl, inr, true, [], arith, length, Bool-cases,
  subst,
}
use skillcdn.Text.{same}
use skillcdn.Text.Compare.{same_iff, same_ne}
use skillcdn.RepoPath.{RepoPath, root_path}
use skillcdn.RepoPath.Within.{Under, Under-trans, Under-refl}
use skillcdn.RepoLayout.{
  ServedScope, parent_directory, excludes_at, excluded_from, is_excluded_path, has_optional,
  repo_manifest_path,
}
use skillcdn.RepoLayout.Ancestors.{parent-Under, above_parent, parent-shorter, above_root}

-- What withholds a file: an excluded path, or a broken manifest of which the file is not itself the
-- manifest.
pub data Excludes (path : RepoPath) (scope : ServedScope) (current : RepoPath) : Type 0 where
  excluded : has_optional scope.excluded_paths current ≡ true → Excludes path scope current
  broken :
      has_optional scope.broken_manifest_directories current ≡ true
      → path ≢ repo_manifest_path current
      → Excludes path scope current

excludes_at_iff :
    (path : RepoPath) (scope : ServedScope) (current : RepoPath)
    → (excludes_at path scope current ≡ true) ↔ Excludes path scope current
unfolding excludes_at
excludes_at_iff path scope current = (to, from)
  where
    to : excludes_at path scope current ≡ true → Excludes path scope current
    to h = elim (Bool-cases (has_optional scope.excluded_paths current)) [
      | inl e ↦ excluded e
      | inr n ↦
          broken (ground arith)
            (λ e. ground (arith, (same_iff path (repo_manifest_path current)).1 e))
    ]

    from : Excludes path scope current → excludes_at path scope current ≡ true
    from (excluded e) = rw e
    from (broken e n) = ground (arith, same_ne path (repo_manifest_path current) n)

pub excluded_from_iff :
    (fuel : ℕ) (path : RepoPath) (scope : ServedScope) (current : RepoPath)
    → length current < fuel
    → (excluded_from fuel path scope current ≡ true)
      ↔ ((a : RepoPath) × Under a current × Excludes path scope a)
unfolding excluded_from
excluded_from_iff zero path scope current h = absurd (omega arith)
excluded_from_iff (suc fuel) path scope current h =
    elim (Bool-cases (excludes_at path scope current)) [
      | inl hit ↦ rw hit (
        λ e. (current, Under-refl current, (excludes_at_iff path scope current).0 hit),
        λ e. refl,
      )
      | inr miss ↦ elim (Bool-cases (same current root_path)) [
        | inl root ↦
            let at_root = (same_iff current root_path).0 root in
            rw (miss, root)
              (
                λ e. cc,
                λ (a, u, x).
                    let here = above_root a current u at_root ∙ sym at_root in
                    cc (
                      miss,
                      (excludes_at_iff path scope current).1 (subst (Excludes path scope) here x),
                    ),
              )
        | inr inner ↦
            let not_root : current ≢ [] = λ e. cc (inner, (same_iff current root_path).1 e) in
            let short = parent-shorter current not_root in
            let (to, from) =
              excluded_from_iff fuel path scope (parent_directory current) (omega arith) in
            rw (miss, inner)
              (
                λ e.
                    let (a, u, x) = to e in
                    (a, Under-trans a _ current u (parent-Under current), x),
                λ (a, u, x). elim (above_parent a current u) [
                  | inl here ↦ cc (
                    miss,
                    (excludes_at_iff path scope current).1 (subst (Excludes path scope) here x),
                  )
                  | inr up ↦ from (a, up, x)
                ],
              )
      ]
    ]

-- A file is excluded exactly if something at or above it excludes it: an exclusion cannot be undone
-- by anything nearer.
pub is_excluded_iff :
    (path : RepoPath) (scope : ServedScope)
    → (is_excluded_path path scope ≡ true) ↔ ((a : RepoPath) × Under a path × Excludes path scope a)
unfolding is_excluded_path
is_excluded_iff path scope = excluded_from_iff (suc (length path)) path scope path (omega arith)
