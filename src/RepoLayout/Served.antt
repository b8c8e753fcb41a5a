-- ===== src/RepoLayout/Served.antt =====
-- Which files are served: `isServedPath` against its rules.
use skillcdn.Common.{
  ◌≡◌, refl, ap, ◌∙◌, ◌≢◌, ◌↔◌, ◌⊎◌, inl, inr, Bool, true, false, ◌&&◌, ◌||◌, not, List, [], ◌∷◌,
  arith, Option, none, some, Bool-cases, In, if◌then◌else◌, any, any-true, any-In, is_empty,
  Option-cases,
}
use skillcdn.Text.{same}
use skillcdn.Text.Compare.{same_iff}
use skillcdn.RepoPath.{RepoPath, relative_repo_path}
use skillcdn.RepoPath.Within.{Under}
use skillcdn.RepoLayout.{
  ServedScope, parent_directory, nearest_directory_at_or_above, owning_skill_directory,
  is_excluded_path, has_optional, repo_manifest_path, is_hidden_path, is_public_descendant,
  default_document_directories, declared_by, is_governed, is_of_skill, is_served_path,
}
use skillcdn.RepoLayout.Excluded.{Excludes, is_excluded_iff}

-- A file below a directory, with no hidden name on the way.
pub record IsPublic (path directory : RepoPath) : Type 0 where
  pub relative : RepoPath
  pub below : relative_repo_path directory path ≡ some relative
  pub proper : relative ≢ []
  pub visible : is_hidden_path relative ≡ false

is_public_descendant_iff :
    (path directory : RepoPath)
    → (is_public_descendant path directory ≡ true) ↔ IsPublic path directory
unfolding is_public_descendant
is_public_descendant_iff path directory = (to, from)
  where
    kept :
        (r : RepoPath)
        → (not (is_empty r) && not (is_hidden_path r)) ≡ true
        → (r ≢ []) × (is_hidden_path r ≡ false)
    kept [] h = cc
    kept (c ∷ r) h = (λ e. cc, ground arith)

    to : is_public_descendant path directory ≡ true → IsPublic path directory
    to h = elim (Option-cases (relative_repo_path directory path)) [
      | inl e ↦ cc (rw (e, is_public_descendant) at h)
      | inr (r, e) ↦
          let (n, v) = kept r (rw (e, is_public_descendant) at h) in
          record { relative = r; below = e; proper = n; visible = v }
    ]

    proper_length : (r : RepoPath) → r ≢ [] → is_empty r ≡ false
    proper_length [] n = absurd (n refl)
    proper_length (c ∷ r) n = refl

    from : IsPublic path directory → is_public_descendant path directory ≡ true
    from p = rw (p.below, is_public_descendant, proper_length p.relative p.proper, p.visible)

-- The rules of service for a file that nothing excludes.
pub data Serves (path : RepoPath) (scope : ServedScope) : Type 0 where
  of_skill :
      (skill : RepoPath)
      → owning_skill_directory path scope.skill_directories ≡ some skill
      → IsPublic path skill
      → Serves path scope
  included : has_optional scope.included_files path ≡ true → Serves path scope
  by_default :
      (directory : RepoPath)
      → nearest_directory_at_or_above (parent_directory path) scope.manifest_directories ≡ none
      → In directory default_document_directories
      → IsPublic path directory
      → Serves path scope
  manifest :
      (governing : RepoPath)
      → nearest_directory_at_or_above (parent_directory path) scope.manifest_directories
        ≡ some governing
      → path ≡ repo_manifest_path governing
      → Serves path scope
  declared :
      (governing directory : RepoPath)
      → nearest_directory_at_or_above (parent_directory path) scope.manifest_directories
        ≡ some governing
      → In directory (declared_by scope.document_directories governing)
      → IsPublic path directory
      → Serves path scope

any-IsPublic :
    (path : RepoPath) (ds : List RepoPath)
    → any (is_public_descendant path) ds ≡ true
    → (d : RepoPath) × In d ds × IsPublic path d
any-IsPublic path ds h =
    let (d, m, e) = any-true (is_public_descendant path) ds h in
    (d, m, (is_public_descendant_iff path d).0 e)

IsPublic-any :
    (path : RepoPath) (ds : List RepoPath) (d : RepoPath)
    → In d ds
    → IsPublic path d
    → any (is_public_descendant path) ds ≡ true
IsPublic-any path ds d m p =
    any-In (is_public_descendant path) m ((is_public_descendant_iff path d).1 p)

governed→Serves :
    (path : RepoPath) (scope : ServedScope) (governing : Option RepoPath)
    → nearest_directory_at_or_above (parent_directory path) scope.manifest_directories ≡ governing
    → is_governed path scope governing ≡ true
    → Serves path scope
unfolding is_governed
governed→Serves path scope none e h =
    let (d, m, p) = any-IsPublic path default_document_directories h in by_default d e m p
governed→Serves path scope (some g) e h = elim (Bool-cases (same path (repo_manifest_path g))) [
  | inl here ↦ manifest g e ((same_iff path (repo_manifest_path g)).0 here)
  | inr other_file ↦
      let (d, m, p) =
        any-IsPublic path (declared_by scope.document_directories g) (rw other_file at h) in
      declared g d e m p
]

skill→Serves :
    (path : RepoPath) (scope : ServedScope) (skill : Option RepoPath)
    → owning_skill_directory path scope.skill_directories ≡ skill
    → is_of_skill path skill ≡ true
    → Serves path scope
unfolding is_of_skill
skill→Serves path scope none e h = cc
skill→Serves path scope (some s) e h = of_skill s e ((is_public_descendant_iff path s).0 h)

served→Serves :
    (path : RepoPath) (scope : ServedScope)
    → is_served_path path scope ≡ true
    → (is_excluded_path path scope ≡ false) × Serves path scope
unfolding is_served_path
served→Serves path scope h = elim (Bool-cases (is_excluded_path path scope)) [
  | inl out ↦ cc (rw out at h)
  | inr clear ↦ (clear, rule (rw clear at h))
]
  where
    rule :
        (if is_of_skill path (owning_skill_directory path scope.skill_directories)
              || has_optional scope.included_files path
            then true
            else is_governed path scope
                (nearest_directory_at_or_above (parent_directory path) scope.manifest_directories))
          ≡ true
        → Serves path scope
    rule k =
        elim (Bool-cases (is_of_skill path (owning_skill_directory path scope.skill_directories))) [
          | inl s ↦ skill→Serves path scope _ refl s
          | inr n ↦ elim (Bool-cases (has_optional scope.included_files path)) [
            | inl i ↦ included i
            | inr m ↦ governed→Serves path scope _ refl (rw (n, m) at k)
          ]
        ]

some_rule :
    (out of_skill include governed : Bool)
    → out ≡ false
    → (of_skill ≡ true) ⊎ (include ≡ true) ⊎ (governed ≡ true)
    → (if out then false else if of_skill || include then true else governed) ≡ true
some_rule true a b c h k = cc
some_rule false true b c h k = refl
some_rule false false true c h k = refl
some_rule false false false c h (inl k) = cc
some_rule false false false c h (inr (inl k)) = cc
some_rule false false false c h (inr (inr k)) = k

governed_true : (a b : Bool) → (a ≡ true) ⊎ (b ≡ true) → (if a then true else b) ≡ true
governed_true true b h = refl
governed_true false b (inl h) = cc
governed_true false b (inr h) = h

governed→served :
    (path : RepoPath) (scope : ServedScope) (governing : Option RepoPath)
    → is_excluded_path path scope ≡ false
    → nearest_directory_at_or_above (parent_directory path) scope.manifest_directories ≡ governing
    → is_governed path scope governing ≡ true
    → is_served_path path scope ≡ true
unfolding is_served_path
governed→served path scope governing h e k =
    some_rule _ (is_of_skill path (owning_skill_directory path scope.skill_directories))
      (has_optional scope.included_files path) _ h (inr (inr (ap (is_governed path scope) e ∙ k)))

Serves→served :
    (path : RepoPath) (scope : ServedScope)
    → is_excluded_path path scope ≡ false
    → Serves path scope
    → is_served_path path scope ≡ true
unfolding is_served_path is_of_skill is_governed
Serves→served path scope h (of_skill s e p) =
    some_rule _ _ (has_optional scope.included_files path) _ h
      (inl (ap (is_of_skill path) e ∙ (is_public_descendant_iff path s).1 p))
Serves→served path scope h (included i) =
    some_rule _ (is_of_skill path (owning_skill_directory path scope.skill_directories)) _ _ h
      (inr (inl i))
Serves→served path scope h (by_default d e m p) =
    governed→served path scope none h e (IsPublic-any path default_document_directories d m p)
Serves→served path scope h (manifest g e k) = governed→served path scope (some g) h e (
    governed_true _ (any (is_public_descendant path) (declared_by scope.document_directories g))
      (inl ((same_iff path (repo_manifest_path g)).1 k)))
Serves→served path scope h (declared g d e m p) = governed→served path scope (some g) h e (
    governed_true (same path (repo_manifest_path g)) _
      (inr (IsPublic-any path (declared_by scope.document_directories g) d m p)))

-- `isServedPath` answers true exactly for the files that nothing at or above them excludes and that
-- one of the rules serves: as a visible file of the nearest skill above, as an include, as a visible
-- file of the default directories where no manifest governs, as the manifest that governs itself, or
-- as a visible file of a directory that the governing manifest declares.
pub is_served_iff :
    (path : RepoPath) (scope : ServedScope)
    → (is_served_path path scope ≡ true)
      ↔ (¬ ((a : RepoPath) × Under a path × Excludes path scope a) × Serves path scope)
is_served_iff path scope = (
  λ h.
      let (clear, rule) = served→Serves path scope h in
      (λ x. cc (clear, (is_excluded_iff path scope).1 x), rule),
  λ (n, rule).
      Serves→served path scope
        (elim (Bool-cases (is_excluded_path path scope)) [
          | inl out ↦ absurd (n ((is_excluded_iff path scope).0 out))
          | inr clear ↦ clear
        ])
        rule,
)
