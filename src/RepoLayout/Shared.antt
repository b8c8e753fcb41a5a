-- ===== src/RepoLayout/Shared.antt =====
-- Which files a skill may include from outside its directory: `isSharedIncludePath`.
use skillcdn.Common.{
  ◌≡◌, refl, ◌↔◌, inl, inr, Bool, true, false, ◌||◌, not, Option, none, some, Bool-cases,
  if◌then◌else◌, defined, List, In, ◌⊎◌,
}
use skillcdn.RepoPath.{RepoPath, is_within_repo_path}
use skillcdn.RepoPath.Within.{Under, under_root, Under-trans, is_within_iff}
use skillcdn.RepoLayout.Ancestors.{IsAnswer, nearest-IsAnswer}
use skillcdn.RepoLayout.{
  RepoFileKind, markdown, json, other, ServedScope, parent_directory, nearest_directory_at_or_above,
  owning_skill_directory, is_served_path, without_includes, or_root, is_document_kind,
  classify_repo_file, is_shared_include_path, has_optional,
}
use skillcdn.RepoLayout.Excluded.{Excludes, excluded, broken}
use skillcdn.RepoLayout.Served.{
  Serves, of_skill, included, by_default, manifest, declared, is_served_iff,
}

-- A rule of service other than the grace of an include.
abbrev pub IsOwnRule : {path : RepoPath} {scope : ServedScope} → Serves path scope → Type 0
IsOwnRule (of_skill s e p) = Unit
IsOwnRule (included i) = ⊥
IsOwnRule (by_default d e m p) = Unit
IsOwnRule (manifest g e k) = Unit
IsOwnRule (declared g d e m p) = Unit

-- Nothing at or above a file excludes it, and one of the rules of service holds of it that is not the
-- grace of an include.
pub record IsServedAlone (path : RepoPath) (scope : ServedScope) : Type 0 where
  pub clear : ¬ ((a : RepoPath) × Under a path × Excludes path scope a)
  pub rule : Serves path scope
  pub own : IsOwnRule rule

-- What makes a file a shared page of a skill.
pub record IsSharedPage (path skill : RepoPath) (scope : ServedScope) : Type 0 where
  pub document : (classify_repo_file path ≡ markdown) ⊎ (classify_repo_file path ≡ json)
  pub outside : ¬ (Under skill path)
  pub unowned : (s : RepoPath) → In s scope.skill_directories → ¬ (Under s (parent_directory path))
  pub governed_above :
      (m : RepoPath)
      → In m scope.manifest_directories
      → Under m (parent_directory path)
      → Under m skill
  pub served_alone : IsServedAlone path scope

four_tests :
    (document inside owned above served : Bool)
    → ((if not document || inside
          then false
          else if owned
          then false
          else if not above
          then false
          else served)
        ≡ true)
      ↔ ((document ≡ true) × (inside ≡ false) × (owned ≡ false) × (above ≡ true) × (served ≡ true))
four_tests false b c d e = (λ h. cc, λ (h, i, o, a, s). cc)
four_tests true true c d e = (λ h. cc, λ (k, h, o, a, s). cc)
four_tests true false true d e = (λ h. cc, λ (k, i, h, a, s). cc)
four_tests true false false false e = (λ h. cc, λ (k, i, o, h, s). cc)
four_tests true false false true e = (λ h. (refl, refl, refl, refl, h), λ (k, i, o, a, h). h)

not_within : (a b : RepoPath) → (is_within_repo_path a b ≡ false) ↔ (¬ (Under a b))
not_within a b = (
  λ h u. cc (h, (is_within_iff a b).1 u),
  λ n. elim (Bool-cases (is_within_repo_path a b)) [
    | inl e ↦ absurd (n ((is_within_iff a b).0 e))
    | inr e ↦ e
  ],
)

undefined_iff : {A : Type 0} (o : Option A) → (defined o ≡ false) ↔ (o ≡ none)
undefined_iff none = (λ h. refl, λ h. refl)
undefined_iff (some a) = (λ h. cc, λ h. cc)

document_iff : (k : RepoFileKind) → (is_document_kind k ≡ true) ↔ ((k ≡ markdown) ⊎ (k ≡ json))
document_iff RepoFileKind.skill = (λ h. cc, λ h. elim h [ inl e ↦ cc | inr e ↦ cc ])
document_iff RepoFileKind.manifest = (λ h. cc, λ h. elim h [ inl e ↦ cc | inr e ↦ cc ])
document_iff markdown = (λ h. inl refl, λ h. refl)
document_iff json = (λ h. inr refl, λ h. refl)
document_iff other = (λ h. cc, λ h. elim h [ inl e ↦ cc | inr e ↦ cc ])

-- There is no answer exactly if no directory is at or above.
unanswered_iff :
    (ds : List RepoPath) (p : RepoPath) (o : Option RepoPath)
    → IsAnswer ds p o
    → (o ≡ none) ↔ ((d : RepoPath) → In d ds → ¬ (Under d p))
unanswered_iff ds p none k = (λ h. k, λ h. refl)
unanswered_iff ds p (some r) k = (λ h. cc, λ h. absurd (h r k.listed k.above))

-- The nearest directory, or the root, is above a place exactly if every directory at or above is.
nearest_above_iff :
    (ds : List RepoPath) (p place : RepoPath) (o : Option RepoPath)
    → IsAnswer ds p o
    → (Under (or_root o) place) ↔ ((d : RepoPath) → In d ds → Under d p → Under d place)
nearest_above_iff ds p place none k = (λ h d m u. absurd (k d m u), λ h. under_root refl)
nearest_above_iff ds p place (some r) k =
    (λ h d m u. Under-trans d r place (k.closest d m u) h, λ h. h r k.listed k.above)

without_Excludes :
    (path : RepoPath) (scope : ServedScope) (a : RepoPath)
    → Excludes path (without_includes scope) a ↔ Excludes path scope a
without_Excludes path scope a = (to, from)
  where
    to : Excludes path (without_includes scope) a → Excludes path scope a
    to (excluded e) = excluded e
    to (broken e n) = broken e n

    from : Excludes path scope a → Excludes path (without_includes scope) a
    from (excluded e) = excluded e
    from (broken e n) = broken e n

own_rule :
    (path : RepoPath) (scope : ServedScope)
    → Serves path (without_includes scope)
    → (rule : Serves path scope) × IsOwnRule rule
unfolding has_optional
own_rule path scope (of_skill s e p) = (of_skill s e p, tt)
own_rule path scope (included i) = cc
own_rule path scope (by_default d e m p) = (by_default d e m p, tt)
own_rule path scope (manifest g e k) = (manifest g e k, tt)
own_rule path scope (declared g d e m p) = (declared g d e m p, tt)

rule_alone :
    (path : RepoPath) (scope : ServedScope) (rule : Serves path scope)
    → IsOwnRule rule
    → Serves path (without_includes scope)
rule_alone path scope (of_skill s e p) own = of_skill s e p
rule_alone path scope (included i) own = absurd own
rule_alone path scope (by_default d e m p) own = by_default d e m p
rule_alone path scope (manifest g e k) own = manifest g e k
rule_alone path scope (declared g d e m p) own = declared g d e m p

without_includes_iff :
    (path : RepoPath) (scope : ServedScope)
    → (is_served_path path (without_includes scope) ≡ true) ↔ IsServedAlone path scope
without_includes_iff path scope = (
  λ h.
      let (clear, rule) = (is_served_iff path (without_includes scope)).0 h in
      let (r, own) = own_rule path scope rule in
      record {
        clear = λ (a, u, x). clear (a, u, (without_Excludes path scope a).1 x);
        rule = r;
        own = own;
      },
  λ s. (is_served_iff path (without_includes scope)).1 (
    λ (a, u, x). s.clear (a, u, (without_Excludes path scope a).0 x),
    rule_alone path scope s.rule s.own,
  ),
)

-- `isSharedIncludePath` answers true exactly for the shared pages: the Markdown and JSON documents
-- outside the skill, with no skill at or above their directory, such that every manifest at or above
-- that directory is at or above the skill, that nothing excludes and that a rule of service other than
-- the grace of an include serves.
pub is_shared_iff :
    (path skill : RepoPath) (scope : ServedScope)
    → (is_shared_include_path path skill scope ≡ true) ↔ IsSharedPage path skill scope
unfolding is_shared_include_path owning_skill_directory
is_shared_iff path skill scope =
    let nearest =
      nearest_directory_at_or_above (parent_directory path) scope.manifest_directories in
    let owner = owning_skill_directory path scope.skill_directories in
    let (to, from) =
      four_tests (is_document_kind (classify_repo_file path)) (is_within_repo_path skill path)
        (defined owner) (is_within_repo_path (or_root nearest) skill)
        (is_served_path path (without_includes scope)) in
    let unowned =
      unanswered_iff scope.skill_directories (parent_directory path) owner
        (nearest-IsAnswer (parent_directory path) scope.skill_directories) in
    let above =
      nearest_above_iff scope.manifest_directories (parent_directory path) skill nearest
        (nearest-IsAnswer (parent_directory path) scope.manifest_directories) in
    (
      λ h.
          let (d, i, o, a, s) = to h in
          record {
            document = (document_iff (classify_repo_file path)).0 d;
            outside = (not_within skill path).0 i;
            unowned = unowned.0 ((undefined_iff owner).0 o);
            governed_above = above.0 ((is_within_iff (or_root nearest) skill).0 a);
            served_alone = (without_includes_iff path scope).0 s;
          },
      λ p. from (
        (document_iff (classify_repo_file path)).1 p.document,
        (not_within skill path).1 p.outside,
        (undefined_iff owner).1 (unowned.1 p.unowned),
        (is_within_iff (or_root nearest) skill).1 (above.1 p.governed_above),
        (without_includes_iff path scope).1 p.served_alone,
      ),
    )
