-- ===== src/Browse/Languages.antt =====
-- Which language a child of packages/core/src/browse-tree.ts has: the walk ends within its fuel.
use skillcdn.Common.{
  ℕ, zero, suc, ◌<◌, ◌≡◌, ap, ◌∙◌, sym, ◌≢◌, [], ◌⊎◌, inl, inr, List, Option, none, some, arith,
  length, Bool-cases, Option-cases,
}
use skillcdn.Text.{Text, same}
use skillcdn.Text.Compare.{same_iff}
use skillcdn.RepoPath.{RepoPath, root_path}
use skillcdn.RepoPath.Within.{Under, Under-trans, Under-refl}
use skillcdn.RepoLayout.{parent_directory}
use skillcdn.RepoLayout.Ancestors.{parent-Under, above_parent, parent-shorter, above_root}
use skillcdn.Browse.{CatalogFile, Catalog, Child, entry_at}
use skillcdn.Browse.Entries.{of_file, language_from, entry_of}

-- The language that the manifest of a directory declares.
abbrev pub declared : List (RepoPath × CatalogFile) → RepoPath → Option Text
declared manifests path = of_file (entry_at path manifests) (λ m. m.language)

-- The language of a path is that of the nearest directory at or above it that declares one.
pub data IsLanguage (manifests : List (RepoPath × CatalogFile)) (path : RepoPath)
    : Option Text → Type 0 where
  undeclared :
      ((q : RepoPath) → Under q path → declared manifests q ≡ none) → IsLanguage manifests path none
  of_nearest :
      (nearest : RepoPath) (language : Text)
      → Under nearest path
      → declared manifests nearest ≡ some language
      → ((q : RepoPath) → Under q path → (declared manifests q ≡ none) ⊎ Under q nearest)
      → IsLanguage manifests path (some language)

raise :
    (manifests : List (RepoPath × CatalogFile)) (p : RepoPath) (o : Option Text)
    → declared manifests p ≡ none
    → IsLanguage manifests (parent_directory p) o
    → IsLanguage manifests p o
raise manifests p o h (undeclared k) = undeclared (λ q u. elim (above_parent q p u) [
  | inl here ↦ ap (declared manifests) here ∙ h
  | inr up ↦ k q up
])
raise manifests p o h (of_nearest n language u e k) =
    of_nearest n language (Under-trans n (parent_directory p) p u (parent-Under p)) e (λ q v.
      elim (above_parent q p v) [
        | inl here ↦ inl (ap (declared manifests) here ∙ h)
        | inr up ↦ k q up
      ])

language_from-IsLanguage :
    (manifests : List (RepoPath × CatalogFile)) (fuel : ℕ) (p : RepoPath)
    → length p < fuel
    → IsLanguage manifests p (language_from manifests fuel p)
unfolding language_from
language_from-IsLanguage manifests zero p h = absurd (omega arith)
language_from-IsLanguage manifests (suc fuel) p h = elim (Option-cases (declared manifests p)) [
  | inr (language, e) ↦
      rw (e, language_from) (of_nearest p language (Under-refl p) e (λ q u. inr u))
  | inl e ↦ elim (Bool-cases (same p root_path)) [
    | inl root ↦
        let at_root = (same_iff p root_path).0 root in
        rw (e, root, language_from)
          (undeclared (λ q u. ap (declared manifests) (above_root q p u at_root ∙ sym at_root) ∙ e))
    | inr inner ↦
        let not_root : p ≢ [] = λ k. cc (inner, (same_iff p root_path).1 k) in
        let short = parent-shorter p not_root in
        rw (e, inner, language_from)
          (raise manifests p (language_from manifests fuel (parent_directory p)) e
            (language_from-IsLanguage manifests fuel (parent_directory p) (omega arith)))
  ]
]

-- Whatever the catalogue, the language of an entry is what the nearest manifest at or above the child
-- declares that declares one, and is missing only if none does.
pub entry_of-IsLanguage :
    (c : Catalog) (path : RepoPath) (child : Child)
    → IsLanguage c.manifests path (entry_of c path child).language
unfolding entry_of
entry_of-IsLanguage c path child =
    language_from-IsLanguage c.manifests (suc (length path)) path (omega arith)
