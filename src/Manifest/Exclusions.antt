-- ===== src/Manifest/Exclusions.antt =====
-- The exclusions of a repository manifest are read whole or the manifest is not read.
use skillcdn.Common.{
  ◌≤◌, ◌≡◌, refl, ap, subst, ◌⊎◌, false, List, [], ◌∷◌, ◌++◌, Option, none, some, ltb, length,
  arith, if◌then◌else◌, Bool-cases, Option-cases, inl, inr, All, In, head, tail,
}
use skillcdn.Text.{Text, codes, has}
use skillcdn.Text.Compare.{has→In}
use skillcdn.Result.{Result, ok, err}
use skillcdn.RepoPath.{RepoPath}
use skillcdn.Markdown.FrontMatter.{FrontMatterSplit, absent, unterminated, split_front_matter}
use skillcdn.Manifest.Values.{Value, Fields, get_field, has_field, sequence_of}
use skillcdn.Manifest.Yaml.{YamlOutcome, FrontMatterErrorCode, parse_front_matter}
use skillcdn.Manifest.Fields.{required_text}
use skillcdn.Manifest.RepoManifest.{
  invalid_exclude, invalid_description, too_large, RepoManifestError, ParsedRepoManifest,
  max_excluded_paths, max_repo_manifest_length, max_repo_description_length,
}
use skillcdn.Manifest.Paths.{read_exclude, exclude_from, read_excluded, add_path}
use skillcdn.Manifest.Repo.{
  parse_repo_manifest, of_repo_split, with_repo_fields, with_exclude, read_repo_fields,
  repo_manifest_of,
}

-- An entry of the field whose path is among the exclusions.
abbrev pub IsExcluded : List RepoPath → Value → Type 0
IsExcluded paths item = (path : RepoPath) × (read_excluded item ≡ some path) × In path paths

In-append_left :
    {p : RepoPath} {xs : List RepoPath} (ys : List RepoPath) → In p xs → In p (xs ++ ys)
In-append_left ys (head e) = head e
In-append_left ys (tail m) = tail (In-append_left ys m)

In-append_last : (xs : List RepoPath) (p : RepoPath) → In p (xs ++ (p ∷ []))
In-append_last [] p = head refl
In-append_last (x ∷ xs) p = tail (In-append_last xs p)

In-add_path : (path : RepoPath) (paths : List RepoPath) → In path (add_path path paths)
In-add_path path paths = elim (Bool-cases (has paths path)) [
  | inl known ↦ rw known (has→In paths path known)
  | inr fresh ↦ rw fresh (In-append_last paths path)
]

add_path-keeps :
    {p : RepoPath} (path : RepoPath) (paths : List RepoPath)
    → In p paths
    → In p (add_path path paths)
add_path-keeps path paths m = elim (Bool-cases (has paths path)) [
  | inl known ↦ rw known m
  | inr fresh ↦ rw fresh (In-append_left (path ∷ []) m)
]

exclude_from-keeps :
    (items : List Value) (paths found : List RepoPath) {p : RepoPath}
    → exclude_from paths items ≡ ok found
    → In p paths
    → In p found
unfolding exclude_from
exclude_from-keeps [] paths found h m = let e : paths ≡ found = cc in subst (In _) e m
exclude_from-keeps (item ∷ items) paths found h m = elim (Option-cases (read_excluded item)) [
  | inl e ↦ let q : err invalid_exclude ≡ ok found = rw (e, exclude_from) at h in cc q
  | inr (path, e) ↦
      exclude_from-keeps items (add_path path paths) found (rw (e, exclude_from) at h)
        (add_path-keeps path paths m)
]

exclude_from-All :
    (items : List Value) (paths found : List RepoPath)
    → exclude_from paths items ≡ ok found
    → All (IsExcluded found) items
unfolding exclude_from
exclude_from-All [] paths found h = tt
exclude_from-All (item ∷ items) paths found h = elim (Option-cases (read_excluded item)) [
  | inl e ↦ let q : err invalid_exclude ≡ ok found = rw (e, exclude_from) at h in cc q
  | inr (path, e) ↦
      let rest : exclude_from (add_path path paths) items ≡ ok found = rw (e, exclude_from) at h in
      (
        (
          path,
          e,
          exclude_from-keeps items (add_path path paths) found rest (In-add_path path paths),
        ),
        exclude_from-All items (add_path path paths) found rest,
      )
]

-- What the `exclude` field of some fields makes of the exclusions.
abbrev pub IsReadWhole : Fields → List RepoPath → Type 0
IsReadWhole fields paths =
    ((has_field (codes "exclude") fields ≡ false) × (paths ≡ []))
    ⊎ ((items : List Value) × (sequence_of (get_field (codes "exclude") fields) ≡ some items)
        × (length items ≤ max_excluded_paths)
        × All (IsExcluded paths) items)

read_exclude-IsReadWhole :
    (fields : Fields) (paths : List RepoPath)
    → read_exclude (get_field (codes "exclude") fields) (has_field (codes "exclude") fields)
      ≡ ok paths
    → IsReadWhole fields paths
unfolding read_exclude
read_exclude-IsReadWhole fields paths h = elim (Bool-cases (has_field (codes "exclude") fields)) [
  | inl present ↦
      inr (whole (sequence_of (get_field (codes "exclude") fields)) refl (rw present at h))
  | inr not_there ↦ inl (not_there, let e : ok [] ≡ ok paths = rw not_there at h in cc e)
]
  where
    whole :
        (o : Option (List Value))
        → sequence_of (get_field (codes "exclude") fields) ≡ o
        → elim o [
          | none ↦ err invalid_exclude
          | some items ↦
              if ltb max_excluded_paths (length items)
              then err invalid_exclude
              else exclude_from [] items
        ]
          ≡ ok paths
        → (items : List Value) × (sequence_of (get_field (codes "exclude") fields) ≡ some items)
          × (length items ≤ max_excluded_paths)
          × All (IsExcluded paths) items
    whole none e k = cc
    whole (some items) e k = elim (Bool-cases (ltb max_excluded_paths (length items))) [
      | inl long ↦ let q : err invalid_exclude ≡ ok paths = rw long at k in cc q
      | inr fits ↦ (items, e, ground arith, exclude_from-All items [] paths (rw fits at k))
    ]

-- What `readExclude` gives the reader of fields whose description is read.
with_exclude-IsReadWhole :
    (description source body : Text) (fields : Fields)
    (o : Result (List RepoPath) RepoManifestError) (parsed : ParsedRepoManifest)
    → with_exclude description source body fields o ≡ ok parsed
    → o ≡ ok parsed.manifest.exclude
unfolding repo_manifest_of
with_exclude-IsReadWhole description source body fields (err e) parsed h = cc
with_exclude-IsReadWhole description source body fields (ok exclude) parsed h =
    let e : repo_manifest_of description exclude source body fields ≡ parsed = cc in
    ap (λ p. ok p.manifest.exclude) e

read_repo_fields-IsReadWhole :
    (source body : Text) (fields : Fields) (parsed : ParsedRepoManifest)
    → read_repo_fields source body fields ≡ ok parsed
    → IsReadWhole fields parsed.manifest.exclude
unfolding read_repo_fields
read_repo_fields-IsReadWhole source body fields parsed h =
    elim (Option-cases
      (required_text (get_field (codes "description") fields) max_repo_description_length)) [
        | inl e ↦
            let q : err invalid_description ≡ ok parsed = rw (e, read_repo_fields) at h in cc q
        | inr (d, e) ↦
            read_exclude-IsReadWhole fields parsed.manifest.exclude (
              with_exclude-IsReadWhole d source body fields _ parsed
                (rw (e, read_repo_fields) at h))
      ]

-- When `parseRepoManifest` reads a manifest, its front matter was found and read as fields, and either
-- these have no `exclude` and nothing is excluded, or `exclude` is a sequence of at most 100 entries and
-- each entry has a path that is among the exclusions: no entry is dropped.
pub parse_repo_manifest-IsReadWhole :
    (yaml : Text → YamlOutcome) (input : Text) (parsed : ParsedRepoManifest)
    → parse_repo_manifest yaml input ≡ ok parsed
    → (source body : Text) × (fields : Fields) × (split_front_matter input
        ≡ FrontMatterSplit.found source body)
      × (parse_front_matter yaml source ≡ ok fields)
      × IsReadWhole fields parsed.manifest.exclude
unfolding parse_repo_manifest
parse_repo_manifest-IsReadWhole yaml input parsed h =
    elim (Bool-cases (ltb max_repo_manifest_length (length input))) [
      | inl long ↦ let q : err too_large ≡ ok parsed = rw (long, parse_repo_manifest) at h in cc q
      | inr fits ↦ of_split (split_front_matter input) refl (rw (fits, parse_repo_manifest) at h)
    ]
  where
    of_fields :
        (source body : Text) (r : Result Fields FrontMatterErrorCode)
        → split_front_matter input ≡ FrontMatterSplit.found source body
        → parse_front_matter yaml source ≡ r
        → with_repo_fields source body r ≡ ok parsed
        → (s b : Text) × (fields : Fields) × (split_front_matter input ≡ FrontMatterSplit.found s b)
          × (parse_front_matter yaml s ≡ ok fields)
          × IsReadWhole fields parsed.manifest.exclude
    of_fields source body (err code) e f k = cc
    of_fields source body (ok fields) e f k =
        (source, body, fields, e, f, read_repo_fields-IsReadWhole source body fields parsed k)

    of_split :
        (s : FrontMatterSplit)
        → split_front_matter input ≡ s
        → of_repo_split yaml s ≡ ok parsed
        → (source body : Text) × (fields : Fields) × (split_front_matter input
            ≡ FrontMatterSplit.found source body)
          × (parse_front_matter yaml source ≡ ok fields)
          × IsReadWhole fields parsed.manifest.exclude
    of_split (absent body) e k = cc
    of_split unterminated e k = cc
    of_split (FrontMatterSplit.found source body) e k =
        of_fields source body (parse_front_matter yaml source) e refl k
