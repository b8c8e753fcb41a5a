-- ===== src/Manifest/Limits.antt =====
-- The bounds of a skill manifest that is read, packages/core/src/skill-manifest.ts.
use skillcdn.Common.{
  ℕ, ◌≤◌, ◌≡◌, refl, subst, ◌⊎◌, Bool, true, false, ◌||◌, List, [], ◌∷◌, Option, none, some, ltb,
  length, arith, if◌then◌else◌, Bool-cases, Option-cases, inl, inr, All, length-append, All-append,
  any, is_empty,
}
use skillcdn.Text.{Text, codes, has}
use skillcdn.Result.{Result, ok, err}
use skillcdn.License.Words.{trim}
use skillcdn.RepoPath.{RepoPath}
use skillcdn.RepoPath.Segments.{IsRepoPath}
use skillcdn.RepoPath.Resolve.{resolve-IsRepoPath}
use skillcdn.RepoLayout.{classify_repo_file}
use skillcdn.Markdown.FrontMatter.{
  FrontMatterSplit, absent, unterminated, split_front_matter, max_front_matter_length,
}
use skillcdn.Manifest.Values.{
  Value, Fields, get_field, text_of, is_missing, mapping_of, sequence_of,
}
use skillcdn.Manifest.Yaml.{YamlOutcome, FrontMatterErrorCode, parse_front_matter}
use skillcdn.Manifest.Fields.{is_break, has_unsafe_text, required_text, required_line}
use skillcdn.Manifest.Included.{
  IncludedFiles, is_page, is_usable, included_path, included_in, add_file, include_path,
  include_from, read_included_files, max_included_files,
}
use skillcdn.Manifest.Skill.{
  ParsedSkillManifest, too_large, invalid_name, invalid_description, read_own, own_of,
  skill_manifest_of, read_skill_fields, with_fields, of_split, parse_skill_manifest,
  max_skill_manifest_length, max_skill_name_length,
}

-- A text from 1 to `bound` code units, each safe to display.
abbrev pub IsText : ℕ → Text → Type 0
IsText bound t = (is_empty t ≡ false) × (length t ≤ bound) × (has_unsafe_text t ≡ false)

unless-some :
    (b : Bool) (u t : Text) → (if b then none else some u) ≡ some t → (b ≡ false) × (u ≡ t)
unless-some true u t h = cc
unless-some false u t h = (refl, cc)

IsText-tests :
    (bound : ℕ) (t : Text)
    → (is_empty t || ltb bound (length t) || has_unsafe_text t) ≡ false
    → IsText bound t
IsText-tests bound t h = ground arith

pub required_text-IsText :
    (value : Option Value) (bound : ℕ) (t : Text)
    → required_text value bound ≡ some t
    → IsText bound t
unfolding required_text
required_text-IsText value bound t h = go (text_of value) refl
  where
    go : (o : Option Text) → text_of value ≡ o → IsText bound t
    go none e = let q : none ≡ some t = rw (e, required_text) at h in cc q
    go (some raw) e =
        let (safe, q) = unless-some _ (trim raw) t (rw (e, required_text) at h) in
        subst (IsText bound) q (IsText-tests bound (trim raw) safe)

pub required_line-IsText :
    (value : Option Value) (bound : ℕ) (t : Text)
    → required_line value bound ≡ some t
    → IsText bound t × (any is_break t ≡ false)
unfolding required_line
required_line-IsText value bound t h = elim (Option-cases (required_text value bound)) [
  | inl e ↦ let q : none ≡ some t = rw (e, required_line) at h in cc q
  | inr (u, e) ↦ elim (Bool-cases (any is_break u)) [
    | inl broken ↦ let q : none ≡ some t = rw (e, broken, required_line) at h in cc q
    | inr whole ↦
        let q : some u ≡ some t = rw (e, whole, required_line) at h in
        let p : u ≡ t = cc q in
        subst (λ x. IsText bound x × (any is_break x ≡ false)) p
          (required_text-IsText value bound u e, whole)
  ]
]

-- A page of the repository that may go with a skill.
abbrev pub IsIncluded : RepoPath → Type 0
IsIncluded path = IsRepoPath path × (is_page (classify_repo_file path) ≡ true)

abbrev pub AreIncluded : List RepoPath → Type 0
AreIncluded files = (length files ≤ max_included_files) × All IsIncluded files

include_path-AreIncluded :
    (o : Option RepoPath) (s : IncludedFiles)
    → ((path : RepoPath) → o ≡ some path → IsRepoPath path)
    → AreIncluded s.files
    → AreIncluded (include_path o s).files
unfolding include_path
include_path-AreIncluded none s sound h = h
include_path-AreIncluded (some path) s sound h = elim (Bool-cases (is_usable path s)) [
  | inl usable ↦ rw usable (go (sound path refl) usable (Bool-cases (has s.files path)))
  | inr useless ↦ rw useless h
]
  where
    go :
        IsRepoPath path
        → is_usable path s ≡ true
        → (has s.files path ≡ true) ⊎ (has s.files path ≡ false)
        → AreIncluded (add_file path s).files
    go valid usable (inl known) = rw known h
    go valid usable (inr fresh) = rw fresh (
        let fits : ltb (length s.files) max_included_files ≡ true = ground arith in
        (
          rw (length-append s.files (path ∷ [])) (ground arith),
          All-append IsIncluded s.files (path ∷ []) h.1 ((valid, ground arith), tt),
        ))

included_path-IsRepoPath :
    (directory : RepoPath) (item : Value) (path : RepoPath)
    → included_path directory item ≡ some path
    → IsRepoPath path
included_path-IsRepoPath directory item path h = go (text_of (some item)) refl
  where
    go : (o : Option Text) → text_of (some item) ≡ o → IsRepoPath path
    go none e = let q : none ≡ some path = rw (e, included_path) at h in cc q
    go (some t) e = resolve-IsRepoPath directory (trim t) path (rw (e, included_path) at h)

include_from-AreIncluded :
    (directory : RepoPath) (items : List Value) (s : IncludedFiles)
    → AreIncluded s.files
    → AreIncluded (include_from directory s items).files
unfolding include_from
include_from-AreIncluded directory [] s h = h
include_from-AreIncluded directory (item ∷ items) s h = include_from-AreIncluded directory items _ (
    include_path-AreIncluded (included_path directory item) s
      (included_path-IsRepoPath directory item) h)

included_in-AreIncluded :
    (directory : RepoPath) (o : Option (List Value)) → AreIncluded (included_in directory o).files
unfolding include_path
included_in-AreIncluded directory none = (ground arith, tt)
included_in-AreIncluded directory (some items) =
    include_from-AreIncluded directory items _ (ground arith, tt)

pub read_included_files-AreIncluded :
    (value : Option Value) (directory : RepoPath)
    → AreIncluded (read_included_files value directory).0
unfolding read_included_files include_path include_from
read_included_files-AreIncluded value directory = elim (Bool-cases (is_missing value)) [
  | inl missing ↦ rw missing (ground arith, tt)
  | inr there ↦ rw there (included_in-AreIncluded directory (sequence_of value))
]

read_own-AreIncluded :
    (value : Option Value) (directory : RepoPath) → AreIncluded (read_own value directory).0
unfolding read_own
read_own-AreIncluded value directory = go (mapping_of value)
  where
    go : (o : Option Fields) → AreIncluded (own_of o value directory).0
    go none = (ground arith, tt)
    go (some own) = read_included_files-AreIncluded (get_field (codes "include") own) directory

-- What holds of the manifest of a skill that is served.
pub record IsWithinLimits (parsed : ParsedSkillManifest) : Type 0 where
  pub name : IsText max_skill_name_length parsed.manifest.name
  pub one_line : any is_break parsed.manifest.name ≡ false
  pub description : IsText max_front_matter_length parsed.manifest.description
  pub included : AreIncluded parsed.manifest.included

read_skill_fields-IsWithinLimits :
    (directory : RepoPath) (source body : Text) (fields : Fields) (parsed : ParsedSkillManifest)
    → read_skill_fields directory source body fields ≡ ok parsed
    → IsWithinLimits parsed
unfolding read_skill_fields skill_manifest_of
read_skill_fields-IsWithinLimits directory source body fields parsed h =
    elim (Option-cases (required_line (get_field (codes "name") fields) max_skill_name_length)) [
      | inl e ↦ let q : err invalid_name ≡ ok parsed = rw (e, read_skill_fields) at h in cc q
      | inr (name, e) ↦
          elim (Option-cases
            (required_text (get_field (codes "description") fields) max_front_matter_length)) [
              | inl f ↦
                  let q : err invalid_description ≡ ok parsed = rw (e, f, read_skill_fields) at h in
                  cc q
              | inr (description, f) ↦
                  let q : ok (skill_manifest_of name description directory source body fields)
                      ≡ ok parsed =
                    rw (e, f, read_skill_fields) at h in
                  let line =
                    required_line-IsText (get_field (codes "name") fields) max_skill_name_length
                      name e in
                  let p : skill_manifest_of name description directory source body fields ≡ parsed =
                    cc q in
                  subst IsWithinLimits p (record {
                    name = line.0;
                    one_line = line.1;
                    description =
                        required_text-IsText (get_field (codes "description") fields)
                          max_front_matter_length description f;
                    included = read_own-AreIncluded (get_field (codes "skillcdn") fields) directory;
                  })
            ]
    ]

-- Whatever the file and its YAML say, when `parseSkillManifest` reads a manifest its name is one line of
-- 1 to 64 characters and its description has 1 to 16,384, both without unsafe text, and the files that go
-- with the skill are at most 20 and are each a repository path of a Markdown or JSON file.
pub parse_skill_manifest-IsWithinLimits :
    (yaml : Text → YamlOutcome) (text : Text) (directory : RepoPath) (parsed : ParsedSkillManifest)
    → parse_skill_manifest yaml text directory ≡ ok parsed
    → IsWithinLimits parsed
unfolding parse_skill_manifest
parse_skill_manifest-IsWithinLimits yaml text directory parsed h =
    elim (Bool-cases (ltb max_skill_manifest_length (length text))) [
      | inl long ↦ let q : err too_large ≡ ok parsed = rw (long, parse_skill_manifest) at h in cc q
      | inr fits ↦ of_found (split_front_matter text) (rw (fits, parse_skill_manifest) at h)
    ]
  where
    of_fields :
        (source body : Text) (r : Result Fields FrontMatterErrorCode)
        → with_fields directory source body r ≡ ok parsed
        → IsWithinLimits parsed
    of_fields source body (err code) k = cc
    of_fields source body (ok fields) k =
        read_skill_fields-IsWithinLimits directory source body fields parsed k

    of_found :
        (s : FrontMatterSplit) → of_split yaml directory s ≡ ok parsed → IsWithinLimits parsed
    of_found (absent body) k = cc
    of_found unterminated k = cc
    of_found (FrontMatterSplit.found source body) k =
        of_fields source body (parse_front_matter yaml source) k
