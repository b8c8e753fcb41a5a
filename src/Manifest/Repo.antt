-- ===== src/Manifest/Repo.antt =====
-- packages/core/src/repo-manifest.ts: the reader of SKILLCDN.md. An error and a warning are what their
-- messages say; `yaml` is the YAML package.
use skillcdn.Common.{
  Bool, true, false, List, [], ◌∷◌, ◌++◌, Option, none, some, ltb, if◌then◌else◌, length, map, any,
}
use skillcdn.Text.{Text, codes, same}
use skillcdn.Result.{Result, ok, err}
use skillcdn.RepoPath.{RepoPath}
use skillcdn.Markdown.FrontMatter.{FrontMatterSplit, absent, unterminated, split_front_matter}
use skillcdn.Manifest.Values.{
  Value, Fields, null, text, flag, sequence, mapping, other, get_field, has_field, is_missing,
  mapping_of,
}
use skillcdn.Manifest.Yaml.{YamlOutcome, FrontMatterErrorCode, parse_front_matter}
use skillcdn.Manifest.Fields.{
  no_mapping, bad_flag, no_line, Read, required_text, required_line, optional_text,
  optional_language, read_metadata, read_translations, max_optional_field_length, is_break,
}
use skillcdn.Manifest.Scalars.{commented_value_warnings}
use skillcdn.Manifest.RepoManifest.{
  max_repo_manifest_length, max_repo_name_length, max_repo_description_length, RepoTranslation,
  RepoSearch, RepoManifestError, too_large, missing_front_matter, unterminated_front_matter,
  invalid_front_matter, invalid_description, ignored_field, commented_value, ParsedRepoManifest,
}
use skillcdn.Manifest.Images.{read_image}
use skillcdn.Manifest.Paths.{read_exclude, read_documents}

unfoldable pub pick_repo_translation : Fields → Option RepoTranslation
unfolding required_line required_text get_field
pick_repo_translation fields =
    let name = required_line (get_field (codes "name") fields) max_repo_name_length in
    let description =
      required_text (get_field (codes "description") fields) max_repo_description_length in
    elim name [
      | some n ↦ some (record { name = some n; description = description })
      | none ↦ elim description [
        | some d ↦ some (record { name = none; description = some d })
        | none ↦ none
      ]
    ]

abbrev pub search_all : RepoSearch
search_all = record { meaning = true; hub = true }

-- On unless written `false`.
unfoldable pub read_search_flag : Option Value → Text → Read Bool
unfolding same
read_search_flag none name = (true, [])
read_search_flag (some null) name = (true, [])
read_search_flag (some (flag b)) name = (b, [])
read_search_flag (some (text t)) name =
    if same t (codes "true")
    then (true, [])
    else if same t (codes "false")
    then (false, [])
    else (true, bad_flag name ∷ [])
read_search_flag (some (sequence vs)) name = (true, bad_flag name ∷ [])
read_search_flag (some (mapping fs)) name = (true, bad_flag name ∷ [])
read_search_flag (some other) name = (true, bad_flag name ∷ [])

unfoldable pub read_search : Option Value → Read RepoSearch
unfolding read_search_flag get_field
read_search value = if is_missing value then (search_all, []) else elim (mapping_of value) [
  | none ↦ (search_all, no_mapping (codes "search") ∷ [])
  | some fields ↦
      let (meaning, a) = read_search_flag (get_field (codes "meaning") fields) (codes "meaning") in
      let (hub, b) = read_search_flag (get_field (codes "hub") fields) (codes "hub") in
      (record { meaning = meaning; hub = hub }, a ++ b)
]

-- A name of more than one line is ignored.
abbrev pub one_line_name : Read (Option Text) → Read (Option Text)
one_line_name (none, reported) = (none, reported)
one_line_name (some name, reported) =
    if any is_break name
    then (none, reported ++ (no_line (codes "name") ∷ []))
    else (some name, reported)

-- The manifest of fields whose description and exclusions are read.
unfoldable pub repo_manifest_of : Text → List RepoPath → Text → Text → Fields → ParsedRepoManifest
unfolding optional_text optional_language read_metadata read_translations pick_repo_translation
    read_image read_documents read_search commented_value_warnings get_field
repo_manifest_of description exclude source body fields =
    let (name, a) = one_line_name (optional_text fields (codes "name") max_repo_name_length) in
    let (image, b) = read_image (get_field (codes "image") fields) in
    let (documents, c) = read_documents (get_field (codes "documents") fields) in
    let (license, d) = optional_text fields (codes "license") max_optional_field_length in
    let (metadata, e) = read_metadata (get_field (codes "metadata") fields) in
    let (language, f) = optional_language fields in
    let (translations, g) =
      read_translations pick_repo_translation (get_field (codes "translations") fields) in
    let (search, h) = read_search (get_field (codes "search") fields) in
    record {
      manifest = record {
        name = name;
        description = description;
        image = image;
        documents = documents;
        exclude = exclude;
        license = license;
        metadata = metadata;
        language = language;
        translations = translations;
        search = search;
        body = body;
      };
      warnings =
          map ignored_field a
          ++ (map commented_value
                (commented_value_warnings source (codes "name" ∷ codes "description" ∷ []))
              ++ (map ignored_field b ++ (c ++ map ignored_field (d ++ (e ++ (f ++ (g ++ h)))))));
    }

abbrev pub with_exclude :
    Text
    → Text
    → Text
    → Fields
    → Result (List RepoPath) RepoManifestError
    → Result ParsedRepoManifest RepoManifestError
with_exclude description source body fields (err e) = err e
with_exclude description source body fields (ok exclude) =
    ok (repo_manifest_of description exclude source body fields)

unfoldable pub read_repo_fields : Text → Text → Fields → Result ParsedRepoManifest RepoManifestError
unfolding required_text get_field has_field read_exclude repo_manifest_of
read_repo_fields source body fields =
    elim (required_text (get_field (codes "description") fields) max_repo_description_length) [
      | none ↦ err invalid_description
      | some description ↦
          with_exclude description source body fields
            (read_exclude (get_field (codes "exclude") fields) (has_field (codes "exclude") fields))
    ]

abbrev pub with_repo_fields :
    Text → Text → Result Fields FrontMatterErrorCode → Result ParsedRepoManifest RepoManifestError
with_repo_fields source body (err code) = err (invalid_front_matter code)
with_repo_fields source body (ok fields) = read_repo_fields source body fields

abbrev pub of_repo_split :
    (Text → YamlOutcome) → FrontMatterSplit → Result ParsedRepoManifest RepoManifestError
of_repo_split yaml (absent body) = err missing_front_matter
of_repo_split yaml unterminated = err unterminated_front_matter
of_repo_split yaml (FrontMatterSplit.found source body) =
    with_repo_fields source body (parse_front_matter yaml source)

unfoldable pub parse_repo_manifest :
    (Text → YamlOutcome) → Text → Result ParsedRepoManifest RepoManifestError
unfolding split_front_matter parse_front_matter read_repo_fields
parse_repo_manifest yaml input =
    if ltb max_repo_manifest_length (length input)
    then err too_large
    else of_repo_split yaml (split_front_matter input)
