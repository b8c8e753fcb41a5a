-- ===== src/Manifest/Skill.antt =====
-- packages/core/src/skill-manifest.ts: the reader of SKILL.md. An error and a warning are what their
-- messages say; `yaml` is the YAML package.
use skillcdn.Common.{
  ℕ, Bool, ◌&&◌, ◌||◌, not, List, [], ◌∷◌, ◌++◌, Option, none, some, ltb, leb, if◌then◌else◌,
  length, is_empty, map, all,
}
use skillcdn.Text.{Text, codes, split, same}
use skillcdn.Result.{Result, ok, err}
use skillcdn.RepoPath.{RepoPath}
use skillcdn.RepoLayout.{base_name}
use skillcdn.Markdown.FrontMatter.{
  FrontMatterSplit, absent, unterminated, split_front_matter, max_front_matter_length,
}
use skillcdn.Manifest.Values.{Value, Fields, get_field, is_missing, mapping_of}
use skillcdn.Manifest.Yaml.{YamlOutcome, FrontMatterErrorCode, parse_front_matter}
use skillcdn.Manifest.Fields.{
  Ignored, no_mapping, required_text, required_line, optional_text, read_metadata,
  read_translations, max_optional_field_length, is_lower_letter,
}
use skillcdn.Manifest.Scalars.{commented_value_warnings}
use skillcdn.Manifest.Included.{read_included_files}

abbrev pub max_skill_manifest_length : ℕ
max_skill_manifest_length = 262144

abbrev pub max_skill_name_length : ℕ
max_skill_name_length = 64

abbrev pub max_skill_description_length : ℕ
max_skill_description_length = 1024

abbrev pub max_skill_compatibility_length : ℕ
max_skill_compatibility_length = 500

abbrev pub max_skill_title_length : ℕ
max_skill_title_length = 200

pub record SkillTranslation : Type 0 where
  pub title : Option Text
  pub description : Option Text

pub record SkillManifest : Type 0 where
  pub name : Text
  pub description : Text
  pub license : Option Text
  pub compatibility : Option Text
  pub allowed_tools : Option Text
  pub metadata : List (Text × Text)
  pub included : List RepoPath
  pub translations : List (Text × SkillTranslation)
  pub body : Text

pub data SkillManifestError : Type 0 where
  too_large : SkillManifestError
  missing_front_matter : SkillManifestError
  unterminated_front_matter : SkillManifestError
  invalid_front_matter : FrontMatterErrorCode → SkillManifestError
  invalid_name : SkillManifestError
  invalid_description : SkillManifestError

pub data SkillManifestWarning : Type 0 where
  long_description : SkillManifestWarning
  unconventional_name : SkillManifestWarning
  name_directory_mismatch : SkillManifestWarning
  ignored_field : Ignored → SkillManifestWarning
  commented_value : Text → SkillManifestWarning

pub record ParsedSkillManifest : Type 0 where
  pub manifest : SkillManifest
  pub warnings : List SkillManifestWarning

unfoldable pub pick_skill_translation : Fields → Option SkillTranslation
unfolding required_line required_text get_field
pick_skill_translation fields =
    let title = required_line (get_field (codes "title") fields) max_skill_title_length in
    let description =
      required_text (get_field (codes "description") fields) max_skill_description_length in
    elim title [
      | some t ↦ some (record { title = some t; description = description })
      | none ↦ elim description [
        | some d ↦ some (record { title = none; description = some d })
        | none ↦ none
      ]
    ]

-- `CONVENTIONAL_SKILL_NAME`, by the parts between the hyphens.
abbrev pub is_plain_part : Text → Bool
is_plain_part part =
    not (is_empty part) && all (λ c. is_lower_letter c || (leb b'0' c && leb c b'9')) part

unfoldable pub is_conventional_name : Text → Bool
unfolding split
is_conventional_name name = all is_plain_part (split b'-' name)

abbrev pub name_warnings : Text → RepoPath → List SkillManifestWarning
name_warnings name directory =
    (if is_conventional_name name then [] else unconventional_name ∷ [])
    ++ (if not (is_empty directory) && not (same (base_name directory) name)
        then name_directory_mismatch ∷ []
        else [])

-- The part under `skillcdn`.
abbrev pub Own : Type 0
Own = List RepoPath × List (Text × SkillTranslation) × List Ignored

abbrev pub read_own_fields : Fields → RepoPath → Own
read_own_fields own directory =
    let (included, dropped) = read_included_files (get_field (codes "include") own) directory in
    let (translations, lost) =
      read_translations pick_skill_translation (get_field (codes "translations") own) in
    (included, translations, dropped ++ lost)

abbrev pub own_of : Option Fields → Option Value → RepoPath → Own
own_of (some own) value directory = read_own_fields own directory
own_of none value directory =
    ([], [], if is_missing value then [] else no_mapping (codes "skillcdn") ∷ [])

unfoldable pub read_own : Option Value → RepoPath → Own
unfolding read_included_files read_translations pick_skill_translation get_field
read_own value directory = own_of (mapping_of value) value directory

-- The manifest of fields whose name and description are read.
unfoldable pub skill_manifest_of :
    Text → Text → RepoPath → Text → Text → Fields → ParsedSkillManifest
unfolding optional_text read_metadata read_own is_conventional_name commented_value_warnings
    base_name same
skill_manifest_of name description directory source body fields =
    let (included, translations, own) = read_own (get_field (codes "skillcdn") fields) directory in
    let (license, a) = optional_text fields (codes "license") max_optional_field_length in
    let (compatibility, b) =
      optional_text fields (codes "compatibility") max_skill_compatibility_length in
    let (allowed_tools, c) =
      optional_text fields (codes "allowed-tools") max_optional_field_length in
    let (metadata, d) = read_metadata (get_field (codes "metadata") fields) in
    record {
      manifest = record {
        name = name;
        description = description;
        license = license;
        compatibility = compatibility;
        allowed_tools = allowed_tools;
        metadata = metadata;
        included = included;
        translations = translations;
        body = body;
      };
      warnings =
          (if ltb max_skill_description_length (length description)
            then long_description ∷ []
            else [])
          ++ (name_warnings name directory
              ++ (map commented_value
                    (commented_value_warnings source (codes "name" ∷ codes "description" ∷ []))
                  ++ map ignored_field (own ++ (a ++ (b ++ (c ++ d))))));
    }

unfoldable pub read_skill_fields :
    RepoPath → Text → Text → Fields → Result ParsedSkillManifest SkillManifestError
unfolding required_line required_text get_field skill_manifest_of
read_skill_fields directory source body fields =
    elim (required_line (get_field (codes "name") fields) max_skill_name_length) [
      | none ↦ err invalid_name
      | some name ↦
          elim (required_text (get_field (codes "description") fields) max_front_matter_length) [
            | none ↦ err invalid_description
            | some description ↦
                ok (skill_manifest_of name description directory source body fields)
          ]
    ]

abbrev pub with_fields :
    RepoPath
    → Text
    → Text
    → Result Fields FrontMatterErrorCode
    → Result ParsedSkillManifest SkillManifestError
with_fields directory source body (err code) = err (invalid_front_matter code)
with_fields directory source body (ok fields) = read_skill_fields directory source body fields

abbrev pub of_split :
    (Text → YamlOutcome)
    → RepoPath
    → FrontMatterSplit
    → Result ParsedSkillManifest SkillManifestError
of_split yaml directory (absent body) = err missing_front_matter
of_split yaml directory unterminated = err unterminated_front_matter
of_split yaml directory (FrontMatterSplit.found source body) =
    with_fields directory source body (parse_front_matter yaml source)

unfoldable pub parse_skill_manifest :
    (Text → YamlOutcome) → Text → RepoPath → Result ParsedSkillManifest SkillManifestError
unfolding split_front_matter parse_front_matter read_skill_fields
parse_skill_manifest yaml text directory =
    if ltb max_skill_manifest_length (length text)
    then err too_large
    else of_split yaml directory (split_front_matter text)
