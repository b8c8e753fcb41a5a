-- ===== src/Manifest/Tests.antt =====
-- The readers of manifests at concrete files. The YAML package is a function that gives the fields of
-- each file.
use skillcdn.Common.{◌≡◌, refl, true, false, [], ◌∷◌, none, some}
use skillcdn.Text.{Text, codes}
use skillcdn.Result.{ok}
use skillcdn.Markdown.FrontMatter.{FrontMatterSplit, split_front_matter}
use skillcdn.Manifest.Values.{Fields, text, sequence, mapping, end, field, nil, cons}
use skillcdn.Manifest.Yaml.{YamlOutcome, value, parse_front_matter}
use skillcdn.Manifest.Fields.{is_language_tag}
use skillcdn.Manifest.Scalars.{has_colon, plain_scalar_hint, commented_value_warnings}
use skillcdn.Manifest.RepoManifest.{ParsedRepoManifest}
use skillcdn.Manifest.Images.{is_https_url}
use skillcdn.Manifest.Paths.{read_excluded}
use skillcdn.Manifest.Repo.{parse_repo_manifest, repo_manifest_of}
use skillcdn.Manifest.Skill.{
  ParsedSkillManifest, parse_skill_manifest, skill_manifest_of, is_conventional_name,
}
use skillcdn.Manifest.Exclusions.{IsReadWhole, parse_repo_manifest-IsReadWhole}
use skillcdn.Manifest.Limits.{IsWithinLimits, parse_skill_manifest-IsWithinLimits}

tag_tests : is_language_tag (codes "pt-BR") ≡ true
unfolding is_language_tag
tag_tests = refl

tag_needs_small_letters : is_language_tag (codes "EN") ≡ false
unfolding is_language_tag
tag_needs_small_letters = refl

url_with_port : is_https_url (codes "https://cdn.example.org:8443/a.png") ≡ true
unfolding is_https_url
url_with_port = refl

url_with_user : is_https_url (codes "https://me@example.org/") ≡ false
unfolding is_https_url
url_with_user = refl

name_with_hyphens : is_conventional_name (codes "pdf--forms") ≡ false
unfolding is_conventional_name
name_with_hyphens = refl

trailing_slash : read_excluded (text (codes "drafts/")) ≡ some (codes "drafts")
unfolding read_excluded skillcdn.TextSafety.has_forbidden_code_point
    skillcdn.TextSafety.is_well_formed skillcdn.TextSafety.code_points
    skillcdn.TextSafety.is_high_surrogate skillcdn.TextSafety.is_surrogate
    skillcdn.TextSafety.is_forbidden_code_point skillcdn.Text.split
trailing_slash = refl

no_glob : read_excluded (text (codes "drafts/*")) ≡ none
unfolding read_excluded
no_glob = refl

whole_scope : read_excluded (text (codes ".")) ≡ some []
unfolding read_excluded
whole_scope = refl

hint_of_a_colon : plain_scalar_hint (codes "name: a: b") ≡ some (has_colon (codes "name"))
unfolding plain_scalar_hint
hint_of_a_colon = refl

cut_value :
    commented_value_warnings (codes "name: issue #3") (codes "name" ∷ []) ≡ codes "name" ∷ []
unfolding commented_value_warnings
cut_value = refl

abbrev repo_fields : Fields
repo_fields = field (text (codes "description")) (text (codes "Guides")) (
    field (text (codes "exclude"))
      (sequence (cons (text (codes "drafts/")) (cons (text (codes "notes.md")) nil))) end)

abbrev repo_yaml : Text → YamlOutcome
repo_yaml source = value (some (mapping repo_fields))

abbrev file : Text
file = codes "---\nx\n---\nBody"

abbrev skill_fields : Fields
skill_fields = field (text (codes "name")) (text (codes "forms")) (
    field (text (codes "description")) (text (codes "Fills forms")) (
      field (text (codes "skillcdn"))
        (mapping (
          field (text (codes "include"))
            (sequence (cons (text (codes "page.md")) (cons (text (codes "run.sh")) nil))) end))
        end))

abbrev skill_yaml : Text → YamlOutcome
skill_yaml source = value (some (mapping skill_fields))

abbrev repo_parsed : ParsedRepoManifest
repo_parsed =
    repo_manifest_of (codes "Guides") (codes "drafts" ∷ codes "notes.md" ∷ []) (codes "x\n")
      (codes "Body") repo_fields

repo_is_read : parse_repo_manifest repo_yaml file ≡ ok repo_parsed
unfolding parse_repo_manifest skillcdn.Markdown.FrontMatter.split_front_matter
    skillcdn.Markdown.FrontMatter.closed_at skillcdn.TextSafety.has_forbidden_code_point
    skillcdn.TextSafety.is_well_formed skillcdn.TextSafety.code_points
    skillcdn.TextSafety.is_high_surrogate skillcdn.TextSafety.is_surrogate
    skillcdn.TextSafety.is_forbidden_code_point skillcdn.Text.split skillcdn.Text.join
repo_is_read = refl

parse_repo_manifest-IsReadWhole_example :
    (source body : Text) × (fields : Fields) × (split_front_matter file
      ≡ FrontMatterSplit.found source body)
    × (parse_front_matter repo_yaml source ≡ ok fields)
    × IsReadWhole fields repo_parsed.manifest.exclude
parse_repo_manifest-IsReadWhole_example =
    parse_repo_manifest-IsReadWhole repo_yaml file repo_parsed repo_is_read

abbrev skill_parsed : ParsedSkillManifest
skill_parsed =
    skill_manifest_of (codes "forms") (codes "Fills forms") (codes "forms") (codes "x\n")
      (codes "Body") skill_fields

skill_is_read : parse_skill_manifest skill_yaml file (codes "forms") ≡ ok skill_parsed
unfolding parse_skill_manifest skillcdn.Markdown.FrontMatter.split_front_matter
    skillcdn.Markdown.FrontMatter.closed_at skillcdn.TextSafety.has_forbidden_code_point
    skillcdn.TextSafety.is_well_formed skillcdn.TextSafety.code_points
    skillcdn.TextSafety.is_high_surrogate skillcdn.TextSafety.is_surrogate
    skillcdn.TextSafety.is_forbidden_code_point skillcdn.Text.split skillcdn.Text.join
skill_is_read = refl

parse_skill_manifest-IsWithinLimits_example : IsWithinLimits skill_parsed
parse_skill_manifest-IsWithinLimits_example =
    parse_skill_manifest-IsWithinLimits skill_yaml file (codes "forms") skill_parsed skill_is_read
