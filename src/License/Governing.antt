-- ===== src/License/Governing.antt =====
-- Which license governs a skill, or a file outside the skills.
use skillcdn.Common.{
  Bool, ◌&&◌, not, List, [], ◌∷◌, Option, none, some, if◌then◌else◌, length, keep, find, defined,
  ltb,
}
use skillcdn.Text.{Text, codes, slash, same, has_unit}
use skillcdn.RepoPath.{RepoPath, is_within_repo_path}
use skillcdn.RepoLayout.{parent_directory}
use skillcdn.License.{LicenseFact, no_license_fact}
use skillcdn.License.Field.{classify_license_field}

-- A `license` field, by where it stands.
pub record LicenseField : Type 0 where
  pub path : RepoPath
  pub value : Text

pub record LicenseSources : Type 0 where
  pub skill_file : Option LicenseFact
  pub skill_field : Option LicenseField
  pub manifest_fields : List LicenseField
  pub root_file : Option LicenseFact

unfoldable pub classify_optional : Option LicenseField → Option LicenseFact
classify_optional none = none
classify_optional (some field) = classify_license_field field.path field.value

-- The loop over the nested manifests.
unfoldable pub first_declared : List LicenseField → Option LicenseFact
first_declared [] = none
first_declared (field ∷ fields) = elim (classify_license_field field.path field.value) [
  | some fact ↦ some fact
  | none ↦ first_declared fields
]

abbrev pub is_nested : LicenseField → Bool
is_nested field = has_unit slash field.path

abbrev pub is_at_root : LicenseField → Bool
is_at_root field = not (has_unit slash field.path)

-- `fromRoot ?? NO_LICENSE`.
abbrev pub or_none : Option LicenseFact → LicenseFact
or_none none = no_license_fact
or_none (some fact) = fact

unfoldable pub resolve_license : LicenseSources → LicenseFact
unfolding classify_optional first_declared
resolve_license sources = elim sources.skill_file [
  | some fact ↦ fact
  | none ↦ elim (classify_optional sources.skill_field) [
    | some declared ↦ declared
    | none ↦ elim (first_declared (keep is_nested sources.manifest_fields)) [
      | some fact ↦ fact
      | none ↦ elim sources.root_file [
        | some fact ↦ fact
        | none ↦ or_none (classify_optional (find is_at_root sources.manifest_fields))
      ]
    ]
  ]
]

-- What an index entry says about licenses.
pub record LicensedEntry : Type 0 where
  pub path : Text
  pub kind : Text
  pub license : Option Text

unfoldable pub governs : RepoPath → LicensedEntry → Bool
governs path entry =
    same entry.kind (codes "manifest")
    && (defined entry.license
        && (has_unit slash entry.path && is_within_repo_path (parent_directory entry.path) path))

-- The longest paths first, those of one length in the order in which they came.
unfoldable pub insert_longest : LicensedEntry → List LicensedEntry → List LicensedEntry
insert_longest entry [] = entry ∷ []
insert_longest entry (first ∷ entries) =
    let rest = insert_longest entry entries in
    if ltb (length entry.path) (length first.path) then first ∷ rest else entry ∷ first ∷ entries

unfoldable pub sort_longest : List LicensedEntry → List LicensedEntry
unfolding insert_longest
sort_longest [] = []
sort_longest (entry ∷ entries) = insert_longest entry (sort_longest entries)

-- `manifest.license ?? ""`.
abbrev pub field_of : LicensedEntry → LicenseField
field_of entry = record {
  path = entry.path;
  value = elim entry.license [ none ↦ [] | some value ↦ value ];
}

unfoldable pub first_license : List LicensedEntry → Option LicenseFact
first_license [] = none
first_license (entry ∷ entries) =
    elim (classify_license_field (field_of entry).path (field_of entry).value) [
      | some fact ↦ some fact
      | none ↦ first_license entries
    ]

unfoldable pub license_of_path : List LicensedEntry → RepoPath → LicenseFact → LicenseFact
unfolding governs sort_longest first_license
license_of_path entries path repository =
    elim (first_license (sort_longest (keep (governs path) entries))) [
      | some fact ↦ fact
      | none ↦ repository
    ]
