-- ===== src/RepoLayout.antt =====
-- packages/core/src/repo-layout.ts: how the files of a repository are read, and which are served.
pub mod Selection
pub mod Extensions
pub mod Ancestors
pub mod Excluded
pub mod Served
pub mod Shared
pub mod Overviews
pub mod Readme
mod Tests
use skillcdn.Common.{
  ℕ, zero, suc, ◌+◌, ◌-◌, Bool, true, false, ◌&&◌, ◌||◌, not, List, [], ◌∷◌, Option, none, some,
  ltb, ◌==◌, if◌then◌else◌, length, is_empty, take, drop, any, keep, defined,
}
use skillcdn.Text.{
  Text, codes, slash, same, less, starts_with, ends_with, last_index_of, split, has, to_lower,
}
use skillcdn.RepoPath.{RepoPath, root_path, is_within_repo_path, relative_repo_path, join_repo_path}

abbrev pub skill_manifest_file : Text
skill_manifest_file = codes "SKILL.md"

abbrev pub repo_manifest_file : Text
repo_manifest_file = codes "SKILLCDN.md"

pub data RepoFileKind : Type 0 where
  skill manifest markdown json other : RepoFileKind

abbrev pub markdown_extensions : List Text
markdown_extensions = codes ".md" ∷ codes ".markdown" ∷ codes ".mdx" ∷ []

-- `path.slice(path.lastIndexOf("/") + 1)`.
unfoldable pub base_name : RepoPath → Text
base_name path = elim (last_index_of slash path) [ none ↦ path | some i ↦ drop (suc i) path ]

unfoldable pub parent_directory : RepoPath → RepoPath
parent_directory path = elim (last_index_of slash path) [ none ↦ root_path | some i ↦ take i path ]

unfoldable pub is_hidden_path : RepoPath → Bool
is_hidden_path path = any (λ segment. starts_with segment (codes ".")) (split slash path)

unfoldable pub classify_repo_file : RepoPath → RepoFileKind
unfolding base_name
classify_repo_file path =
    let name = base_name path in
    let lower_name = to_lower name in
    if same name skill_manifest_file
    then skill
    else if same name repo_manifest_file
    then manifest
    else if any (λ extension. ends_with lower_name extension) markdown_extensions
    then markdown
    else if ends_with lower_name (codes ".json")
    then json
    else other

-- `dot <= 0` holds of -1 and of 0.
unfoldable pub extension_of : RepoPath → Text
unfolding base_name
extension_of path =
    let name = base_name path in
    elim (last_index_of b'.' name) [
      | none ↦ []
      | some zero ↦ []
      | some (suc i) ↦ to_lower (drop (suc (suc i)) name)
    ]

-- The loop of `nearestDirectoryAtOrAbove`. Each round shortens the path, so that a fuel above its
-- length is enough.
unfoldable pub nearest_from : ℕ → RepoPath → List RepoPath → Option RepoPath
unfolding parent_directory
nearest_from zero current directories = none
nearest_from (suc fuel) current directories =
    let rest = nearest_from fuel (parent_directory current) directories in
    if has directories current then some current else if same current root_path then none else rest

unfoldable pub nearest_directory_at_or_above : RepoPath → List RepoPath → Option RepoPath
unfolding nearest_from
nearest_directory_at_or_above directory directories =
    nearest_from (suc (length directory)) directory directories

unfoldable pub owning_skill_directory : RepoPath → List RepoPath → Option RepoPath
unfolding nearest_directory_at_or_above parent_directory
owning_skill_directory path skill_directories =
    nearest_directory_at_or_above (parent_directory path) skill_directories

unfoldable pub repo_manifest_path : RepoPath → RepoPath
repo_manifest_path directory = join_repo_path directory repo_manifest_file

abbrev pub default_document_directories : List RepoPath
default_document_directories = codes "docs" ∷ []

-- A set is the list of its items; a map is the list of its entries.
pub record ServedScope : Type 0 where
  pub skill_directories : List RepoPath
  pub manifest_directories : List RepoPath
  pub document_directories : List (RepoPath × List RepoPath)
  pub included_files : Option (List RepoPath)
  pub excluded_paths : Option (List RepoPath)
  pub broken_manifest_directories : Option (List RepoPath)

-- `set?.has(path)`.
unfoldable pub has_optional : Option (List RepoPath) → RepoPath → Bool
has_optional none path = false
has_optional (some paths) path = has paths path

-- What one round of the loop of `isExcludedPath` tests.
unfoldable pub excludes_at : RepoPath → ServedScope → RepoPath → Bool
unfolding has_optional repo_manifest_path
excludes_at path scope current =
    has_optional scope.excluded_paths current
    || (has_optional scope.broken_manifest_directories current
        && not (same path (repo_manifest_path current)))

unfoldable pub excluded_from : ℕ → RepoPath → ServedScope → RepoPath → Bool
unfolding excludes_at parent_directory
excluded_from zero path scope current = false
excluded_from (suc fuel) path scope current =
    let rest = excluded_from fuel path scope (parent_directory current) in
    if excludes_at path scope current then true else if same current root_path then false else rest

unfoldable pub is_excluded_path : RepoPath → ServedScope → Bool
unfolding excluded_from
is_excluded_path path scope = excluded_from (suc (length path)) path scope path

unfoldable pub is_public_descendant : RepoPath → RepoPath → Bool
unfolding is_hidden_path
is_public_descendant path directory = elim (relative_repo_path directory path) [
  | none ↦ false
  | some relative ↦ not (is_empty relative) && not (is_hidden_path relative)
]

-- `map.get(key) ?? []`.
unfoldable pub declared_by : List (RepoPath × List RepoPath) → RepoPath → List RepoPath
declared_by [] key = []
declared_by ((k, v) ∷ entries) key = if same k key then v else declared_by entries key

-- What the manifest that governs a file serves, or the default directories.
unfoldable pub is_governed : RepoPath → ServedScope → Option RepoPath → Bool
unfolding is_public_descendant declared_by repo_manifest_path
is_governed path scope none = any (is_public_descendant path) default_document_directories
is_governed path scope (some governing) =
    if same path (repo_manifest_path governing)
    then true
    else any (is_public_descendant path) (declared_by scope.document_directories governing)

unfoldable pub is_of_skill : RepoPath → Option RepoPath → Bool
unfolding is_public_descendant
is_of_skill path none = false
is_of_skill path (some directory) = is_public_descendant path directory

unfoldable pub is_served_path : RepoPath → ServedScope → Bool
unfolding is_excluded_path is_of_skill owning_skill_directory is_governed
    nearest_directory_at_or_above has_optional parent_directory
is_served_path path scope =
    if is_excluded_path path scope
    then false
    else if is_of_skill path (owning_skill_directory path scope.skill_directories)
        || has_optional scope.included_files path
    then true
    else is_governed path scope
        (nearest_directory_at_or_above (parent_directory path) scope.manifest_directories)

-- `governing ?? ROOT_PATH`.
abbrev pub or_root : Option RepoPath → RepoPath
or_root none = root_path
or_root (some path) = path

abbrev pub without_includes : ServedScope → ServedScope
without_includes scope = record scope { included_files = none }

abbrev pub is_document_kind : RepoFileKind → Bool
is_document_kind markdown = true
is_document_kind json = true
is_document_kind _ = false

unfoldable pub is_shared_include_path : RepoPath → RepoPath → ServedScope → Bool
unfolding classify_repo_file owning_skill_directory nearest_directory_at_or_above is_served_path
    parent_directory
is_shared_include_path path skill_directory scope =
    if not (is_document_kind (classify_repo_file path)) || is_within_repo_path skill_directory path
    then false
    else if defined (owning_skill_directory path scope.skill_directories)
    then false
    else if not (
        is_within_repo_path
          (or_root
            (nearest_directory_at_or_above (parent_directory path) scope.manifest_directories))
          skill_directory)
    then false
    else is_served_path path (without_includes scope)
