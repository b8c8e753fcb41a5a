-- ===== src/RepoLayout/Tests.antt =====
-- Runs on a small repository, and the theorems at inputs where their hypotheses hold.
use skillcdn.Common.{◌≡◌, refl, ◌↔◌, true, false, [], ◌∷◌, some, none}
use skillcdn.Text.{
  codes, split, join, same, starts_with, ends_with, has, last_index_of, to_lower, less,
}
use skillcdn.RepoPath.{RepoPath, is_within_repo_path, relative_repo_path, join_repo_path}
use skillcdn.RepoPath.Within.{Under}
use skillcdn.RepoLayout.{
  ServedScope, parent_directory, is_excluded_path, is_served_path, is_shared_include_path,
  nearest_directory_at_or_above, without_includes, owning_skill_directory, extension_of,
}
use skillcdn.RepoLayout.Selection.{select_readme_paths, select_readmes, selected_of}
use skillcdn.RepoLayout.Extensions.{is_image_path, is_binary_path}
use skillcdn.RepoLayout.Ancestors.{IsAnswer, nearest-IsAnswer}
use skillcdn.RepoLayout.Excluded.{Excludes, is_excluded_iff}
use skillcdn.RepoLayout.Served.{Serves, is_served_iff}
use skillcdn.RepoLayout.Shared.{IsSharedPage, is_shared_iff}
use skillcdn.RepoLayout.Readme.{IsOverviewOf, select_readmes_lem}

run : Unit {0}
unfolding parent_directory is_excluded_path is_served_path is_shared_include_path
    nearest_directory_at_or_above select_readme_paths split join same starts_with ends_with has
    last_index_of to_lower is_within_repo_path relative_repo_path join_repo_path less extension_of
    is_image_path is_binary_path owning_skill_directory
run = tt

abbrev scope : ServedScope
scope = record {
  skill_directories = codes "skills/a" ∷ codes "skills/a/inner" ∷ [];
  manifest_directories = codes "skills" ∷ [];
  document_directories = (codes "skills", codes "skills/docs" ∷ []) ∷ [];
  included_files = none;
  excluded_paths = some (codes "skills/a/secret" ∷ []);
  broken_manifest_directories = none;
}

abbrev page : RepoPath
page = codes "skills/docs/p.md"

abbrev skill_directory : RepoPath
skill_directory = codes "skills/a"

inner_owner :
    owning_skill_directory (codes "skills/a/inner/x.md") scope.skill_directories
    ≡ some (codes "skills/a/inner")
unfolding run
inner_owner = refl

served : is_served_path (codes "skills/a/x.md") scope ≡ true
unfolding run
served = refl

withheld : is_served_path (codes "skills/a/secret/x.md") scope ≡ false
unfolding run
withheld = refl

shared : is_shared_include_path page skill_directory scope ≡ true
unfolding run
shared = refl

page_served : is_served_path page (without_includes scope) ≡ true
unfolding run
page_served = refl

pictures :
    (is_image_path (codes "a/b.SVG") ≡ true)
    × (is_binary_path (codes "a/b.svg") ≡ false)
    × (is_binary_path (codes "x.tar.gz") ≡ true)
unfolding run
pictures = (refl, refl, refl)

overview :
    select_readme_paths
      (codes "d/readme.md" ∷ codes "d/README.md" ∷ codes "d/x.md" ∷ [])
      (codes "d" ∷ [])
    ≡ codes "d/README.md" ∷ []
unfolding run
overview = refl

nearest-IsAnswer_example :
    IsAnswer scope.skill_directories
      (codes "skills/a/inner/x")
      (nearest_directory_at_or_above (codes "skills/a/inner/x") scope.skill_directories)
nearest-IsAnswer_example = nearest-IsAnswer (codes "skills/a/inner/x") scope.skill_directories

is_excluded_iff_example : (is_excluded_path (codes "skills/a/secret/x.md") scope ≡ true) ↔ (
    (a : RepoPath) × Under a (codes "skills/a/secret/x.md")
    × Excludes (codes "skills/a/secret/x.md") scope a)
is_excluded_iff_example = is_excluded_iff (codes "skills/a/secret/x.md") scope

is_served_iff_example :
    (is_served_path page scope ≡ true)
    ↔ (¬ ((a : RepoPath) × Under a page × Excludes page scope a) × Serves page scope)
is_served_iff_example = is_served_iff page scope

is_shared_iff_example :
    (is_shared_include_path page skill_directory scope ≡ true)
    ↔ IsSharedPage page skill_directory scope
is_shared_iff_example = is_shared_iff page skill_directory scope

select_readmes_lem_example :
    IsOverviewOf (codes "d/readme.md" ∷ codes "d/README.md" ∷ []) (codes "d" ∷ []) (codes "d") (
      selected_of
        (select_readmes (codes "d" ∷ []) [] (codes "d/readme.md" ∷ codes "d/README.md" ∷ []))
        (codes "d"))
select_readmes_lem_example =
    select_readmes_lem (codes "d" ∷ []) (codes "d/readme.md" ∷ codes "d/README.md" ∷ []) (codes "d")
