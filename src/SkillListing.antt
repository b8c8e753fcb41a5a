-- ===== src/SkillListing.antt =====
-- packages/core/src/skill-listing.ts: which skills the skills extension lists.
pub mod Limits
mod Tests
use skillcdn.Common.{
  ℕ, ◌+◌, ◌*◌, Bool, true, false, ◌&&◌, not, List, [], ◌∷◌, ◌++◌, Option, none, some, ltb, is_empty,
  length, if◌then◌else◌,
}
use skillcdn.Text.{Text, codes, same}
use skillcdn.Text.Decimal.{decimal}
use skillcdn.RepoPath.{RepoPath}
use skillcdn.RepoLayout.{base_name, is_hidden_path}

abbrev pub skill_listing_max_files : ℕ
skill_listing_max_files = 512

abbrev pub skill_listing_max_bytes : ℕ
skill_listing_max_bytes = 16 * 1024 * 1024

pub data SkillListingProblem : Type 0 where
  name_directory_mismatch too_many_files too_large file_unavailable duplicate hidden uri_collision :
      SkillListingProblem

pub record SkillListingInput : Type 0 where
  pub directory : RepoPath
  pub name : Text
  pub sizes : List ℕ

-- `files.reduce((total, file) => total + file.size, 0)`.
unfoldable pub total_size : ℕ → List ℕ → ℕ
total_size total [] = total
total_size total (size ∷ sizes) = total_size (total + size) sizes

unfoldable pub skill_listing_problem : SkillListingInput → Option SkillListingProblem
unfolding total_size
skill_listing_problem input =
    if not (is_empty input.directory) && not (same (base_name input.directory) input.name)
    then some name_directory_mismatch
    else if ltb skill_listing_max_files (length input.sizes)
    then some too_many_files
    else if ltb skill_listing_max_bytes (total_size 0 input.sizes)
    then some too_large
    else none

pub record OverLimit : Type 0 where
  pub path : Text
  pub size : ℕ
  pub limit : ℕ

unfoldable pub describe_omitted_file : OverLimit → Text
unfolding decimal
describe_omitted_file file =
    file.path
    ++ (codes " is over the read limit ("
        ++ (decimal file.size
            ++ (codes " bytes; the limit is "
                ++ (decimal file.limit
                    ++ codes
                        ") and is left out of the skill; the served SKILL.md names it with where to fetch it."))))

unfoldable pub is_hidden_skill : RepoPath → Bool
is_hidden_skill directory = not (is_empty directory) && is_hidden_path directory

-- A detail in brackets, or nothing.
abbrev pub in_brackets : Option Text → Text
in_brackets none = []
in_brackets (some detail) = codes " (" ++ (detail ++ codes ")")

-- A detail behind some words, or nothing.
abbrev pub behind : Text → Option Text → Text
behind words none = []
behind words (some detail) = words ++ detail

unfoldable pub describe_listing_problem : SkillListingProblem → Option Text → Text
describe_listing_problem name_directory_mismatch detail =
    codes "Not listed through the skills extension: the directory must be named after the skill."
describe_listing_problem too_many_files detail =
    codes "Not listed through the skills extension: a skill may have at most 512 files."
describe_listing_problem too_large detail =
    codes "Not listed through the skills extension: a skill may total at most 16777216 bytes."
describe_listing_problem file_unavailable detail =
    codes "Not listed through the skills extension: a file of the skill could not be served whole"
    ++ (in_brackets detail ++ codes ".")
describe_listing_problem duplicate detail =
    codes "Listed once through the skills extension"
    ++ (behind (codes ", as ") detail ++ codes ": this copy is identical.")
describe_listing_problem hidden detail =
    codes
      "Not listed or searched: a skill under a hidden directory is discoverable only when the repository has no visible skill."
describe_listing_problem uri_collision detail =
    codes
      "Not listed through the skills extension: the repository has a directory named after the root skill"
    ++ (in_brackets detail ++ codes ".")
