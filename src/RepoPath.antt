-- ===== src/RepoPath.antt =====
-- packages/core/src/repo-path.ts: validated paths inside a repository. The root is the empty text.
pub mod Segments
pub mod Parse
pub mod Within
pub mod Join
pub mod Resolve
mod Tests
use skillcdn.Common.{
  ℕ, suc, ◌+◌, Bool, true, false, ◌&&◌, ◌||◌, not, List, [], ◌∷◌, ◌++◌, Option, none, some, ltb,
  ◌==◌, if◌then◌else◌, length, is_empty, drop,
}
use mathlib.Core.List.{reverse}
use skillcdn.Text.{Text, codes, slash, same, starts_with, has_unit, split, join}
use skillcdn.Result.{Result, ok, err}
use skillcdn.TextSafety.{has_forbidden_code_point}

abbrev pub RepoPath : Type 0
RepoPath = Text

abbrev pub root_path : RepoPath
root_path = []

abbrev pub max_repo_path_length : ℕ
max_repo_path_length = 1024

pub data RepoPathErrorCode : Type 0 where
  too_long absolute empty_segment dot_segment forbidden_character : RepoPathErrorCode

pub record RepoPathError : Type 0 where
  pub code : RepoPathErrorCode
  pub message : Text

abbrev pub fail : RepoPathErrorCode → Text → Result RepoPath RepoPathError
fail code message = err (record { code = code; message = message })

abbrev pub dot : Text
dot = codes "."

abbrev pub dot_dot : Text
dot_dot = codes ".."

-- The loop over `input.split("/")`, and what follows it.
unfoldable pub check_segments : Text → List Text → Result RepoPath RepoPathError
check_segments input [] = ok input
check_segments input (segment ∷ rest) =
    if is_empty segment
    then fail empty_segment (codes "path contains an empty segment")
    else if same segment dot || same segment dot_dot
    then fail dot_segment (codes "path contains a \".\" or \"..\" segment")
    else check_segments input rest

unfoldable pub parse_repo_path : Text → Result RepoPath RepoPathError
unfolding check_segments
parse_repo_path input =
    if is_empty input
    then ok root_path
    else if ltb max_repo_path_length (length input)
    then fail too_long (codes "path is longer than 1024 characters")
    else if starts_with input (slash ∷ [])
    then fail absolute (codes "path must be relative to the repository root")
    else if has_unit b'\\' input || has_forbidden_code_point input
    then fail forbidden_character (codes "path contains a backslash or a control character")
    else check_segments input (split slash input)

-- One round of the loop of `resolveRepoPath`; the last segment is at the head.
unfoldable pub resolve_segment : List Text → Text → Option (List Text)
resolve_segment segments segment =
    if same segment dot
    then some segments
    else if same segment dot_dot
    then elim segments [ [] ↦ none | _ ∷ above ↦ some above ]
    else some (segment ∷ segments)

unfoldable pub resolve_segments : List Text → List Text → Option (List Text)
unfolding resolve_segment
resolve_segments segments [] = some segments
resolve_segments segments (segment ∷ rest) = elim (resolve_segment segments segment) [
  | none ↦ none
  | some next ↦ resolve_segments next rest
]

-- `destination.replace(/^\//, "")`.
unfoldable pub without_leading_slash : Text → Text
without_leading_slash [] = []
without_leading_slash (c ∷ s) = if c == slash then s else c ∷ s

-- `parsed.ok ? parsed.value : undefined`.
abbrev pub value_of : Result RepoPath RepoPathError → Option RepoPath
value_of (ok path) = some path
value_of (err e) = none

-- The segments the walk starts from: none for a destination from the root.
unfoldable pub start_segments : RepoPath → Text → List Text
start_segments directory destination =
    if starts_with destination (slash ∷ []) || is_empty directory
    then []
    else reverse (split slash directory)

-- What follows the loop: the segments walked to, joined and parsed.
unfoldable pub finish_resolve : Option (List Text) → Option RepoPath
finish_resolve none = none
finish_resolve (some segments) = value_of (parse_repo_path (join slash (reverse segments)))

unfoldable pub resolve_repo_path : RepoPath → Text → Option RepoPath
unfolding finish_resolve
resolve_repo_path directory destination =
    if is_empty destination || ltb max_repo_path_length (length destination)
    then none
    else finish_resolve (
        resolve_segments (start_segments directory destination)
          (split slash (without_leading_slash destination)))

unfoldable pub join_repo_path : RepoPath → RepoPath → RepoPath
join_repo_path base relative =
    if is_empty base
    then relative
    else if is_empty relative
    then base
    else base ++ (slash ∷ relative)

unfoldable pub is_within_repo_path : RepoPath → RepoPath → Bool
is_within_repo_path root candidate =
    is_empty root || same candidate root || starts_with candidate (root ++ (slash ∷ []))

unfoldable pub relative_repo_path : RepoPath → RepoPath → Option RepoPath
unfolding is_within_repo_path
relative_repo_path root candidate =
    if not (is_within_repo_path root candidate)
    then none
    else if is_empty root
    then some candidate
    else some (drop (length root + 1) candidate)
