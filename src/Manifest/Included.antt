-- ===== src/Manifest/Included.antt =====
-- `readIncludedFiles` of packages/core/src/skill-manifest.ts.
use skillcdn.Common.{
  ℕ, ◌+◌, Bool, true, false, ◌&&◌, not, List, [], ◌∷◌, ◌++◌, Option, none, some, ltb, if◌then◌else◌,
  length, is_empty,
}
use skillcdn.Text.{codes, has}
use skillcdn.RepoPath.{RepoPath, resolve_repo_path}
use skillcdn.RepoLayout.{RepoFileKind, skill, manifest, markdown, json, other, classify_repo_file}
use skillcdn.License.Words.{trim}
use skillcdn.Manifest.Values.{Value, text_of, is_missing, sequence_of}
use skillcdn.Manifest.Fields.{dropped_entries, Read}

abbrev pub max_included_files : ℕ
max_included_files = 20

-- `kind === "markdown" || kind === "json"`.
abbrev pub is_page : RepoFileKind → Bool
is_page skill = false
is_page manifest = false
is_page markdown = true
is_page json = true
is_page other = false

pub record IncludedFiles : Type 0 where
  pub files : List RepoPath
  pub dropped : ℕ

abbrev pub included_path : RepoPath → Value → Option RepoPath
included_path directory item = elim (text_of (some item)) [
  | none ↦ none
  | some t ↦ resolve_repo_path directory (trim t)
]

abbrev pub is_usable : RepoPath → IncludedFiles → Bool
is_usable path s =
    not (is_empty path)
    && is_page (classify_repo_file path)
    && ltb (length s.files) max_included_files

abbrev pub add_file : RepoPath → IncludedFiles → IncludedFiles
add_file path s = if has s.files path then s else record s { files = s.files ++ (path ∷ []) }

-- The body of the loop of `readIncludedFiles`.
unfoldable pub include_path : Option RepoPath → IncludedFiles → IncludedFiles
unfolding classify_repo_file has
include_path none s = record s { dropped = s.dropped + 1 }
include_path (some path) s =
    if is_usable path s then add_file path s else record s { dropped = s.dropped + 1 }

unfoldable pub include_from : RepoPath → IncludedFiles → List Value → IncludedFiles
unfolding include_path resolve_repo_path trim
include_from directory s [] = s
include_from directory s (item ∷ items) =
    include_from directory (include_path (included_path directory item) s) items

-- `Array.isArray(value) ? value : [undefined]`: the one entry of what is no sequence is dropped.
abbrev pub included_in : RepoPath → Option (List Value) → IncludedFiles
included_in directory none = include_path none (record { files = []; dropped = 0 })
included_in directory (some items) =
    include_from directory (record { files = []; dropped = 0 }) items

unfoldable pub read_included_files : Option Value → RepoPath → Read (List RepoPath)
unfolding include_from include_path
read_included_files value directory =
    if is_missing value
    then ([], [])
    else let s = included_in directory (sequence_of value) in
      (
        s.files,
        if ltb 0 s.dropped then dropped_entries (codes "skillcdn.include") s.dropped ∷ [] else [],
      )
