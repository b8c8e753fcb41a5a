-- ===== src/Manifest/Paths.antt =====
-- `readExclude` and `readDocuments` of packages/core/src/repo-manifest.ts.
use mathlib.Core.List.{reverse}
use skillcdn.Common.{
  ℕ, ◌+◌, Bool, true, false, ◌&&◌, ◌||◌, List, [], ◌∷◌, ◌++◌, Option, none, some, ltb, leb, ◌==◌,
  if◌then◌else◌, length, is_empty, any, drop,
}
use skillcdn.Text.{Text, codes, slash, same, has, has_unit, starts_with}
use skillcdn.Result.{Result, ok, err}
use skillcdn.RepoPath.{RepoPath, root_path, parse_repo_path, value_of}
use skillcdn.RepoLayout.{default_document_directories}
use skillcdn.License.Words.{trim}
use skillcdn.Markdown.Lines.{leading}
use skillcdn.Manifest.Values.{Value, text_of, is_missing, sequence_of}
use skillcdn.Manifest.Scalars.{is_letter}
use skillcdn.Manifest.RepoManifest.{
  max_document_directories, max_excluded_paths, RepoManifestError, invalid_exclude,
  RepoManifestWarning, no_sequence, ignored_directory,
}

-- `text.replace(/\/$/, "")`, of a text read from its end.
abbrev pub without_slash : Text → Text
without_slash [] = []
without_slash (c ∷ s) = if c == slash then s else c ∷ s

abbrev pub excluded_text : Text → Text
excluded_text raw = reverse (without_slash (reverse (trim raw)))

abbrev pub glob_units : Text
glob_units = codes "*?[]{}"

-- `/^(?:!|[A-Za-z]:)/`.
abbrev pub is_negated : Text → Bool
is_negated [] = false
is_negated (c ∷ s) = c == b'!' || (is_letter c && starts_with s (codes ":"))

abbrev pub excluded_path : Text → Option RepoPath
excluded_path t =
    if is_empty t || any (λ c. has_unit c glob_units) t || is_negated t
    then none
    else if same t (codes ".")
    then some root_path
    else value_of (parse_repo_path t)

-- The path of one entry of `exclude`; `none` makes the whole field invalid.
unfoldable pub read_excluded : Value → Option RepoPath
unfolding trim has_unit same starts_with parse_repo_path
read_excluded item = elim (text_of (some item)) [
  | none ↦ none
  | some raw ↦ excluded_path (excluded_text raw)
]

-- `paths.add`.
abbrev pub add_path : RepoPath → List RepoPath → List RepoPath
add_path path paths = if has paths path then paths else paths ++ (path ∷ [])

unfoldable pub exclude_from : List RepoPath → List Value → Result (List RepoPath) RepoManifestError
unfolding read_excluded has
exclude_from paths [] = ok paths
exclude_from paths (item ∷ items) = elim (read_excluded item) [
  | none ↦ err invalid_exclude
  | some path ↦ exclude_from (add_path path paths) items
]

unfoldable pub read_exclude : Option Value → Bool → Result (List RepoPath) RepoManifestError
unfolding exclude_from
read_exclude value false = ok []
read_exclude value true = elim (sequence_of value) [
  | none ↦ err invalid_exclude
  | some items ↦
      if ltb max_excluded_paths (length items) then err invalid_exclude else exclude_from [] items
]

pub record Directories : Type 0 where
  pub paths : List RepoPath
  pub dropped : ℕ

-- `text.replace(/\/+$/, "")`.
abbrev pub directory_text : Text → Text
directory_text raw =
    let back = reverse (trim raw) in reverse (drop (leading (λ c. c == slash) back) back)

unfoldable pub read_directory : Value → Option RepoPath
unfolding trim leading same parse_repo_path
read_directory item = elim (text_of (some item)) [
  | none ↦ none
  | some raw ↦
      if same (directory_text raw) (codes ".")
      then some root_path
      else value_of (parse_repo_path (directory_text raw))
]

-- The body of the loop of `readDocuments`.
unfoldable pub add_directory : Option RepoPath → Directories → Directories
unfolding has
add_directory none s = record s { dropped = s.dropped + 1 }
add_directory (some path) s =
    if leb max_document_directories (length s.paths)
    then record s { dropped = s.dropped + 1 }
    else record s { paths = add_path path s.paths }

unfoldable pub directories_from : Directories → List Value → Directories
unfolding read_directory add_directory
directories_from s [] = s
directories_from s (item ∷ items) = directories_from (add_directory (read_directory item) s) items

abbrev pub read_sequence : Option (List Value) → List RepoPath × List RepoManifestWarning
read_sequence none = ([], no_sequence ∷ [])
read_sequence (some items) =
    let s = directories_from (record { paths = []; dropped = 0 }) items in
    (s.paths, if ltb 0 s.dropped then ignored_directory s.dropped ∷ [] else [])

unfoldable pub read_documents : Option Value → List RepoPath × List RepoManifestWarning
unfolding directories_from
read_documents none = (default_document_directories, [])
read_documents (some v) =
    if is_missing (some v) then ([], []) else read_sequence (sequence_of (some v))
