-- ===== src/License/Field.antt =====
-- What a `license` field declares.
use skillcdn.Common.{
  ℕ, zero, suc, Bool, false, ◌&&◌, ◌||◌, List, [], ◌∷◌, ◌++◌, Option, none, some, if◌then◌else◌,
  length, is_empty, take, drop, any, ltb,
}
use skillcdn.Text.{Text, codes, slash, has, starts_with, ends_with, to_lower, onto_first}
use skillcdn.RepoPath.{RepoPath}
use skillcdn.RepoLayout.Selection.{lower_ascii}
use skillcdn.License.{LicenseFact, Recognized, restrictive, kind_of, with_source}
use skillcdn.License.Words.{is_space, skip_spaces, trim, closes_word}
use skillcdn.License.Texts.{classify_license_text}
use skillcdn.License.Ids.{recognize_id}

abbrev pub max_license_name_length : ℕ
max_license_name_length = 80

-- The field points elsewhere.
unfoldable pub points_elsewhere : Text → Bool
unfolding closes_word
points_elsewhere lower =
    any (λ word. starts_with lower word && closes_word (drop (length word) lower))
      (codes "see" ∷ codes "refer to" ∷ codes "in" ∷ codes "as in" ∷ codes "per" ∷ [])
    || (has files lower || has (all_files files) lower)
    || ends_with lower (codes ".md")
    || ends_with lower (codes ".txt")
  where
    files : List Text
    files =
        codes "license"
        ∷ codes "licence"
        ∷ codes "copying"
        ∷ codes "license.md"
        ∷ codes "licence.md"
        ∷ codes "copying.md"
        ∷ codes "license.txt"
        ∷ codes "licence.txt"
        ∷ codes "copying.txt"
        ∷ []

    all_files : List Text → List Text
    all_files [] = []
    all_files (f ∷ fs) = (f ++ codes " file") ∷ all_files fs

-- One of the words of an expression, and the spaces behind it.
unfoldable pub behind_word : List Text → Text → Option Text
unfolding is_space skip_spaces
behind_word [] s = none
behind_word (word ∷ words) s = elim (drop (length word) s) [
  | [] ↦ behind_word words s
  | c ∷ rest ↦
      if starts_with (lower_ascii s) word && is_space c
      then some (skip_spaces (c ∷ rest))
      else behind_word words s
]

abbrev pub starts_in_space : Text → Bool
starts_in_space [] = false
starts_in_space (c ∷ s) = is_space c

-- `/\s+(?:or|and|with)\s+|\s*\/\s*/i` here: what follows it.
unfoldable pub behind_separator : Text → Option Text
unfolding skip_spaces behind_word is_space
behind_separator s =
    let t = skip_spaces s in
    if starts_with t (slash ∷ [])
    then some (skip_spaces (drop 1 t))
    else if starts_in_space s
    then behind_word (codes "or" ∷ codes "and" ∷ codes "with" ∷ []) t
    else none

-- The split at the separators; each round reads a unit at least, so that a fuel above the length is
-- enough.
unfoldable pub split_parts : ℕ → Text → List Text
unfolding behind_separator
split_parts zero s = s ∷ []
split_parts (suc fuel) [] = [] ∷ []
split_parts (suc fuel) (c ∷ s) = elim (behind_separator (c ∷ s)) [
  | some rest ↦ [] ∷ split_parts fuel rest
  | none ↦ onto_first c (split_parts fuel s)
]

abbrev pub non_empty : List Text → List Text
non_empty [] = []
non_empty (p ∷ ps) = let rest = non_empty ps in if is_empty p then rest else p ∷ rest

-- Every part recognized, or `none`.
unfoldable pub recognize_all : List Text → Option (List Recognized)
unfolding recognize_id
recognize_all [] = some []
recognize_all (part ∷ parts) = elim (recognize_id part) [
  | none ↦ none
  | some r ↦ elim (recognize_all parts) [ none ↦ none | some rs ↦ some (r ∷ rs) ]
]

abbrev pub names_of : List Recognized → List Text
names_of [] = []
names_of (r ∷ rs) = elim r.name [ none ↦ names_of rs | some name ↦ name ∷ names_of rs ]

-- `names.join(" / ")`.
abbrev pub join_names : List Text → Text
join_names [] = []
join_names (n ∷ []) = n
join_names (n ∷ m ∷ ns) = n ++ (codes " / " ++ join_names (m ∷ ns))

-- What an expression declares.
unfoldable pub classify_expression : RepoPath → Text → LicenseFact
unfolding split_parts recognize_all
classify_expression path declared =
    elim (recognize_all (non_empty (split_parts (suc (length declared)) declared))) [
      | some recognized ↦ record {
        kind = kind_of (any (λ r. r.is_restrictive) recognized);
        name = some (join_names (names_of recognized));
        source = some path;
      }
      | none ↦ record {
        kind = restrictive;
        name = some (take max_license_name_length declared);
        source = some path;
      }
    ]

unfoldable pub classify_license_field : RepoPath → Text → Option LicenseFact
unfolding trim points_elsewhere classify_license_text classify_expression
classify_license_field path value =
    let declared = trim value in
    if is_empty declared
    then none
    else if points_elsewhere (to_lower declared)
    then none
    else if ltb 120 (length declared)
    then some (with_source (classify_license_text declared) path)
    else some (classify_expression path declared)
