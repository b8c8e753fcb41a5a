-- ===== src/License/Files.antt =====
-- License files by their names, and what is said of a license.
use skillcdn.Common.{
  ℕ, suc, Bool, true, ◌&&◌, ◌||◌, List, [], ◌∷◌, ◌++◌, Option, none, some, if◌then◌else◌, take,
  drop, length, all, keep, ltb, leb, ◌==◌,
}
use mathlib.Core.Option
use skillcdn.Text.{Text, codes, slash, has, less, starts_with, last_index_of, split, join, to_lower}
use skillcdn.RepoPath.{RepoPath}
use skillcdn.RepoLayout.Selection.{lower_ascii}
use skillcdn.GitRef.{is_digit}
use skillcdn.Percent.{encode_uri_component}
use skillcdn.Address.{AddressHost, gh, local_host}
use skillcdn.License.{LicenseFact, permissive, restrictive, no_license, restrictive_as, with_source}
use skillcdn.License.Texts.{classify_license_text}

abbrev pub license_file_extensions : List Text
license_file_extensions =
    [] ∷ codes "md" ∷ codes "txt" ∷ codes "rst" ∷ codes "markdown" ∷ codes "lesser" ∷ []

-- `[-_][a-z0-9.-]*`, or nothing.
unfoldable pub is_stem_suffix : Text → Bool
is_stem_suffix [] = true
is_stem_suffix (c ∷ s) =
    (c == b'-' || c == b'_')
    && all (λ d. is_digit d || (leb b'a' d && leb d b'z') || d == b'.' || d == b'-') s

-- `/^(?:licen[cs]e|copying|unlicense)(?:[-_][a-z0-9.-]*)?$/i`.
unfoldable pub is_license_stem : Text → Bool
unfolding is_stem_suffix
is_license_stem stem =
    of_word (codes "license")
    || of_word (codes "licence")
    || of_word (codes "copying")
    || of_word (codes "unlicense")
  where
    of_word : Text → Bool
    of_word word =
        starts_with (lower_ascii stem) word
        && is_stem_suffix (drop (length word) (lower_ascii stem))

unfoldable pub is_license_file_name : Text → Bool
unfolding is_license_stem
is_license_file_name name = elim (last_index_of b'.' name) [
  | none ↦ is_license_stem name && has license_file_extensions []
  | some dot ↦
      is_license_stem (take dot name)
      && has license_file_extensions (to_lower (drop (suc dot) name))
]

-- `path.split("/").at(-1) ?? ""`.
abbrev pub last_part : List Text → Text
last_part [] = []
last_part (p ∷ []) = p
last_part (p ∷ q ∷ ps) = last_part (q ∷ ps)

unfoldable pub license_file_rank : RepoPath → ℕ
license_file_rank path =
    let name = to_lower (last_part (split slash path)) in
    if starts_with name (codes "license")
    then (if has (codes "license" ∷ []) name
        then 0
        else if starts_with name (codes "license.")
        then 1
        else 2)
    else if starts_with name (codes "licence")
    then 3
    else if starts_with name (codes "copying")
    then 4
    else 5

-- What `sort` puts first: the least rank, then the least path.
unfoldable pub comes_before : RepoPath → RepoPath → Bool
unfolding license_file_rank
comes_before a b =
    ltb (license_file_rank a) (license_file_rank b)
    || (license_file_rank a == license_file_rank b && less a b)

unfoldable pub least_file : List RepoPath → Option RepoPath
unfolding comes_before
least_file [] = none
least_file (path ∷ paths) = elim (least_file paths) [
  | none ↦ some path
  | some least ↦ if comes_before least path then some least else some path
]

unfoldable pub preferred_license_file : List RepoPath → Option RepoPath
unfolding least_file is_license_file_name
preferred_license_file paths =
    least_file (keep (λ path. is_license_file_name (last_part (split slash path))) paths)

-- `none` is a file that could not be read.
unfoldable pub classify_license_file : RepoPath → Option Text → LicenseFact
classify_license_file path none = with_source (restrictive_as none) path
classify_license_file path (some text) = with_source (classify_license_text text) path

unfoldable pub describe_license : LicenseFact → Text
describe_license fact = elim fact.kind [
  | no_license ↦ codes "none declared"
  | permissive ↦ described
  | restrictive ↦ described
]
  where
    name : Text
    name = elim fact.name [ none ↦ codes "unrecognized" | some text ↦ text ]

    described : Text
    described = elim fact.source [
      | none ↦ name
      | some path ↦ name ++ (codes " (" ++ (path ++ codes ")"))
    ]

unfoldable pub serves_in_full : LicenseFact → Bool → Bool
serves_in_full fact verified = elim fact.kind [
  | restrictive ↦ verified
  | permissive ↦ true
  | no_license ↦ true
]

unfoldable pub encode_all : List Text → Option (List Text)
encode_all [] = some []
encode_all (s ∷ ss) = elim (encode_uri_component s) [
  | none ↦ none
  | some t ↦ Option.map (λ ts. t ∷ ts) (encode_all ss)
]

-- The three parts of a URL, `none` where one cannot be encoded.
abbrev pub three_parts :
    Option Text → Option Text → Option Text → (Text → Text → Text → Text) → Option Text
three_parts (some a) (some b) (some c) f = some (f a b c)
three_parts _ _ _ f = none

unfoldable pub local_file_url : Text → Text → RepoPath → Option Text
local_file_url owner name path =
    three_parts (encode_uri_component owner) (encode_uri_component name) (encode_uri_component path)
      (λ o n p. codes "/local/" ++ (o ++ (slash ∷ n ++ (codes "?file=" ++ p))))

unfoldable pub source_file_url : AddressHost → Text → Text → Text → RepoPath → Option Text
unfolding local_file_url encode_all
source_file_url local_host owner name commit path = local_file_url owner name path
source_file_url gh owner name commit path =
    three_parts (encode_uri_component owner) (encode_uri_component name)
      (Option.map (join slash) (encode_all (split slash path)))
      (λ o n p.
        codes "https://github.com/"
        ++ (o ++ (slash ∷ n ++ (codes "/blob/" ++ (commit ++ (slash ∷ p))))))
