-- ===== src/Address.antt =====
-- packages/core/src/address.ts: the path of an endpoint URL, which names a repository, a ref and a
-- directory to mount.
pub mod Print
pub mod Names
pub mod Segments
pub mod Canonical
pub mod Locate
pub mod Interpret
pub mod Glue
pub mod Encoded
pub mod Format
pub mod Owner
pub mod Tests
use mathlib.Core.Option
use skillcdn.Common.{
  ℕ, suc, ◌+◌, Bool, true, false, ◌&&◌, ◌||◌, not, List, [], ◌∷◌, ◌++◌, Option, none, some, ltb,
  leb, ◌==◌, if◌then◌else◌, length, is_empty, take, drop, all,
}
use skillcdn.Text.{
  Text, codes, slash, same, starts_with, ends_with, has_unit, index_of, split, join, to_lower,
  replace_three,
}
use skillcdn.Result.{Result, ok, err, ◌>>=◌}
use skillcdn.TextSafety.{has_forbidden_code_point}
use skillcdn.GitRef.{is_digit, is_full_commit_hash, is_valid_ref_name}
use skillcdn.RepoPath.{RepoPath, RepoPathError, parse_repo_path, dot, dot_dot}
use skillcdn.Percent.{encode_uri_component, decode_uri_component}

abbrev pub max_address_length : ℕ
max_address_length = 2048

-- `GIT_HOST_KEYS` holds `gh` alone; the other host is a pack served from a machine.
pub data AddressHost : Type 0 where
  gh local_host : AddressHost

abbrev pub host_key : AddressHost → Text
host_key gh = codes "gh"
host_key local_host = codes "local"

pub data AddressRef : Type 0 where
  commit : Text → AddressRef
  name : Text → AddressRef

pub record Address : Type 0 where
  pub host : AddressHost
  pub owner : Text
  pub repo : Text
  pub ref : Option AddressRef
  pub path : RepoPath

pub data AddressErrorCode : Type 0 where
  not_absolute too_long bad_encoding forbidden_character empty_segment dot_segment unknown_host
        missing_repo invalid_owner invalid_repo empty_ref invalid_ref invalid_path :
      AddressErrorCode

pub record AddressError : Type 0 where
  pub code : AddressErrorCode
  pub message : Text

abbrev pub fail {ℓ} : {T : Type ℓ} → AddressErrorCode → Text → Result T AddressError
fail code message = err (record { code = code; message = message })

-- `value is GitHostKey`.
unfoldable pub is_git_host_key : Text → Bool
is_git_host_key value = same value (host_key gh)

unfoldable pub is_git_host_address : Address → Bool
unfolding is_git_host_key
is_git_host_address a = is_git_host_key (host_key a.host)

-- `isAddressHost`, with the host that the text is the key of.
unfoldable pub address_host : Text → Option AddressHost
address_host value =
    if same value (host_key gh)
    then some gh
    else if same value (host_key local_host)
    then some local_host
    else none

-- Letters and digits, in any case.
unfoldable pub is_alphanumeric : ℕ → Bool
is_alphanumeric c = is_digit c || (leb b'a' c && leb c b'z') || (leb b'A' c && leb c b'Z')

-- `[a-z0-9_-]`, `[a-z0-9._-]` and `[a-z0-9_]`, in any case.
unfoldable pub is_owner_unit : ℕ → Bool
unfolding is_alphanumeric
is_owner_unit c = is_alphanumeric c || c == b'_' || c == b'-'

unfoldable pub is_repo_unit : ℕ → Bool
unfolding is_alphanumeric
is_repo_unit c = is_alphanumeric c || c == b'.' || c == b'_' || c == b'-'

unfoldable pub is_local_first : ℕ → Bool
unfolding is_alphanumeric
is_local_first c = is_alphanumeric c || c == b'_'

-- `/^[first][rest]{0,most}$/`.
unfoldable pub matches_name : (ℕ → Bool) → (ℕ → Bool) → ℕ → Text → Bool
matches_name first rest most [] = false
matches_name first rest most (c ∷ s) = first c && (all rest s && leb (length s) most)

pub record HostNamingRules : Type 0 where
  pub owner_test : Text → Bool
  pub repo_test : Text → Bool
  pub case_insensitive : Bool

abbrev pub host_naming_rules : AddressHost → HostNamingRules
host_naming_rules gh = record {
  owner_test = matches_name is_alphanumeric is_owner_unit 38;
  repo_test = matches_name is_repo_unit is_repo_unit 99;
  case_insensitive = true;
}
host_naming_rules local_host = record {
  owner_test = matches_name is_local_first is_repo_unit 99;
  repo_test = matches_name is_local_first is_repo_unit 99;
  case_insensitive = false;
}

-- One round of the loop over the raw segments.
unfoldable pub decode_segment : Text → Result Text AddressError
decode_segment raw =
    if is_empty raw
    then fail empty_segment (codes "an address has no empty segments and no trailing slash")
    else elim (decode_uri_component raw) [
      | none ↦ fail bad_encoding (codes "an address must be valid percent-encoded UTF-8")
      | some segment ↦
          if has_unit slash segment || has_unit b'\\' segment || has_forbidden_code_point segment
          then fail forbidden_character
              (codes "an address has no encoded slashes, backslashes or control characters")
          else if same segment dot || same segment dot_dot
          then fail dot_segment (codes "an address has no \".\" or \"..\" segments")
          else ok segment
    ]

unfoldable pub decode_segments : List Text → Result (List Text) AddressError
unfolding decode_segment
decode_segments [] = ok []
decode_segments (raw ∷ raws) = do
  segment ← decode_segment raw
  segments ← decode_segments raws
  ok (segment ∷ segments)

-- The part of the repository's segment before the `@`.
unfoldable pub repo_of : Text → Text
repo_of segment = elim (index_of b'@' segment) [ none ↦ segment | some at ↦ take at segment ]

-- `/\.git$/i`.
unfoldable pub has_git_suffix : Text → Bool
has_git_suffix repo = ends_with (to_lower repo) (codes ".git")

unfoldable pub is_valid_repo : HostNamingRules → Text → Bool
unfolding has_git_suffix
is_valid_repo rules repo =
    not (not (rules.repo_test repo) || same repo dot || same repo dot_dot || has_git_suffix repo)

-- The text of the ref and the path behind it: the ref ends at the first `:` if there is one,
-- otherwise at the first `/`.
unfoldable pub ref_end : Text → Option ℕ
ref_end tail = elim (index_of b':' tail) [ none ↦ index_of slash tail | some colon ↦ some colon ]

unfoldable pub cut_tail : Text → Text × Text
cut_tail tail = elim (ref_end tail) [
  | none ↦ (tail, [])
  | some end ↦ (take end tail, drop (end + 1) tail)
]

unfoldable pub parse_ref : Text → Result AddressRef AddressError
parse_ref text =
    if is_empty text
    then fail empty_ref (codes "a ref follows \"@\"")
    else if is_full_commit_hash text
    then ok (commit (to_lower text))
    else if is_valid_ref_name text
    then ok (name text)
    else fail invalid_ref (codes "the ref is not a valid git ref name")

-- The ref and the text of the path, from the repository's segment and the segments behind it.
unfoldable pub locate : Text → List Text → Result (Option AddressRef × Text) AddressError
unfolding cut_tail parse_ref
locate segment rest = elim (index_of b'@' segment) [
  | none ↦ ok (none, join slash rest)
  | some at ↦
      let cut = cut_tail (join slash (drop (at + 1) segment ∷ rest)) in
      parse_ref cut.0 >>= λ ref. ok (some ref, cut.1)
]

unfoldable pub parse_path : Text → Result RepoPath AddressError
parse_path input = elim (parse_repo_path input) [
  | ok path ↦ ok path
  | err e ↦ fail invalid_path e.message
]

unfoldable pub canonical_name : HostNamingRules → Text → Text
canonical_name rules text = if rules.case_insensitive then to_lower text else text

unfoldable pub parse_repository :
    AddressHost → Text → Text → List Text → Result Address AddressError
unfolding repo_of is_valid_repo locate parse_path canonical_name
parse_repository host owner segment rest =
    let rules = host_naming_rules host in
    if not (rules.owner_test owner)
    then fail invalid_owner (codes "the owner is not a valid account name on this git host")
    else if not (is_valid_repo rules (repo_of segment))
    then fail invalid_repo (codes "the repository is not a valid repository name on this git host")
    else locate segment rest >>= λ located. parse_path located.1 >>= λ path. ok (record {
      host = host;
      owner = canonical_name rules owner;
      repo = canonical_name rules (repo_of segment);
      ref = located.0;
      path = path;
    })

unfoldable pub parse_named : AddressHost → List Text → Result Address AddressError
unfolding parse_repository
parse_named host (owner ∷ segment ∷ rest) = parse_repository host owner segment rest
parse_named host _ = fail missing_repo (codes "an address names an owner and a repository")

unfoldable pub parse_segments : List Text → Result Address AddressError
unfolding parse_named address_host
parse_segments [] = fail unknown_host (codes "unknown host; expected one of: gh, local")
parse_segments (host ∷ rest) = elim (address_host host) [
  | none ↦ fail unknown_host (codes "unknown host; expected one of: gh, local")
  | some h ↦ parse_named h rest
]

unfoldable pub parse_address : Text → Result Address AddressError
unfolding parse_segments decode_segments
parse_address input =
    if not (starts_with input (slash ∷ []))
    then fail not_absolute (codes "an address starts with \"/\"")
    else if ltb max_address_length (length input)
    then fail too_long (codes "an address is at most 2048 characters")
    else decode_segments (split slash (drop 1 input)) >>= parse_segments
