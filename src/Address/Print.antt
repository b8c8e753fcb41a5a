-- ===== src/Address/Print.antt =====
-- packages/core/src/address.ts: addresses written, and the paths of accounts.
use mathlib.Core.Option
use skillcdn.Common.{
  Bool, true, false, ◌||◌, not, List, [], ◌∷◌, ◌++◌, Option, none, some, ltb, if◌then◌else◌, length,
  is_empty,
}
use skillcdn.Text.{Text, slash, has_unit, split, join, replace_three}
use skillcdn.RepoPath.{RepoPath}
use skillcdn.Percent.{encode_uri_component}
use skillcdn.Address.{
  max_address_length, AddressHost, host_key, AddressRef, Address, is_git_host_key,
  host_naming_rules, canonical_name, gh, commit, name,
}

-- `encodeURIComponent(segment).replaceAll("%40", "@").replaceAll("%3A", ":")`; `none` is the
-- `URIError` of a lone surrogate.
unfoldable pub encode_segment : Text → Option Text
encode_segment segment =
    Option.map (λ t. replace_three b'%' b'3' b'A' b':' (replace_three b'%' b'4' b'0' b'@' t))
      (encode_uri_component segment)

unfoldable pub encode_segments : List Text → Option (List Text)
unfolding encode_segment
encode_segments [] = some []
encode_segments (s ∷ ss) = elim (encode_segment s) [
  | none ↦ none
  | some t ↦ Option.map (λ ts. t ∷ ts) (encode_segments ss)
]

unfoldable pub encode_slash_separated : Text → Option Text
unfolding encode_segments
encode_slash_separated value = Option.map (join slash) (encode_segments (split slash value))

abbrev pub ref_text : AddressRef → Text
ref_text (commit hash) = hash
ref_text (name text) = text

-- `/host/owner/repo`.
unfoldable pub repo_prefix : Address → Text
repo_prefix a = slash ∷ host_key a.host ++ (slash ∷ a.owner ++ (slash ∷ a.repo))

-- What follows the prefix: the path behind a slash, nothing for the root.
abbrev pub mounted_path : Text → Text
mounted_path path = if is_empty path then [] else slash ∷ path

-- The ref and what follows it. Without the explicit `:`, a `/` in the ref or a `:` in the path would
-- be read back differently.
unfoldable pub ref_tail : Text → RepoPath → Text → Text → Text
ref_tail text path encoded_ref encoded_path =
    if has_unit slash text || has_unit b':' path
    then encoded_ref ++ (b':' ∷ encoded_path)
    else encoded_ref ++ mounted_path encoded_path

unfoldable pub format_address : Address → Option Text
unfolding encode_slash_separated repo_prefix ref_tail
format_address a = elim (encode_slash_separated a.path) [
  | none ↦ none
  | some path ↦ elim a.ref [
    | none ↦ some (repo_prefix a ++ mounted_path path)
    | some ref ↦
        Option.map
          (λ encoded. repo_prefix a ++ (b'@' ∷ ref_tail (ref_text ref) a.path encoded path))
          (encode_slash_separated (ref_text ref))
  ]
]

-- The path of the page of an account, `/gh/<owner>`.
pub record OwnerPath : Type 0 where
  pub host : AddressHost
  pub owner : Text

-- `host` is `gh` whenever `isGitHostKey` holds.
unfoldable pub parse_owner_parts : List Text → Option OwnerPath
unfolding canonical_name
parse_owner_parts (empty ∷ host ∷ owner ∷ []) =
    if not (is_empty empty)
    then none
    else if not (is_git_host_key host)
    then none
    else if (host_naming_rules gh).owner_test owner
    then some (record { host = gh; owner = canonical_name (host_naming_rules gh) owner })
    else none
parse_owner_parts _ = none

unfoldable pub parse_owner_path : Text → Option OwnerPath
unfolding parse_owner_parts
parse_owner_path input =
    if ltb max_address_length (length input) then none else parse_owner_parts (split slash input)

unfoldable pub format_owner_path : OwnerPath → Text
format_owner_path o = slash ∷ host_key o.host ++ (slash ∷ o.owner)

unfoldable pub is_pinned_address : Address → Bool
is_pinned_address a = elim a.ref [
  | none ↦ false
  | some ref ↦ elim ref [ commit hash ↦ true | name text ↦ false ]
]
