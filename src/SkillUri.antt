-- ===== src/SkillUri.antt =====
-- packages/core/src/skill-uri.ts: how the files of a skill are named.
pub mod RoundTrip
mod Tests
use skillcdn.Common.{
  Bool, List, [], ◌∷◌, ◌++◌, Option, none, some, not, drop, is_empty, length, defined, ◌||◌,
  if◌then◌else◌,
}
use mathlib.Core.Option
use skillcdn.Text.{Text, codes, slash, starts_with}
use skillcdn.Result.{Result, ok, err}
use skillcdn.RepoPath.{RepoPath, root_path}
use skillcdn.Address.{Address, AddressHost, AddressRef, parse_address}
use skillcdn.Address.Print.{format_address}

abbrev pub skill_uri_scheme : Text
skill_uri_scheme = codes "skill"

pub record SkillUriAddress : Type 0 where
  pub host : AddressHost
  pub owner : Text
  pub repo : Text

-- `{ ...address, ref: undefined, path }`.
abbrev pub at_path : SkillUriAddress → RepoPath → Address
at_path a path = record { host = a.host; owner = a.owner; repo = a.repo; ref = none; path = path }

-- `none` is the `URIError` of the printer.
unfoldable pub format_skill_uri : SkillUriAddress → RepoPath → Option Text
format_skill_uri a path =
    Option.map (λ t. skill_uri_scheme ++ (codes ":/" ++ t)) (format_address (at_path a path))

unfoldable pub skill_uri_prefix : SkillUriAddress → Option Text
skill_uri_prefix a =
    Option.map (λ t. skill_uri_scheme ++ (codes ":/" ++ t)) (format_address (at_path a root_path))

pub record ParsedSkillUri : Type 0 where
  pub address : SkillUriAddress
  pub path : RepoPath

-- What the address behind the scheme says.
unfoldable pub skill_uri_of : Address → Option ParsedSkillUri
skill_uri_of a =
    if defined a.ref || is_empty a.path
    then none
    else some (record {
      address = record { host = a.host; owner = a.owner; repo = a.repo };
      path = a.path;
    })

unfoldable pub parse_skill_uri : Text → Option ParsedSkillUri
unfolding skill_uri_of
parse_skill_uri uri =
    let prefix = skill_uri_scheme ++ codes "://" in
    if not (starts_with uri prefix)
    then none
    else elim (parse_address (slash ∷ drop (length prefix) uri)) [
      | err e ↦ none
      | ok a ↦ skill_uri_of a
    ]
