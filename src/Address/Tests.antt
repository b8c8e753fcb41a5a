-- ===== src/Address/Tests.antt =====
-- Addresses written and read, and the theorems at inputs where their hypotheses hold.
use skillcdn.Common.{◌≡◌, refl, true, some, arith}
use skillcdn.Text.{
  Text, codes, split, join, same, starts_with, ends_with, includes, has_unit, index_of, to_lower,
  replace_three,
}
use skillcdn.Result.{ok}
use skillcdn.TextSafety.{
  has_forbidden_code_point, is_well_formed, code_points, is_high_surrogate, is_low_surrogate,
  is_surrogate, is_forbidden_code_point,
}
use skillcdn.RepoPath.{parse_repo_path}
use skillcdn.RepoPath.Parse.{parse_repo_path_iff}
use skillcdn.GitRef.{is_valid_ref_name, is_full_commit_hash, is_ref_forbidden, is_valid_component}
use skillcdn.Percent.{
  encode_uri_component, decode_uri_component, encode_points, encode_point, is_unreserved,
  percent_bytes, utf8, hex_digit, pieces, assemble, read_piece, hex_value, begin_byte,
}
use skillcdn.Address.{
  Address, gh, name, parse_address, host_naming_rules, canonical_name, is_valid_repo, fail,
  forbidden_character, matches_name, is_alphanumeric, is_owner_unit, is_repo_unit, ref_end,
}
use skillcdn.Address.Print.{format_address, parse_owner_path, format_owner_path}
use skillcdn.Address.Canonical.{IsCanonical}
use skillcdn.Address.Format.{format_total, parse-format}
use skillcdn.Address.Owner.{parse_owner-format}

unfoldable pub run : Unit {0}
unfolding format_address parse_address parse_repo_path split join same starts_with ends_with
    includes has_unit index_of to_lower replace_three has_forbidden_code_point is_well_formed
    code_points is_high_surrogate is_low_surrogate is_surrogate is_forbidden_code_point
    is_valid_ref_name is_full_commit_hash encode_uri_component decode_uri_component is_valid_repo
    parse_owner_path format_owner_path encode_points encode_point is_unreserved percent_bytes utf8
    hex_digit pieces assemble read_piece hex_value begin_byte matches_name is_alphanumeric
    is_owner_unit is_repo_unit ref_end is_ref_forbidden is_valid_component
run = tt

abbrev page : Address
page = record {
  host = gh;
  owner = codes "acme";
  repo = codes "tools";
  ref = some (name (codes "release/1"));
  path = codes "docs/a b.md";
}

abbrev page_text : Text
page_text = codes "/gh/acme/tools@release/1:docs/a%20b.md"

page_written : format_address page ≡ some page_text
unfolding run
page_written = refl

other_spelling : parse_address (codes "/gh/Acme/Tools@release/1:docs/%61%20b.md") ≡ ok page
unfolding run
other_spelling = refl

slashes_refused :
    parse_address (codes "/gh/acme/tools/a%2Fb")
    ≡ fail forbidden_character
        (codes "an address has no encoded slashes, backslashes or control characters")
unfolding run
slashes_refused = refl

pub page_path : parse_repo_path (codes "docs/a b.md") ≡ ok (codes "docs/a b.md")
unfolding run
page_path = refl

page-IsCanonical : IsCanonical page
unfolding run
page-IsCanonical = record {
  owner_valid = refl;
  owner_case = refl;
  repo_valid = refl;
  repo_case = refl;
  ref_valid = (refl, refl, omega arith);
  path_valid = ((parse_repo_path_iff (codes "docs/a b.md") (codes "docs/a b.md")).0 page_path).1;
  path_units = omega arith;
}

format_total_example : (t : Text) × (format_address page ≡ some t)
format_total_example = format_total page page-IsCanonical

parse-format_example : parse_address page_text ≡ ok page
parse-format_example = parse-format page page_text page-IsCanonical page_written (omega arith)

acme_valid : (host_naming_rules gh).owner_test (codes "acme") ≡ true
unfolding run
acme_valid = refl

acme_case : canonical_name (host_naming_rules gh) (codes "acme") ≡ codes "acme"
unfolding run
acme_case = refl

parse_owner-format_example :
    parse_owner_path (format_owner_path (record { host = gh; owner = codes "acme" }))
    ≡ some (record { host = gh; owner = codes "acme" })
parse_owner-format_example = parse_owner-format (codes "acme") acme_valid acme_case
