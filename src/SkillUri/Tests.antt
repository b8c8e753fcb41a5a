-- ===== src/SkillUri/Tests.antt =====
-- A skill URI, and the theorem at that input.
use skillcdn.Common.{◌≡◌, refl, some, arith}
use skillcdn.Text.{Text, codes}
use skillcdn.RepoPath.{RepoPath}
use skillcdn.RepoPath.Parse.{parse_repo_path_iff}
use skillcdn.Address.{gh}
use skillcdn.Address.Canonical.{IsCanonical}
use skillcdn.SkillUri.{SkillUriAddress, at_path, format_skill_uri, parse_skill_uri}
use skillcdn.SkillUri.RoundTrip.{parse_skill-format}
use skillcdn.Address.Tests.{run, page_path}

abbrev pack : SkillUriAddress
pack = record { host = gh; owner = codes "acme"; repo = codes "tools" }

abbrev file : RepoPath
file = codes "docs/a b.md"

abbrev uri : Text
uri = codes "skill://gh/acme/tools/docs/a%20b.md"

written : format_skill_uri pack file ≡ some uri
unfolding run format_skill_uri
written = refl

file-IsCanonical : IsCanonical (at_path pack file)
unfolding run
file-IsCanonical = record {
  owner_valid = refl;
  owner_case = refl;
  repo_valid = refl;
  repo_case = refl;
  ref_valid = tt;
  path_valid = ((parse_repo_path_iff file file).0 page_path).1;
  path_units = omega arith;
}

parse_skill-format_example : parse_skill_uri uri ≡ some (record { address = pack; path = file })
parse_skill-format_example =
    parse_skill-format pack file uri file-IsCanonical (λ e. cc) written (omega arith)
