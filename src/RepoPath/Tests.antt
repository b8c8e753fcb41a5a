-- ===== src/RepoPath/Tests.antt =====
-- Runs of the functions on paths, and the theorems at inputs where their hypotheses hold.
use skillcdn.Common.{◌≤◌, ◌+◌, ◌≡◌, refl, ◌↔◌, true, some, length}
use skillcdn.Text.{Text, codes, split, join, same, starts_with, has_unit}
use skillcdn.Result.{ok}
use skillcdn.TextSafety.{
  has_forbidden_code_point, is_well_formed, code_points, is_high_surrogate, is_low_surrogate,
  is_surrogate, is_forbidden_code_point,
}
use skillcdn.RepoPath.{
  parse_repo_path, resolve_repo_path, join_repo_path, relative_repo_path, is_within_repo_path,
  dot_segment, empty_segment, resolve_segments, start_segments, without_leading_slash,
  max_repo_path_length, fail,
}
use skillcdn.RepoPath.Segments.{IsRepoPath}
use skillcdn.RepoPath.Parse.{parse_repo_path_iff}
use skillcdn.RepoPath.Within.{is_within_trans}
use skillcdn.RepoPath.Join.{parse-join_iff}
use skillcdn.RepoPath.Resolve.{resolve-join, resolve-IsRepoPath}

run : Unit {0}
unfolding parse_repo_path resolve_repo_path join_repo_path relative_repo_path split join same
    starts_with has_unit has_forbidden_code_point is_well_formed code_points start_segments
    without_leading_slash is_high_surrogate is_low_surrogate is_surrogate is_forbidden_code_point
    resolve_segments
run = tt

abbrev docs : Text
docs = codes "docs/api"

abbrev page : Text
page = codes "a.md"

docs_parse : parse_repo_path docs ≡ ok docs
unfolding run
docs_parse = refl

page_parse : parse_repo_path page ≡ ok page
unfolding run
page_parse = refl

both_parse : parse_repo_path (join_repo_path docs page) ≡ ok (join_repo_path docs page)
unfolding run
both_parse = refl

refused :
    (parse_repo_path (codes "a//b") ≡ fail empty_segment (codes "path contains an empty segment"))
    × (parse_repo_path (codes "../b")
        ≡ fail dot_segment (codes "path contains a \".\" or \"..\" segment"))
unfolding run
refused = (refl, refl)

climbs : resolve_repo_path docs (codes "../x.md") ≡ some (codes "docs/x.md")
unfolding run
climbs = refl

is_path : (p : Text) → parse_repo_path p ≡ ok p → IsRepoPath p
is_path p h = ((parse_repo_path_iff p p).0 h).1

parse_repo_path_iff_example :
    (parse_repo_path docs ≡ ok docs) ↔ (◌≡◌ {A = Text} docs docs × IsRepoPath docs)
parse_repo_path_iff_example = parse_repo_path_iff docs docs

is_within_trans_example : is_within_repo_path (codes "docs") (codes "docs/api/a.md") ≡ true
unfolding run
is_within_trans_example = is_within_trans (codes "docs") docs (codes "docs/api/a.md") refl refl

parse-join_iff_example :
    (parse_repo_path (join_repo_path docs page) ≡ ok (join_repo_path docs page))
    ↔ (length docs + length page + 1 ≤ max_repo_path_length)
parse-join_iff_example =
    parse-join_iff docs page (is_path docs docs_parse) (is_path page page_parse) (λ e. cc) (λ e. cc)

resolve-join_example : resolve_repo_path docs page ≡ some (join_repo_path docs page)
resolve-join_example =
    resolve-join docs page (is_path page page_parse) (λ e. cc) (is_path _ both_parse)

resolve-IsRepoPath_example : IsRepoPath (codes "docs/x.md")
resolve-IsRepoPath_example = resolve-IsRepoPath docs (codes "../x.md") (codes "docs/x.md") climbs
