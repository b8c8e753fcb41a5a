-- ===== src/SearchPages.antt =====
-- packages/core/src/rest/pages.ts: the pages of a search, and the sections of the front page.
pub mod RoundTrip
mod Tests
use skillcdn.Common.{
  ℕ, ◌+◌, Bool, true, false, ◌&&◌, ◌||◌, not, List, [], ◌∷◌, ◌++◌, Option, none, some, leb,
  if◌then◌else◌, is_empty, length, take, drop, all, keep, map,
}
use mathlib.Core.Option
use skillcdn.Text.{Text, codes, slash, same, has, has_unit, starts_with, split}
use skillcdn.Percent.{encode_uri_component, decode_uri_component}
use skillcdn.License.Words.{is_space, squeeze, trim}

abbrev pub search_page_path : Text
search_page_path = codes "/search"

abbrev pub search_query_param : Text
search_query_param = codes "q"

abbrev pub max_search_term_length : ℕ
max_search_term_length = 120

-- `\p{Cc}`.
unfoldable pub is_control : ℕ → Bool
is_control c = leb c 0x1f || (leb 0x7f c && leb c 0x9f)

unfoldable pub blank_controls : Text → Text
unfolding is_control
blank_controls [] = []
blank_controls (c ∷ s) = (if is_control c then b' ' else c) ∷ blank_controls s

unfoldable pub normalize_search_term : Text → Text
unfolding blank_controls squeeze trim
normalize_search_term text =
    trim (take max_search_term_length (trim (squeeze b' ' is_space false (blank_controls text))))

-- `none` is the `URIError` of a lone surrogate.
unfoldable pub path_of_term : Text → Option Text
unfolding normalize_search_term
path_of_term term =
    let normalized = normalize_search_term term in
    if is_empty normalized
    then some search_page_path
    else Option.map (λ t. search_page_path ++ (slash ∷ t)) (encode_uri_component normalized)

unfoldable pub search_term_of_path : Text → Option Text
search_term_of_path pathname =
    let segment = drop (length search_page_path + 1) pathname in
    if same pathname search_page_path
    then some []
    else if not (starts_with pathname (search_page_path ++ (slash ∷ [])))
    then none
    else if is_empty segment || has_unit slash segment
    then none
    else decode_uri_component segment

abbrev pub landing_sections : List Text
landing_sections =
    codes "organizations"
    ∷ codes "showcase"
    ∷ codes "console"
    ∷ codes "steps"
    ∷ codes "packs"
    ∷ codes "builders"
    ∷ codes "faq"
    ∷ codes "cta"
    ∷ []

unfoldable pub is_landing_section : Text → Bool
is_landing_section value = has landing_sections value

unfoldable pub parse_landing_sections : Text → Option (List Text)
unfolding is_landing_section trim
parse_landing_sections text =
    let named = keep (λ part. not (is_empty part)) (map trim (split b',' text)) in
    if not (all is_landing_section named)
    then none
    else some (keep (λ section. has named section) landing_sections)

pub record FeatureMetaNames : Type 0 where
  pub landing_sections : Text
  pub search : Text
  pub console : Text

abbrev pub feature_meta_names : FeatureMetaNames
feature_meta_names = record {
  landing_sections = codes "skillcdn-landing";
  search = codes "skillcdn-search";
  console = codes "skillcdn-console";
}
