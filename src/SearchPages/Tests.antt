-- ===== src/SearchPages/Tests.antt =====
-- Terms and their pages, and the theorem at one of them.
use skillcdn.Common.{ℕ, zero, suc, ◌≡◌, refl, [], ◌∷◌, none, some, true, arith}
use skillcdn.Text.{Text, codes, same, has, split}
use skillcdn.TextSafety.{
  is_well_formed, code_points, is_high_surrogate, is_low_surrogate, is_surrogate,
}
use skillcdn.Percent.{encode_uri_component, encode_points}
use skillcdn.License.Words.{is_space, squeeze, skip_spaces, trim}
use skillcdn.SearchPages.{
  is_control, blank_controls, normalize_search_term, path_of_term, search_term_of_path,
  parse_landing_sections, is_landing_section,
}
use skillcdn.SearchPages.RoundTrip.{search_term-path_of_term}

run : Unit {0}
unfolding is_space squeeze skip_spaces trim is_control blank_controls normalize_search_term
    is_well_formed code_points is_high_surrogate is_low_surrogate is_surrogate same has split
    parse_landing_sections is_landing_section encode_uri_component encode_points path_of_term
run = tt

normalized : normalize_search_term (codes "  two   words ") ≡ codes "two words"
unfolding run
normalized = refl

in_page_order :
    parse_landing_sections (codes "faq, steps,,faq") ≡ some (codes "steps" ∷ codes "faq" ∷ [])
unfolding run
in_page_order = refl

abbrev repeat : ℕ → Text → Text
repeat zero s = s
repeat (suc n) s = b'a' ∷ repeat n s

-- A term whose 120th unit is the first half of a surrogate pair: the cut leaves that half alone, and
-- there is no path.
cut_pair : path_of_term (repeat 119 (0xd83d ∷ 0xde00 ∷ [])) ≡ none
unfolding run
cut_pair = refl

formed : is_well_formed (normalize_search_term (codes "  two   words ")) ≡ true
unfolding run
formed = refl

search_term-path_of_term_example :
    (path : Text) × (path_of_term (codes "  two   words ") ≡ some path)
    × (search_term_of_path path ≡ some (normalize_search_term (codes "  two   words ")))
unfolding run
search_term-path_of_term_example =
    search_term-path_of_term (codes "  two   words ") (omega arith) formed
