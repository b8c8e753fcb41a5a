-- ===== src/SearchPages/RoundTrip.antt =====
-- The page of a term names the term.
use skillcdn.Common.{◌≡◌, refl, ◌≢◌, true, [], ◌∷◌, ◌++◌, some, is_empty, if◌then◌else◌}
use mathlib.Core.Option
use skillcdn.Text.{Text, slash, same, starts_with}
use skillcdn.Text.Search.{has_unit_of_Lacks}
use skillcdn.Text.Split.{Lacks}
use skillcdn.TextSafety.{is_well_formed}
use skillcdn.Percent.{encode_uri_component, decode_uri_component, pieces, assemble}
use skillcdn.Percent.Points.{IsUnits}
use skillcdn.Percent.RoundTrip.{Decodes, decode_of_Decodes}
use skillcdn.Percent.Encode.{encode_well_formed}
use skillcdn.SearchPages.{
  search_page_path, normalize_search_term, path_of_term, search_term_of_path,
}

nothing_decodes : decode_uri_component [] ≡ some []
unfolding decode_uri_component pieces assemble
nothing_decodes = refl

read_segment :
    (t n : Text)
    → Decodes t n
    → Lacks slash t
    → n ≢ []
    → search_term_of_path (search_page_path ++ (slash ∷ t)) ≡ some n
unfolding search_term_of_path same starts_with
read_segment [] n d l ne = absurd (ne (cc (decode_of_Decodes d, nothing_decodes)))
read_segment (c ∷ t) n d l ne = rw (has_unit_of_Lacks slash (c ∷ t) l, decode_of_Decodes d) refl

-- What the path of a normalized term is, as `path_of_term` tests it.
path_of_normalized :
    (n : Text)
    → IsUnits n
    → is_well_formed n ≡ true
    → (path : Text) × ((if is_empty n
          then some search_page_path
          else Option.map (λ u. search_page_path ++ (slash ∷ u)) (encode_uri_component n))
        ≡ some path)
      × (search_term_of_path path ≡ some n)
unfolding search_term_of_path same
path_of_normalized [] units formed = (search_page_path, refl, refl)
path_of_normalized (c ∷ n) units formed =
    let (t, e, d, l) = encode_well_formed (c ∷ n) units formed in
    (search_page_path ++ (slash ∷ t), rw e refl, read_segment t (c ∷ n) d l (λ k. cc))

-- Where the normalized term is of 16-bit units and holds no half of a surrogate pair, searchPagePath
-- gives a path, and the term that the path names is the normalized term; a term of which nothing is left has the page of the
-- box alone, which names the empty term.
pub search_term-path_of_term :
    (term : Text)
    → IsUnits (normalize_search_term term)
    → is_well_formed (normalize_search_term term) ≡ true
    → (path : Text) × (path_of_term term ≡ some path)
      × (search_term_of_path path ≡ some (normalize_search_term term))
unfolding path_of_term
search_term-path_of_term term units formed =
    path_of_normalized (normalize_search_term term) units formed
