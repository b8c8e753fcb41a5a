-- ===== src/ConsentRegions/Tests.antt =====
-- Settings read and visitors asked, and the theorems at those inputs.
use skillcdn.Common.{◌≡◌, refl, true, [], ◌∷◌, none, some}
use skillcdn.Text.{codes, same, split, starts_with, to_lower}
use skillcdn.License.Words.{is_space, skip_spaces, trim}
use skillcdn.ConsentRegions.{
  ConsentRegions, regions, parse_consent_regions, regions_of, to_upper_case, is_region,
  is_subdivision, is_capital, asks_consent, is_unassigned, normalize_country,
}

run : Unit {0}
unfolding same split starts_with to_lower is_space skip_spaces trim parse_consent_regions regions_of
    to_upper_case is_region is_subdivision is_capital asks_consent is_unassigned normalize_country
run = tt

abbrev setting : ConsentRegions
setting = regions (codes "DE" ∷ codes "US-CA" ∷ [])

parsed : parse_consent_regions (codes " de, us-ca ,") ≡ some setting
unfolding run
parsed = refl

parts_of_a_country : asks_consent (regions (codes "US" ∷ [])) (some (codes "US-CA")) ≡ true
unfolding run
parts_of_a_country = refl

unplaced : normalize_country (some (codes "xx")) ≡ none
unfolding run
unplaced = refl
