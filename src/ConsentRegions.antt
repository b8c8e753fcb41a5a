-- ===== src/ConsentRegions.antt =====
-- apps/server/src/http/consent-regions.ts: where analytics ask before they run.
pub mod Laws
mod Tests
use skillcdn.Common.{
  ℕ, ◌+◌, ◌-◌, Bool, true, false, ◌&&◌, ◌||◌, not, List, [], ◌∷◌, ◌++◌, Option, none, some, leb,
  if◌then◌else◌, is_empty, length, all, any, ◌==◌,
}
use skillcdn.Text.{Text, codes, same, has, starts_with, split, to_lower}
use skillcdn.GitRef.{is_digit}
use skillcdn.License.Words.{trim}

-- `*`, or a list of regions.
pub data ConsentRegions : Type 0 where
  everywhere : ConsentRegions
  regions : List Text → ConsentRegions

abbrev pub default_consent_regions : List Text
default_consent_regions =
    codes "AT"
    ∷ codes "BE"
    ∷ codes "BG"
    ∷ codes "HR"
    ∷ codes "CY"
    ∷ codes "CZ"
    ∷ codes "DK"
    ∷ codes "EE"
    ∷ codes "FI"
    ∷ codes "FR"
    ∷ codes "DE"
    ∷ codes "GR"
    ∷ codes "HU"
    ∷ codes "IE"
    ∷ codes "IT"
    ∷ codes "LV"
    ∷ codes "LT"
    ∷ codes "LU"
    ∷ codes "MT"
    ∷ codes "NL"
    ∷ codes "PL"
    ∷ codes "PT"
    ∷ codes "RO"
    ∷ codes "SK"
    ∷ codes "SI"
    ∷ codes "ES"
    ∷ codes "SE"
    ∷ codes "IS"
    ∷ codes "LI"
    ∷ codes "NO"
    ∷ codes "GB"
    ∷ codes "CH"
    ∷ []

-- `s.toUpperCase()`, as far as its result is ASCII: the letters a to z, the sharp s, the dotless i, the
-- long s and the ligatures of f and of st. Other units keep their value, which no code has.
abbrev pub upper_unit : ℕ → Text
upper_unit c =
    if leb b'a' c && leb c b'z'
    then (c - 32) ∷ []
    else if c == 0xdf
    then codes "SS"
    else if c == 0x131
    then codes "I"
    else if c == 0x17f
    then codes "S"
    else if c == 0xfb00
    then codes "FF"
    else if c == 0xfb01
    then codes "FI"
    else if c == 0xfb02
    then codes "FL"
    else if c == 0xfb03
    then codes "FFI"
    else if c == 0xfb04
    then codes "FFL"
    else if c == 0xfb05 || c == 0xfb06
    then codes "ST"
    else c ∷ []

unfoldable pub to_upper_case : Text → Text
to_upper_case [] = []
to_upper_case (c ∷ s) = upper_unit c ++ to_upper_case s

unfoldable pub is_capital : ℕ → Bool
is_capital c = leb b'A' c && leb c b'Z'

-- `(?:-[A-Z0-9]{1,3})?$`.
unfoldable pub is_subdivision : Text → Bool
unfolding is_capital
is_subdivision [] = true
is_subdivision (c ∷ s) =
    c == b'-' && (not (is_empty s) && (leb (length s) 3 && all (λ d. is_capital d || is_digit d) s))

-- `/^[A-Z]{2}(?:-[A-Z0-9]{1,3})?$/`.
unfoldable pub is_region : Text → Bool
unfolding is_capital is_subdivision
is_region (a ∷ b ∷ s) = is_capital a && (is_capital b && is_subdivision s)
is_region _ = false

-- `/^(?:AA|Q[M-Z]|X[A-Z]|ZZ)$/`.
unfoldable pub is_unassigned : Text → Bool
unfolding is_capital
is_unassigned (a ∷ b ∷ []) =
    (a == b'A' && b == b'A')
    || (a == b'Q' && (leb b'M' b && leb b b'Z'))
    || (a == b'X' && is_capital b)
    || (a == b'Z' && b == b'Z')
is_unassigned _ = false

-- The loop over the entries.
unfoldable pub regions_of : List Text → Option (List Text)
unfolding trim to_upper_case is_region
regions_of [] = some []
regions_of (entry ∷ entries) =
    let rest = regions_of entries in
    let code = to_upper_case (trim entry) in
    if is_empty code
    then rest
    else if not (is_region code)
    then none
    else elim rest [ none ↦ none | some codes ↦ some (code ∷ codes) ]

unfoldable pub parse_consent_regions : Text → Option ConsentRegions
unfolding trim regions_of
parse_consent_regions text =
    let trimmed = trim text in
    if same trimmed (codes "*")
    then some everywhere
    else if same (to_lower trimmed) (codes "none")
    then some (regions [])
    else elim (regions_of (split b',' trimmed)) [
      | none ↦ none
      | some [] ↦ none
      | some (r ∷ rs) ↦ some (regions (r ∷ rs))
    ]

unfoldable pub normalize_country : Option Text → Option Text
unfolding trim to_upper_case is_region is_unassigned
normalize_country none = none
normalize_country (some value) =
    let code = to_upper_case (trim value) in
    if is_region code && not (is_unassigned code) then some code else none

unfoldable pub asks_consent : ConsentRegions → Option Text → Bool
asks_consent everywhere country = true
asks_consent (regions []) country = false
asks_consent (regions (r ∷ rs)) none = true
asks_consent (regions (r ∷ rs)) (some country) =
    any (λ region. same country region || starts_with country (region ++ (b'-' ∷ []))) (r ∷ rs)
