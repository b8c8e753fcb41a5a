-- ===== src/ConsentRegions/Laws.antt =====
-- Who is asked, and what a list of regions holds.
use skillcdn.Common.{
  ◌≡◌, refl, ◌∙◌, ◌↔◌, inl, inr, Bool, true, ◌||◌, List, [], ◌∷◌, ◌++◌, Option, none, some,
  any-true, any-In, In, All, arith, Bool-cases, Option-cases, is_empty, append_assoc,
}
use skillcdn.Text.{Text, codes, same, starts_with, split, to_lower}
use skillcdn.Text.Compare.{same_iff, starts_with→append, starts_with-append}
use skillcdn.License.Words.{trim}
use skillcdn.ConsentRegions.{
  ConsentRegions, everywhere, regions, is_region, to_upper_case, regions_of, parse_consent_regions,
  asks_consent,
}

-- A country is in a region: it is the region, or it is a part of it.
pub data IsIn (country region : Text) : Type 0 where
  itself : country ≡ region → IsIn country region
  part : (rest : Text) → country ≡ region ++ (b'-' ∷ rest) → IsIn country region

-- Who is asked before analytics run: everybody, or, where some regions are listed, the visitors of an
-- unknown country and those of a listed region.
pub data Asks : ConsentRegions → Option Text → Type 0 where
  all_visitors : (country : Option Text) → Asks everywhere country
  unknown : (r : Text) (rs : List Text) → Asks (regions (r ∷ rs)) none
  listed :
      (rs : List Text) (country region : Text)
      → In region rs
      → IsIn country region
      → Asks (regions rs) (some country)

-- The test of one region.
abbrev is_of : Text → Text → Bool
is_of country region = same country region || starts_with country (region ++ (b'-' ∷ []))

is_of-IsIn :
    (country region : Text)
    → (same country region || starts_with country (region ++ (b'-' ∷ []))) ≡ true
    → IsIn country region
is_of-IsIn country region h = elim (Bool-cases (same country region)) [
  | inl e ↦ itself ((same_iff country region).0 e)
  | inr n ↦
      let (r, e) = starts_with→append country (region ++ (b'-' ∷ [])) (ground arith) in
      part r (e ∙ append_assoc region (b'-' ∷ []) r)
]

IsIn-is_of :
    (country region : Text)
    → IsIn country region
    → (same country region || starts_with country (region ++ (b'-' ∷ []))) ≡ true
IsIn-is_of country region (itself e) = ground (arith, same_iff country region)
IsIn-is_of country region (part r e) =
    ground (arith, starts_with-append (region ++ (b'-' ∷ [])) r, append_assoc region (b'-' ∷ []) r)

asked :
    (c : ConsentRegions) (country : Option Text) → asks_consent c country ≡ true → Asks c country
unfolding asks_consent
asked everywhere country h = all_visitors country
asked (regions []) country h = cc
asked (regions (r ∷ rs)) none h = unknown r rs
asked (regions (r ∷ rs)) (some country) h =
    let (region, m, e) = any-true (is_of country) (r ∷ rs) h in
    listed (r ∷ rs) country region m (is_of-IsIn country region e)

asks : (c : ConsentRegions) (country : Option Text) → Asks c country → asks_consent c country ≡ true
unfolding asks_consent
asks _ _ (all_visitors country) = refl
asks _ _ (unknown r rs) = refl
asks _ _ (listed [] country region m i) = nowhere m
  where
    nowhere : In region [] → asks_consent (regions []) (some country) ≡ true
    nowhere m = elim m [ ]
asks _ _ (listed (r ∷ rs) country region m i) =
    any-In (is_of country) m (IsIn-is_of country region i)

-- asksConsent answers true exactly for who is asked: a visitor whose country is not known is asked
-- wherever any region is, and a listed region takes in its subdivisions.
pub asks_consent_iff :
    (c : ConsentRegions) (country : Option Text) → (asks_consent c country ≡ true) ↔ Asks c country
asks_consent_iff c country = (asked c country, asks c country)

-- What a setting of regions may hold.
abbrev pub IsSetting : ConsentRegions → Type 0
IsSetting everywhere = Unit
IsSetting (regions codes) = All (λ code. is_region code ≡ true) codes

regions_of-All :
    (entries codes : List Text)
    → regions_of entries ≡ some codes
    → All (λ code. is_region code ≡ true) codes
unfolding regions_of
regions_of-All [] codes h = let e : codes ≡ [] = cc in rw e tt
regions_of-All (entry ∷ entries) codes h =
    elim (Bool-cases (is_empty (to_upper_case (trim entry)))) [
      | inl blank ↦ regions_of-All entries codes (rw blank at h)
      | inr filled ↦ elim (Bool-cases (is_region (to_upper_case (trim entry)))) [
        | inr bad ↦ cc (rw (filled, bad) at h)
        | inl good ↦ elim (Option-cases (regions_of entries)) [
          | inl e ↦ cc (rw (filled, good, e, regions_of) at h)
          | inr (others, e) ↦
              let q : codes ≡ to_upper_case (trim entry) ∷ others =
                cc (rw (filled, good, e, regions_of) at h) in
              rw q (good, regions_of-All entries others e)
        ]
      ]
    ]

-- Every region of a setting that is accepted is a code of a country or of one of its subdivisions.
parse_consent-IsSetting :
    (text : Text) (c : ConsentRegions) → parse_consent_regions text ≡ some c → IsSetting c
unfolding parse_consent_regions
parse_consent-IsSetting text c h = elim (Bool-cases (same (trim text) (codes "*"))) [
  | inl star ↦ let e : c ≡ everywhere = cc (rw star at h) in rw e tt
  | inr named ↦ elim (Bool-cases (same (to_lower (trim text)) (codes "none"))) [
    | inl nowhere ↦ let e : c ≡ regions [] = cc (rw (named, nowhere) at h) in rw e tt
    | inr some_region ↦ go (regions_of (split b',' (trim text))) refl (rw (named, some_region) at h)
  ]
]
  where
    go :
        (o : Option (List Text))
        → regions_of (split b',' (trim text)) ≡ o
        → elim o [ none ↦ none | some [] ↦ none | some (r ∷ rs) ↦ some (regions (r ∷ rs)) ] ≡ some c
        → IsSetting c
    go none e k = cc
    go (some []) e k = cc
    go (some (r ∷ rs)) e k =
        let q : c ≡ regions (r ∷ rs) = cc in
        rw q (regions_of-All (split b',' (trim text)) (r ∷ rs) e)
