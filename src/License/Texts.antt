-- ===== src/License/Texts.antt =====
-- The licenses that the reader knows by their text.
use skillcdn.Common.{
  ℕ, Bool, false, ◌&&◌, ◌||◌, List, [], ◌∷◌, ◌++◌, Option, none, some, if◌then◌else◌, take,
}
use skillcdn.Text.{Text, codes, includes, to_lower}
use skillcdn.License.{Recognized, permissive_as, restrictive_as}
use skillcdn.License.Words.{is_space, squeeze, first_word, has_word, has_opening, version_behind}

abbrev pub max_license_text_length : ℕ
max_license_text_length = 65536

-- The version that a Creative Commons text names.
unfoldable pub cc_version : Text → Option Text
unfolding version_behind
cc_version text =
    elim (version_behind ((codes "attribution", codes "attribution") ∷ []) 80 none text) [
      | some version ↦ some version
      | none ↦
          version_behind ((codes "cc-by", codes "cc-by") ∷ (codes "cc by", codes "cc by") ∷ []) 40
            none text
    ]

-- A part of the name, where the text has the clause.
abbrev pub clause : Bool → Text → Text
clause holds part = if holds then part else []

unfoldable pub creative_commons : Text → Option Recognized
unfolding cc_version has_word has_opening
creative_commons text = elim (cc_version text) [
  | none ↦ none
  | some version ↦
      let nc =
        has_word (codes "noncommercial") none text || has_word (codes "non-commercial") none text in
      let nd =
        has_opening (codes "noderivative") none text
        || has_opening (codes "no-derivative") none text in
      let sa =
        has_word (codes "sharealike") none text || has_word (codes "share-alike") none text in
      let name =
        codes "CC-BY"
        ++ (clause nc (codes "-NC")
            ++ (clause nd (codes "-ND") ++ (clause sa (codes "-SA") ++ (codes "-" ++ version)))) in
      some (if nc || nd then restrictive_as (some name) else permissive_as name)
]

-- `has(phrase, found)`.
abbrev pub on_phrase : Text → Recognized → Text → Option Recognized
on_phrase phrase found text = if includes text phrase then some found else none

unfoldable pub functional_source : Text → Option Recognized
unfolding first_word
functional_source text =
    if includes text (codes "functional source license")
    then some (
        restrictive_as (
          some
            (elim (first_word
              ((codes "fsl-1.1-alv2", codes "FSL-1.1-ALv2")
                ∷ (codes "fsl-1.1-mit", codes "FSL-1.1-MIT")
                ∷ (codes "alv2 future license", codes "FSL-1.1-ALv2")
                ∷ (codes "mit future license", codes "FSL-1.1-MIT")
                ∷ [])
              none text) [ none ↦ codes "FSL-1.1" | some name ↦ name ])))
    else none

unfoldable pub elastic : Text → Option Recognized
unfolding has_word
elastic text =
    if has_word (codes "elastic license 2.0") none text
      || has_word (codes "elastic license v2") none text
    then some (restrictive_as (some (codes "Elastic-2.0")))
    else none

-- Two phrases of one license.
abbrev pub on_both : Text → Text → Text → Text → Option Recognized
on_both first second name text =
    if includes text first && includes text second then some (permissive_as name) else none

-- A phrase of a license, whose name another phrase decides.
abbrev pub on_version : Text → Text → Text → Text → Text → Option Recognized
on_version phrase mark with_mark without_mark text =
    if includes text phrase
    then some (permissive_as (if includes text mark then with_mark else without_mark))
    else none

abbrev pub bsd : Text → Option Recognized
bsd text =
    if includes text (
      codes
        "redistribution and use in source and binary forms, with or without modification, are permitted")
    then some (
        permissive_as (
          if includes text (codes "advertising materials")
          then codes "BSD-4-Clause"
          else if includes text (codes "neither the name")
          then codes "BSD-3-Clause"
          else codes "BSD-2-Clause"))
    else none

abbrev pub cc_zero : Text → Option Recognized
cc_zero text =
    if includes text (codes "cc0 1.0 universal") || includes text (codes "creative commons zero")
    then some (permissive_as (codes "CC0-1.0"))
    else none

abbrev pub mozilla : Text → Option Recognized
mozilla text =
    if includes text (codes "mozilla public license")
      && (includes text (codes "version 2.0") || includes text (codes "v. 2.0"))
    then some (permissive_as (codes "MPL-2.0"))
    else none

-- `KNOWN_TEXTS`, in the order in which they are tried.
unfoldable pub known_texts : List (Text → Option Recognized)
unfolding functional_source elastic creative_commons
known_texts =
    functional_source
    ∷ on_phrase (codes "business source license") (restrictive_as (some (codes "BUSL-1.1")))
    ∷ on_phrase (codes "server side public license") (restrictive_as (some (codes "SSPL-1.0")))
    ∷ elastic
    ∷ on_phrase (codes "polyform noncommercial")
        (restrictive_as (some (codes "PolyForm-Noncommercial-1.0.0")))
    ∷ on_phrase (codes "commons clause") (restrictive_as (some (codes "Commons-Clause")))
    ∷ on_both (codes "apache license") (codes "version 2.0") (codes "Apache-2.0")
    ∷ on_phrase (codes "mit no attribution") (permissive_as (codes "MIT-0"))
    ∷ on_phrase
        (codes "permission is hereby granted, free of charge, to any person obtaining a copy")
        (permissive_as (codes "MIT"))
    ∷ on_version
        (codes
          "permission to use, copy, modify, and/or distribute this software for any purpose with or without fee is hereby granted")
        (codes "provided that the above copyright notice") (codes "ISC") (codes "0BSD")
    ∷ bsd
    ∷ on_phrase (codes "this is free and unencumbered software released into the public domain")
        (permissive_as (codes "Unlicense"))
    ∷ cc_zero
    ∷ mozilla
    ∷ on_version (codes "eclipse public license") (codes "2.0") (codes "EPL-2.0") (codes "EPL-1.0")
    ∷ on_phrase (codes "gnu affero general public license") (permissive_as (codes "AGPL-3.0"))
    ∷ on_version (codes "gnu lesser general public license") (codes "version 3") (codes "LGPL-3.0")
        (codes "LGPL-2.1")
    ∷ on_version (codes "gnu general public license") (codes "version 3") (codes "GPL-3.0")
        (codes "GPL-2.0")
    ∷ on_phrase (codes "altered source versions must be plainly marked as such")
        (permissive_as (codes "Zlib"))
    ∷ on_phrase (codes "boost software license") (permissive_as (codes "BSL-1.0"))
    ∷ on_phrase (codes "do what the fuck you want to public license")
        (permissive_as (codes "WTFPL"))
    ∷ on_both (codes "artistic license") (codes "2.0") (codes "Artistic-2.0")
    ∷ on_phrase (codes "postgresql license") (permissive_as (codes "PostgreSQL"))
    ∷ on_phrase (codes "sil open font license") (permissive_as (codes "OFL-1.1"))
    ∷ on_phrase (codes "blue oak model license") (permissive_as (codes "BlueOak-1.0.0"))
    ∷ creative_commons
    ∷ on_phrase (codes "all rights reserved") (restrictive_as (some (codes "All rights reserved")))
    ∷ []

unfoldable pub normalize_text : Text → Text
unfolding squeeze
normalize_text text = squeeze b' ' is_space false (to_lower (take max_license_text_length text))

unfoldable pub first_recognized : List (Text → Option Recognized) → Text → Recognized
first_recognized [] text = restrictive_as none
first_recognized (recognize ∷ others) text = elim (recognize text) [
  | some found ↦ found
  | none ↦ first_recognized others text
]

unfoldable pub classify_license_text : Text → Recognized
unfolding normalize_text first_recognized known_texts
classify_license_text text = first_recognized known_texts (normalize_text text)
