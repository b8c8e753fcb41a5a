-- ===== src/License/Ids.antt =====
-- The license identifiers that authors declare.
use skillcdn.Common.{
  Bool, true, false, ◌&&◌, ◌||◌, List, [], ◌∷◌, ◌++◌, Option, none, some, leb, ◌==◌, ◌-◌,
  if◌then◌else◌, length, drop, is_empty,
}
use mathlib.Core.List.{reverse}
use skillcdn.Text.{Text, codes, same, starts_with, includes, to_lower}
use skillcdn.GitRef.{is_digit}
use skillcdn.License.{Recognized, permissive_as, restrictive_as}
use skillcdn.License.Words.{is_space, squeeze, trim}

-- `KNOWN_IDS`, with the one property in lower case that every object inherits: `constructor` is a
-- function of the name `Object`, whose kind is undefined.
abbrev pub known_ids : List (Text × Recognized)
known_ids =
    (codes "mit", permissive_as (codes "MIT"))
    ∷ (codes "mit-0", permissive_as (codes "MIT-0"))
    ∷ (codes "x11", permissive_as (codes "X11"))
    ∷ (codes "isc", permissive_as (codes "ISC"))
    ∷ (codes "0bsd", permissive_as (codes "0BSD"))
    ∷ (codes "bsd", permissive_as (codes "BSD-3-Clause"))
    ∷ (codes "bsd-2", permissive_as (codes "BSD-2-Clause"))
    ∷ (codes "bsd-2-clause", permissive_as (codes "BSD-2-Clause"))
    ∷ (codes "bsd-3", permissive_as (codes "BSD-3-Clause"))
    ∷ (codes "bsd-3-clause", permissive_as (codes "BSD-3-Clause"))
    ∷ (codes "bsd-4-clause", permissive_as (codes "BSD-4-Clause"))
    ∷ (codes "apache", permissive_as (codes "Apache-2.0"))
    ∷ (codes "apache-2", permissive_as (codes "Apache-2.0"))
    ∷ (codes "apache-2.0", permissive_as (codes "Apache-2.0"))
    ∷ (codes "apache2", permissive_as (codes "Apache-2.0"))
    ∷ (codes "unlicense", permissive_as (codes "Unlicense"))
    ∷ (codes "cc0", permissive_as (codes "CC0-1.0"))
    ∷ (codes "cc0-1.0", permissive_as (codes "CC0-1.0"))
    ∷ (codes "public-domain", permissive_as (codes "CC0-1.0"))
    ∷ (codes "cc-by", permissive_as (codes "CC-BY-4.0"))
    ∷ (codes "cc-by-sa", permissive_as (codes "CC-BY-SA-4.0"))
    ∷ (codes "mpl", permissive_as (codes "MPL-2.0"))
    ∷ (codes "mpl-2.0", permissive_as (codes "MPL-2.0"))
    ∷ (codes "epl-1.0", permissive_as (codes "EPL-1.0"))
    ∷ (codes "epl-2.0", permissive_as (codes "EPL-2.0"))
    ∷ (codes "gpl", permissive_as (codes "GPL-3.0"))
    ∷ (codes "gpl-2.0", permissive_as (codes "GPL-2.0"))
    ∷ (codes "gplv2", permissive_as (codes "GPL-2.0"))
    ∷ (codes "gpl-3.0", permissive_as (codes "GPL-3.0"))
    ∷ (codes "gplv3", permissive_as (codes "GPL-3.0"))
    ∷ (codes "lgpl", permissive_as (codes "LGPL-3.0"))
    ∷ (codes "lgpl-2.1", permissive_as (codes "LGPL-2.1"))
    ∷ (codes "lgpl-3.0", permissive_as (codes "LGPL-3.0"))
    ∷ (codes "agpl", permissive_as (codes "AGPL-3.0"))
    ∷ (codes "agpl-3.0", permissive_as (codes "AGPL-3.0"))
    ∷ (codes "zlib", permissive_as (codes "Zlib"))
    ∷ (codes "boost", permissive_as (codes "BSL-1.0"))
    ∷ (codes "bsl-1.0", permissive_as (codes "BSL-1.0"))
    ∷ (codes "wtfpl", permissive_as (codes "WTFPL"))
    ∷ (codes "artistic-2.0", permissive_as (codes "Artistic-2.0"))
    ∷ (codes "postgresql", permissive_as (codes "PostgreSQL"))
    ∷ (codes "ofl-1.1", permissive_as (codes "OFL-1.1"))
    ∷ (codes "blueoak-1.0.0", permissive_as (codes "BlueOak-1.0.0"))
    ∷ (codes "proprietary", restrictive_as (some (codes "Proprietary")))
    ∷ (codes "confidential", restrictive_as (some (codes "Proprietary")))
    ∷ (codes "all-rights-reserved", restrictive_as (some (codes "All rights reserved")))
    ∷ (codes "arr", restrictive_as (some (codes "All rights reserved")))
    ∷ (codes "unlicensed", restrictive_as (some (codes "All rights reserved")))
    ∷ (codes "none", restrictive_as (some (codes "All rights reserved")))
    ∷ (codes "busl-1.1", restrictive_as (some (codes "BUSL-1.1")))
    ∷ (codes "sspl-1.0", restrictive_as (some (codes "SSPL-1.0")))
    ∷ (codes "commons-clause", restrictive_as (some (codes "Commons-Clause")))
    ∷ (codes "elastic-2.0", restrictive_as (some (codes "Elastic-2.0")))
    ∷ (codes "fsl-1.1-alv2", restrictive_as (some (codes "FSL-1.1-ALv2")))
    ∷ (codes "fsl-1.1-mit", restrictive_as (some (codes "FSL-1.1-MIT")))
    ∷ (
      codes "polyform-noncommercial-1.0.0",
      restrictive_as (some (codes "PolyForm-Noncommercial-1.0.0")),
    )
    ∷ (codes "constructor", permissive_as (codes "Object"))
    ∷ []

unfoldable pub known_id : List (Text × Recognized) → Text → Option Recognized
known_id [] id = none
known_id ((k, recognized) ∷ ids) id = if same k id then some recognized else known_id ids id

-- The first of some literals that stands before what a test accepts is taken out.
unfoldable pub remove_first : List Text → (Text → Bool) → Text → Text
remove_first literals accepts [] = []
remove_first literals accepts (c ∷ s) =
    let rest = remove_first literals accepts s in
    elim (behind literals (c ∷ s)) [ some t ↦ t | none ↦ c ∷ rest ]
  where
    behind : List Text → Text → Option Text
    behind [] t = none
    behind (literal ∷ others) t =
        if starts_with t literal && accepts (drop (length literal) t)
        then some (drop (length literal) t)
        else behind others t

-- `(?=-\d|$)`.
unfoldable pub ends_license : Text → Bool
ends_license [] = true
ends_license (c ∷ []) = false
ends_license (c ∷ d ∷ s) = c == b'-' && is_digit d

-- `.replace(/-v(\d)/, "-$1")`.
unfoldable pub drop_v : Text → Text
drop_v [] = []
drop_v (a ∷ []) = a ∷ []
drop_v (a ∷ b ∷ []) = a ∷ b ∷ []
drop_v (a ∷ b ∷ c ∷ s) = elim (a == b'-' && (b == b'v' && is_digit c)) [
  | true ↦ a ∷ c ∷ s
  | false ↦ a ∷ drop_v (b ∷ c ∷ s)
]

abbrev pub drop_dash : Text → Text
drop_dash [] = []
drop_dash (c ∷ s) = if c == b'-' then s else c ∷ s

abbrev pub drop_the : Text → Text
drop_the s = if starts_with s (codes "the-") then drop 4 s else s

unfoldable pub normalize_id : Text → Text
unfolding squeeze trim remove_first ends_license drop_v
normalize_id part =
    let dashed = squeeze b'-' (λ c. is_space c || c == b'_') false (to_lower (trim part)) in
    let named =
      remove_first (codes "-license" ∷ codes "-licence" ∷ codes "license" ∷ codes "licence" ∷ [])
        ends_license (drop_the dashed) in
    let bare =
      remove_first (codes "-only" ∷ codes "only" ∷ codes "-or-later" ∷ codes "or-later" ∷ [])
        is_empty named in
    let single = squeeze b'-' (λ c. c == b'-') false (drop_v bare) in
    reverse (drop_dash (reverse (drop_dash single)))

-- `-\d\.\d` and nothing more.
unfoldable pub is_version_suffix : Text → Bool
is_version_suffix (a ∷ b ∷ c ∷ d ∷ []) = a == b'-' && (is_digit b && (c == b'.' && is_digit d))
is_version_suffix _ = false

-- `(?:-(?:nc|nd|sa))*(?:-\d\.\d)?$`.
unfoldable pub is_cc_suffix : Text → Bool
unfolding is_version_suffix
is_cc_suffix [] = true
is_cc_suffix (a ∷ []) = false
is_cc_suffix (a ∷ b ∷ []) = false
is_cc_suffix (a ∷ b ∷ c ∷ s) =
    (a == b'-'
      && (same (b ∷ c ∷ []) (codes "nc")
          || same (b ∷ c ∷ []) (codes "nd")
          || same (b ∷ c ∷ []) (codes "sa"))
      && is_cc_suffix s)
    || is_version_suffix (a ∷ b ∷ c ∷ s)

-- `/-\d\.\d$/`.
unfoldable pub ends_in_version : Text → Bool
unfolding is_version_suffix
ends_in_version [] = false
ends_in_version (c ∷ s) = is_version_suffix (c ∷ s) || ends_in_version s

-- `id.toUpperCase()` of an ASCII text.
unfoldable pub to_upper : Text → Text
to_upper [] = []
to_upper (c ∷ s) = (if leb b'a' c && leb c b'z' then c - 32 else c) ∷ to_upper s

unfoldable pub creative_commons_id : Text → Recognized
unfolding ends_in_version to_upper
creative_commons_id id =
    let name = if ends_in_version id then to_upper id else to_upper id ++ codes "-4.0" in
    if includes id (codes "-nc") || includes id (codes "-nd")
    then restrictive_as (some name)
    else permissive_as name

unfoldable pub recognize_id : Text → Option Recognized
unfolding normalize_id known_id is_cc_suffix creative_commons_id
recognize_id part =
    let id = normalize_id part in
    elim (known_id known_ids id) [
      | some known ↦ some known
      | none ↦
          if starts_with id (codes "cc-by") && is_cc_suffix (drop 5 id)
          then some (creative_commons_id id)
          else if starts_with id (codes "fsl-")
          then some (restrictive_as (some (codes "FSL-1.1")))
          else none
    ]
