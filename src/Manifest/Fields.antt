-- ===== src/Manifest/Fields.antt =====
-- packages/core/src/manifest-fields.ts: the rules of the fields that both manifests share. What is
-- reported through `ignored` comes back beside the value, as what the message says.
use skillcdn.Common.{
  ℕ, ◌+◌, Bool, false, ◌&&◌, ◌||◌, not, List, [], ◌∷◌, Option, none, some, ltb, leb, ◌==◌,
  if◌then◌else◌, length, is_empty, map, any, all,
}
use skillcdn.Text.{Text, codes, split, same}
use skillcdn.TextSafety.{has_forbidden_code_point}
use skillcdn.License.Words.{trim}
use skillcdn.Manifest.Values.{Value, Fields, end, field, get_field, text_of, is_missing, mapping_of}

abbrev pub max_optional_field_length : ℕ
max_optional_field_length = 1024

abbrev pub max_metadata_entries : ℕ
max_metadata_entries = 64

abbrev pub max_metadata_key_length : ℕ
max_metadata_key_length = 128

abbrev pub max_translations : ℕ
max_translations = 32

-- What a message of `ignored` says.
pub data Ignored : Type 0 where
  bad_text : Text → ℕ → Ignored
  bad_language : Ignored
  no_mapping : Text → Ignored
  dropped_entries : Text → ℕ → Ignored
  bad_flag : Text → Ignored
  bad_image : Ignored
  no_line : Text → Ignored

-- A value and what was reported on the way.
abbrev pub Read : Type 0 → Type 0
Read A = A × List Ignored

abbrev pub is_lower_letter : ℕ → Bool
is_lower_letter c = leb b'a' c && leb c b'z'

abbrev pub is_letter_or_digit : ℕ → Bool
is_letter_or_digit c = is_lower_letter c || (leb b'A' c && leb c b'Z') || (leb b'0' c && leb c b'9')

abbrev pub is_primary_tag : Text → Bool
is_primary_tag part = leb 2 (length part) && leb (length part) 3 && all is_lower_letter part

abbrev pub is_subtag : Text → Bool
is_subtag part = leb 2 (length part) && leb (length part) 8 && all is_letter_or_digit part

-- `LANGUAGE_TAG`, by the parts between the hyphens.
unfoldable pub is_language_tag : Text → Bool
unfolding split
is_language_tag tag = elim (split b'-' tag) [
  | [] ↦ false
  | primary ∷ subtags ↦ is_primary_tag primary && leb (length subtags) 3 && all is_subtag subtags
]

-- `/[\n\r\t]/`.
abbrev pub is_break : ℕ → Bool
is_break c = c == 10 || c == 13 || c == 9

unfoldable pub has_unsafe_text : Text → Bool
unfolding has_forbidden_code_point
has_unsafe_text t = has_forbidden_code_point (map (λ c. if is_break c then b' ' else c) t)

unfoldable pub required_text : Option Value → ℕ → Option Text
unfolding trim has_unsafe_text
required_text value max_length = elim (text_of value) [
  | none ↦ none
  | some raw ↦
      let t = trim raw in
      if is_empty t || ltb max_length (length t) || has_unsafe_text t then none else some t
]

unfoldable pub required_line : Option Value → ℕ → Option Text
unfolding required_text
required_line value max_length = elim (required_text value max_length) [
  | none ↦ none
  | some t ↦ if any is_break t then none else some t
]

unfoldable pub optional_text : Fields → Text → ℕ → Read (Option Text)
unfolding get_field required_text
optional_text fields name max_length =
    let value = get_field name fields in
    if is_missing value then (none, []) else elim (required_text value max_length) [
      | none ↦ (none, bad_text name max_length ∷ [])
      | some t ↦ (some t, [])
    ]

unfoldable pub optional_language : Fields → Read (Option Text)
unfolding get_field trim is_language_tag
optional_language fields =
    let value = get_field (codes "language") fields in
    if is_missing value then (none, []) else elim (text_of value) [
      | none ↦ (none, bad_language ∷ [])
      | some raw ↦
          if is_language_tag (trim raw) then (some (trim raw), []) else (none, bad_language ∷ [])
    ]

-- An object without a prototype, by its entries: an assignment to a key that is there takes its place.
-- That JavaScript lists keys spelled as array indices first is not modelled.
unfoldable pub set_entry {ℓ} : {T : Type ℓ} → Text → T → List (Text × T) → List (Text × T)
unfolding same
set_entry key value [] = (key, value) ∷ []
set_entry key value ((k, v) ∷ entries) =
    let rest = set_entry key value entries in
    if same k key then (k, value) ∷ entries else (k, v) ∷ rest

-- What a loop over the entries of a mapping has kept, under which count, and dropped.
pub record Kept {ℓ} (T : Type ℓ) : Type ℓ where
  pub entries : List (Text × T)
  pub kept : ℕ
  pub dropped : ℕ

abbrev pub keep_entry {ℓ} : {T : Type ℓ} → Text → T → Kept T → Kept T
keep_entry key value s = record s { entries = set_entry key value s.entries; kept = s.kept + 1 }

abbrev pub drop_entry {ℓ} : {T : Type ℓ} → Kept T → Kept T
drop_entry s = record s { dropped = s.dropped + 1 }

-- `typeof key === "string"` and the bounds of a key.
abbrev pub metadata_key : Value → Option Text
metadata_key key = elim (text_of (some key)) [
  | none ↦ none
  | some t ↦
      if not (is_empty t)
        && leb (length t) max_metadata_key_length
        && not (has_forbidden_code_point t)
      then some t
      else none
]

-- The body of the loop of `readMetadata`.
abbrev pub note_metadata : Option Text → Option Text → Kept Text → Kept Text
note_metadata none value s = drop_entry s
note_metadata (some key) none s = drop_entry s
note_metadata (some key) (some value) s =
    if ltb s.kept max_metadata_entries then keep_entry key value s else drop_entry s

unfoldable pub metadata_from : Kept Text → Fields → Kept Text
unfolding required_text has_forbidden_code_point set_entry
metadata_from s end = s
metadata_from s (field key value fields) =
    metadata_from
      (note_metadata (metadata_key key) (required_text (some value) max_optional_field_length) s)
      fields

abbrev pub nothing_kept {ℓ} : {T : Type ℓ} → Kept T
nothing_kept = record { entries = []; kept = 0; dropped = 0 }

-- What a loop kept, with a report of what it dropped.
abbrev pub reported {ℓ} : {T : Type ℓ} → Text → Kept T → List (Text × T) × List Ignored
reported name s = (s.entries, if ltb 0 s.dropped then dropped_entries name s.dropped ∷ [] else [])

unfoldable pub read_metadata : Option Value → Read (List (Text × Text))
unfolding metadata_from
read_metadata value = if is_missing value then ([], []) else elim (mapping_of value) [
  | none ↦ ([], no_mapping (codes "metadata") ∷ [])
  | some fields ↦ reported (codes "metadata") (metadata_from nothing_kept fields)
]

module _ {T : Type 0} (pick : Fields → Option T) where
  -- `isLanguageTag(tag) && entry instanceof Map && kept < MAX_TRANSLATIONS ? pick(entry) : undefined`.
  abbrev pub picked : Option Text → Option Fields → ℕ → Option (Text × T)
  picked none entry kept = none
  picked (some tag) none kept = none
  picked (some tag) (some entry) kept =
      if is_language_tag tag && ltb kept max_translations
      then elim (pick entry) [ none ↦ none | some t ↦ some (tag, t) ]
      else none

  unfoldable pub translations_from : Kept T → Fields → Kept T
  unfolding is_language_tag set_entry
  translations_from s end = s
  translations_from s (field tag entry fields) =
      translations_from
        (elim (picked (text_of (some tag)) (mapping_of (some entry)) s.kept) [
          | none ↦ drop_entry s
          | some (key, t) ↦ keep_entry key t s
        ])
        fields

  unfoldable pub read_translations : Option Value → Read (List (Text × T))
  unfolding translations_from
  read_translations value = if is_missing value then ([], []) else elim (mapping_of value) [
    | none ↦ ([], no_mapping (codes "translations") ∷ [])
    | some fields ↦ reported (codes "translations") (translations_from nothing_kept fields)
  ]
