-- ===== src/Manifest/Scalars.antt =====
-- The scans of packages/core/src/manifest-fields.ts over the source of a front matter, for the usual
-- mistakes in a plain scalar.
use skillcdn.Common.{
  ℕ, Bool, false, ◌&&◌, ◌||◌, not, List, [], ◌∷◌, Option, none, some, leb, ◌==◌, if◌then◌else◌,
  take, drop, any,
}
use skillcdn.Text.{Text, codes, split, has, includes, ends_with, has_unit}
use skillcdn.License.Words.{is_word, is_space}
use skillcdn.Markdown.Lines.{leading, is_blank_unit, ends_line, starts_blank}

pub record PlainField : Type 0 where
  pub key : Text
  pub value : Text

abbrev pub is_letter : ℕ → Bool
is_letter c = (leb b'A' c && leb c b'Z') || (leb b'a' c && leb c b'z')

-- `\S.*$`.
abbrev pub is_scalar : Text → Bool
is_scalar [] = false
is_scalar (c ∷ s) = not (is_space c) && not (any ends_line s)

-- `^([A-Za-z][\w-]*):[ \t]+(\S.*)$`.
unfoldable pub plain_field : Text → Option PlainField
unfolding leading is_word is_space
plain_field [] = none
plain_field (c ∷ s) =
    let size = leading (λ d. is_word d || d == b'-') s in
    let behind = drop size s in
    elim behind [
      | [] ↦ none
      | colon ∷ rest ↦
          let value = drop (leading is_blank_unit rest) rest in
          if is_letter c && colon == b':' && starts_blank rest && is_scalar value
          then some (record { key = c ∷ take size s; value = value })
          else none
    ]

-- `QUOTED_OR_BLOCK`.
abbrev pub is_quoted_or_block : Text → Bool
is_quoted_or_block [] = false
is_quoted_or_block (c ∷ s) = c == b'"' || c == b'\'' || c == b'|' || c == b'>'

-- `/[ \t]#/`.
unfoldable pub has_comment : Text → Bool
has_comment [] = false
has_comment (c ∷ []) = false
has_comment (c ∷ d ∷ s) = (is_blank_unit c && d == b'#') || has_comment (d ∷ s)

abbrev pub is_commented : List Text → PlainField → Bool
is_commented keys f = has keys f.key && not (is_quoted_or_block f.value) && has_comment f.value

-- The warnings, by the keys whose values are cut.
unfoldable pub commented_in : List Text → List Text → List Text
unfolding plain_field has_comment has
commented_in keys [] = []
commented_in keys (line ∷ lines) =
    let rest = commented_in keys lines in
    elim (plain_field (take 2000 line)) [
      | none ↦ rest
      | some f ↦ if is_commented keys f then f.key ∷ rest else rest
    ]

unfoldable pub commented_value_warnings : Text → List Text → List Text
unfolding commented_in split
commented_value_warnings source keys = commented_in keys (split 10 source)

pub data ScalarHint : Type 0 where
  starts_with_meaning : Text → ℕ → ScalarHint
  has_colon : Text → ScalarHint

abbrev pub yaml_units : Text
yaml_units = codes "[]{}&*!%@`"

abbrev pub hint_of : PlainField → Option ScalarHint
hint_of f = elim f.value [
  | [] ↦ none
  | c ∷ s ↦
      if is_quoted_or_block (c ∷ s)
      then none
      else if has_unit c yaml_units
      then some (starts_with_meaning f.key c)
      else if includes (c ∷ s) (codes ": ") || ends_with (c ∷ s) (codes ":")
      then some (has_colon f.key)
      else none
]

abbrev pub field_hint : Option PlainField → Option ScalarHint
field_hint none = none
field_hint (some f) = hint_of f

unfoldable pub hint_in : List Text → Option ScalarHint
unfolding plain_field has_unit includes ends_with
hint_in [] = none
hint_in (line ∷ lines) =
    let rest = hint_in lines in
    elim (field_hint (plain_field (take 2000 line))) [ none ↦ rest | some hint ↦ some hint ]

unfoldable pub plain_scalar_hint : Text → Option ScalarHint
unfolding hint_in split
plain_scalar_hint source = hint_in (split 10 source)
