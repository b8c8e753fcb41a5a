-- ===== src/Markdown/Lines.antt =====
-- The patterns of packages/core/src/markdown-blocks.ts and search/outline.ts over one line. A pattern
-- that starts with ` {0,3}` goes on with a unit that is no space, so that all spaces up to three are
-- the indent.
use skillcdn.Common.{
  ℕ, zero, suc, ◌+◌, Bool, true, false, ◌&&◌, ◌||◌, not, List, [], ◌∷◌, ◌++◌, Option, none, some,
  leb, ◌==◌, if◌then◌else◌, drop, all, any, length,
}
use skillcdn.Text.{Text, codes, starts_with, includes}
use skillcdn.GitRef.{is_digit}
use skillcdn.License.Words.{is_space}
use skillcdn.RepoLayout.Selection.{lower_ascii}

unfoldable pub drop_indent : ℕ → Text → Text
drop_indent zero s = s
drop_indent (suc n) [] = []
drop_indent (suc n) (c ∷ s) = let rest = drop_indent n s in if c == b' ' then rest else c ∷ s

-- How many units of one kind stand in front.
unfoldable pub leading : (ℕ → Bool) → Text → ℕ
leading p [] = 0
leading p (c ∷ s) = let rest = leading p s in if p c then suc rest else 0

-- `[ \t]`.
abbrev pub is_blank_unit : ℕ → Bool
is_blank_unit c = c == b' ' || c == 9

-- What `.` does not match.
abbrev pub ends_line : ℕ → Bool
ends_line c = c == 10 || c == 13 || c == 0x2028 || c == 0x2029

abbrev pub starts_blank : Text → Bool
starts_blank [] = false
starts_blank (c ∷ s) = is_blank_unit c

abbrev pub is_hash : ℕ → Bool
is_hash c = c == b'#'

abbrev pub is_level : ℕ → Bool
is_level n = leb 1 n && leb n 6

-- `HEADING`: the level and the text.
unfoldable pub heading : Text → Option (ℕ × Text)
unfolding drop_indent leading
heading line =
    let marked = drop_indent 3 line in
    let level = leading is_hash marked in
    let rest = drop level marked in
    let text = drop (leading is_blank_unit rest) rest in
    if is_level level && starts_blank rest && not (any ends_line text)
    then some (level, text)
    else none

-- `EMPTY_HEADING`: the level.
unfoldable pub empty_heading : Text → Option ℕ
unfolding drop_indent leading
empty_heading line =
    let marked = drop_indent 3 line in
    let level = leading is_hash marked in
    if is_level level && all is_blank_unit (drop level marked) then some level else none

pub record Marker : Type 0 where
  pub unit : ℕ
  pub size : ℕ

-- `FENCE`.
unfoldable pub fence_of : Text → Option Marker
unfolding drop_indent leading
fence_of line =
    let marked = drop_indent 3 line in
    let ticks = leading (λ c. c == b'`') marked in
    let tildes = leading (λ c. c == b'~') marked in
    if leb 3 ticks
    then some (record { unit = b'`'; size = ticks })
    else if leb 3 tildes
    then some (record { unit = b'~'; size = tildes })
    else none

-- `BLANK`.
unfoldable pub is_blank : Text → Bool
unfolding is_space
is_blank line = all is_space line

pub data HtmlEnd : Type 0 where
  comment_end : HtmlEnd
  closing_tag : Text → HtmlEnd
  blank_line : HtmlEnd

-- `pattern.test(line)`.
unfoldable pub ends_html : HtmlEnd → Text → Bool
unfolding includes lower_ascii is_blank
ends_html comment_end line = includes line (codes "-->")
ends_html (closing_tag name) line =
    includes (lower_ascii line) (b'<' ∷ b'/' ∷ (name ++ (b'>' ∷ [])))
ends_html blank_line line = is_blank line

abbrev pub raw_elements : List Text
raw_elements = codes "pre" ∷ codes "script" ∷ codes "style" ∷ codes "textarea" ∷ []

-- `(?=[\s/>]|$)`.
abbrev pub ends_name : Text → Bool
ends_name [] = true
ends_name (c ∷ s) = is_space c || c == b'/' || c == b'>'

-- The raw-text element whose name stands in front, of some names.
unfoldable pub raw_element : List Text → Text → Option Text
unfolding starts_with lower_ascii is_space
raw_element [] s = none
raw_element (name ∷ names) s =
    if starts_with (lower_ascii s) name && ends_name (drop (length name) s)
    then some name
    else raw_element names s

-- `HTML_OPEN`: what ends the block, and what the line holds behind the match.
unfoldable pub html_open : Text → Option (HtmlEnd × Text)
unfolding drop_indent raw_element starts_with
html_open line = elim (drop_indent 3 line) [
  | [] ↦ none
  | c ∷ s ↦
      if not (c == b'<')
      then none
      else if starts_with s (codes "!--")
      then some (comment_end, drop 3 s)
      else elim (raw_element raw_elements s) [
        | some name ↦ some (closing_tag name, drop (length name) s)
        | none ↦ some (blank_line, s)
      ]
]

-- `SETEXT_ONE` and `SETEXT_TWO`, by the unit of the line.
unfoldable pub is_underline : ℕ → Text → Bool
unfolding drop_indent leading
is_underline unit line =
    let marked = drop_indent 3 line in
    let size = leading (λ c. c == unit) marked in leb 1 size && all is_blank_unit (drop size marked)

abbrev pub is_rule_unit : ℕ → Bool
is_rule_unit c = c == b'-' || c == b'*' || c == b'_'

abbrev pub count_if : (ℕ → Bool) → Text → ℕ
count_if p [] = 0
count_if p (c ∷ s) = (if p c then 1 else 0) + count_if p s

-- `NOT_PARAGRAPH`.
unfoldable pub is_no_paragraph : Text → Bool
unfolding drop_indent leading
is_no_paragraph line = elim (drop_indent 3 line) [
  | [] ↦ false
  | c ∷ s ↦
      let digits = leading is_digit (c ∷ s) in
      let behind = drop digits (c ∷ s) in
      (c == b'>' || c == b'|')
      || ((c == b'-' || c == b'*' || c == b'+') && starts_blank s)
      || (leb 1 digits
          && leb digits 9
          && (starts_with behind (codes ".") || starts_with behind (codes ")"))
          && starts_blank (drop 1 behind))
      || (is_rule_unit c
          && all (λ d. is_rule_unit d || is_blank_unit d) s
          && leb 3 (count_if is_rule_unit (c ∷ s)))
]
