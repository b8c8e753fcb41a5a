-- ===== src/Markdown/FrontMatter.antt =====
-- packages/core/src/front-matter.ts: where the front matter of a file ends and its body starts.
pub mod Split
use skillcdn.Common.{
  ℕ, suc, Bool, true, false, List, [], ◌∷◌, ◌++◌, Option, none, some, ◌==◌, if◌then◌else◌, take,
  drop,
}
use skillcdn.Text.{Text, codes, has, index_of, split, join}
use skillcdn.License.Words.{trim_end}

abbrev pub max_front_matter_length : ℕ
max_front_matter_length = 16384

pub data FrontMatterSplit : Type 0 where
  absent : Text → FrontMatterSplit
  unterminated : FrontMatterSplit
  found : Text → Text → FrontMatterSplit

abbrev pub byte_order_mark : ℕ
byte_order_mark = 0xfeff

abbrev pub line_break : ℕ
line_break = 10

unfoldable pub is_delimiter_line : Text → List Text → Bool
unfolding trim_end has
is_delimiter_line line delimiters = has delimiters (trim_end line)

abbrev pub opening : List Text
opening = codes "---" ∷ []

abbrev pub closing : List Text
closing = codes "---" ∷ codes "..." ∷ []

-- `text.codePointAt(0) === BYTE_ORDER_MARK ? text.slice(1) : text`.
unfoldable pub without_mark : Text → Text
without_mark [] = []
without_mark (c ∷ text) = if c == byte_order_mark then text else c ∷ text

-- The loop over the lines behind the first, with what it has passed of them.
unfoldable pub closed_at : Text → List Text → FrontMatterSplit
unfolding is_delimiter_line
closed_at source [] = unterminated
closed_at source (line ∷ lines) =
    let rest = closed_at (source ++ (line ++ (line_break ∷ []))) lines in
    if is_delimiter_line line closing then found source (join line_break lines) else rest

unfoldable pub split_front_matter : Text → FrontMatterSplit
unfolding without_mark closed_at index_of is_delimiter_line split
split_front_matter text =
    let content = without_mark text in
    elim (index_of line_break content) [
      | none ↦ absent content
      | some first_break ↦
          if is_delimiter_line (take first_break content) opening
          then closed_at [] (split line_break (drop (suc first_break) content))
          else absent content
    ]
