-- ===== src/Markdown/Sections.antt =====
-- packages/core/src/search/sections.ts: the sections of a document, by its outline, and the text that
-- is embedded of one.
mod Tests
pub mod Tiling
use skillcdn.Common.{
  ℕ, zero, suc, ◌+◌, ◌-◌, Bool, true, false, ◌&&◌, ◌||◌, not, List, [], ◌∷◌, ◌++◌, Option, none,
  some, ltb, leb, if◌then◌else◌, take, drop, length, is_empty, keep, map, defined,
}
use skillcdn.Text.{Text, codes, index_of, to_lower, same}
use skillcdn.License.Words.{is_space, squeeze, trim, trim_end}
use skillcdn.Markdown.FrontMatter.{line_break}
use skillcdn.Markdown.Lines.{is_blank, heading}
use skillcdn.Markdown.Outline.{OutlineHeading, MarkdownOutline, heading_paths, outline_markdown}

pub record DocumentSection : Type 0 where
  pub heading : List Text
  pub offset : ℕ
  pub length : ℕ

-- `text.slice(from, to)`.
abbrev pub slice : Text → ℕ → ℕ → Text
slice text from to = take (to - from) (drop from text)

-- `headings[0]?.offset ?? text.length`.
abbrev pub preamble_end : ℕ → List OutlineHeading → ℕ
preamble_end total [] = total
preamble_end total (h ∷ headings) = h.offset

abbrev pub has_preamble : Text → ℕ → ℕ → Bool
has_preamble text start end = ltb start end && not (is_blank (slice text start end))

-- The headings and their paths, side by side.
abbrev pub headed_sections : List OutlineHeading → List (List Text) → List DocumentSection
headed_sections [] paths = []
headed_sections (h ∷ headings) [] =
    record { heading = []; offset = h.offset; length = h.length } ∷ headed_sections headings []
headed_sections (h ∷ headings) (path ∷ paths) =
    record { heading = path; offset = h.offset; length = h.length } ∷ headed_sections headings paths

abbrev pub sections_in : Text → MarkdownOutline → List DocumentSection
sections_in text outline =
    let end = preamble_end (length text) outline.headings in
    let headed = headed_sections outline.headings (heading_paths outline.headings) in
    if has_preamble text outline.body_offset end
    then record { heading = []; offset = outline.body_offset; length = end - outline.body_offset }
      ∷ headed
    else headed

-- The outline is computed when the caller has none.
unfoldable pub sections_of : Text → Option MarkdownOutline → List DocumentSection
unfolding is_blank heading_paths outline_markdown
sections_of text none = sections_in text (outline_markdown text)
sections_of text (some outline) = sections_in text outline

abbrev pub max_excerpt_length : ℕ
max_excerpt_length = 200

-- The ellipsis behind a text that was cut.
unfoldable pub cut : Text → ℕ → Text
unfolding trim_end
cut text size =
    if leb (length text) size then text else trim_end (take (size - 1) text) ++ (0x2026 ∷ [])

-- `headingLineLength`: one line, two for a heading that is underlined, none for a preamble.
unfoldable pub heading_line_length : Text → Bool → ℕ
unfolding index_of heading
heading_line_length body false = 0
heading_line_length body true = elim (index_of line_break body) [
  | none ↦ length body
  | some first ↦
      if defined (heading (take first body))
      then suc first
      else elim (index_of line_break (drop (suc first) body)) [
        | none ↦ length body
        | some second ↦ suc first + suc second
      ]
]

unfoldable pub section_body : Text → DocumentSection → Text
unfolding heading_line_length
section_body text section =
    let body = take section.length (drop section.offset text) in
    drop (heading_line_length body (not (is_empty section.heading))) body

-- `part.replaceAll(/\s+/g, " ").trim()`.
unfoldable pub flat : Text → Text
unfolding squeeze is_space trim
flat part = trim (squeeze b' ' is_space false part)

-- `head.join(" > ")`.
abbrev pub in_path : List Text → Text
in_path [] = []
in_path (part ∷ []) = part
in_path (part ∷ next ∷ parts) = part ++ (codes " > " ++ in_path (next ∷ parts))

-- A title that is the first heading is not said twice; `lower` is the platform's `toLowerCase`.
abbrev pub titled : (Text → Text) → Option Text → List Text → List Text
titled lower none headings = []
titled lower (some title) [] = title ∷ []
titled lower (some title) (first ∷ headings) =
    if same (lower (flat first)) (lower (flat title)) then [] else title ∷ []

unfoldable pub embedding_text_of : (Text → Text) → Option Text → DocumentSection → Text → Text
unfolding flat section_body trim same
embedding_text_of lower title section text =
    let head =
      keep (λ part. not (is_empty part))
        (map flat (titled lower title section.heading ++ section.heading)) in
    let body = trim (section_body text section) in
    if is_empty head
    then body
    else if is_empty body
    then in_path head
    else in_path head ++ (codes ": " ++ body)
