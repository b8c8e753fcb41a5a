-- ===== src/Markdown/Outline.antt =====
-- packages/core/src/search/outline.ts: the headings of a document and the sections under them.
pub mod Ascent
pub mod Paths
pub mod Tests
use mathlib.Core.List.{reverse}
use skillcdn.Common.{
  ℕ, zero, suc, ◌+◌, ◌-◌, Bool, true, false, ◌&&◌, ◌||◌, not, List, [], ◌∷◌, ◌++◌, Option, none,
  some, leb, ltb, ◌==◌, if◌then◌else◌, take, drop, length, is_empty, defined, keep, map,
}
use skillcdn.Text.{Text, split, codes}
use skillcdn.TextSafety.{has_forbidden_code_point}
use skillcdn.License.Words.{is_space, squeeze, trim, trim_end}
use skillcdn.Markdown.FrontMatter.{
  FrontMatterSplit, absent, unterminated, split_front_matter, line_break,
}
use skillcdn.Markdown.Lines.{
  leading, is_blank_unit, is_hash, heading, empty_heading, is_blank, is_underline, is_no_paragraph,
}
use skillcdn.Markdown.Plain.{plain_text}
use skillcdn.Markdown.Blocks.{BlockState, open_blocks, consume_block_line}

pub record OutlineHeading : Type 0 where
  pub level : ℕ
  pub text : Text
  pub offset : ℕ
  pub length : ℕ

pub record MarkdownOutline : Type 0 where
  pub headings : List OutlineHeading
  pub body_offset : ℕ
  pub total_length : ℕ
  pub truncated : Bool

abbrev pub max_outline_headings : ℕ
max_outline_headings = 1000

abbrev pub max_heading_text_length : ℕ
max_heading_text_length = 200

abbrev pub max_heading_line_length : ℕ
max_heading_line_length = 1000

-- `raw.replace(/[ \t]+#+$/, "")`.
unfoldable pub without_closer : Text → Text
unfolding leading
without_closer raw =
    let back = reverse raw in
    let marks = leading is_hash back in
    let before = drop marks back in
    let blanks = leading is_blank_unit before in
    if leb 1 marks && leb 1 blanks then reverse (drop blanks before) else raw

unfoldable pub heading_text : Text → Text
unfolding without_closer plain_text squeeze is_space trim has_forbidden_code_point
heading_text raw =
    let text = trim (squeeze b' ' is_space false (plain_text (without_closer raw))) in
    if is_empty text || has_forbidden_code_point text then [] else take max_heading_text_length text

pub record FoundHeading : Type 0 where
  pub level : ℕ
  pub text : Text
  pub offset : ℕ

-- What the scan keeps between two lines.
pub record Scan : Type 0 where
  pub found : List FoundHeading
  pub blocks : BlockState
  pub paragraph_start : Option ℕ
  pub paragraph_lines : List Text

abbrev pub end_paragraph : Scan → Scan
end_paragraph s = record s { paragraph_start = none; paragraph_lines = [] }

abbrev pub push_heading : ℕ → Text → ℕ → Scan → Scan
push_heading level text offset s = record s {
  found = s.found ++ (record { level = level; text = text; offset = offset } ∷ []);
}

-- `lines.join(" ")`.
abbrev pub in_one_line : List Text → Text
in_one_line [] = []
in_one_line (line ∷ []) = line
in_one_line (line ∷ next ∷ lines) = line ++ (b' ' ∷ in_one_line (next ∷ lines))

abbrev pub underlined : Text → Bool
underlined head = is_underline b'=' head || is_underline b'-' head

abbrev pub continue_paragraph : ℕ → Text → Scan → Scan
continue_paragraph line_start head s = record s {
  paragraph_start = elim s.paragraph_start [ none ↦ some line_start | some start ↦ some start ];
  paragraph_lines = s.paragraph_lines ++ (head ∷ []);
}

-- A line that is neither of a block nor blank nor headed by marks: behind a paragraph that starts at
-- an offset, and where there is none.
unfoldable pub prose_behind : ℕ → ℕ → Text → Scan → Scan
unfolding heading_text is_underline is_no_paragraph
prose_behind start line_start head s =
    if underlined head
    then end_paragraph (
        push_heading (if is_underline b'=' head then 1 else 2)
          (heading_text (in_one_line s.paragraph_lines)) start s)
    else if is_no_paragraph head
    then end_paragraph s
    else continue_paragraph line_start head s

unfoldable pub prose_first : ℕ → Text → Scan → Scan
unfolding is_no_paragraph
prose_first line_start head s =
    if is_no_paragraph head then end_paragraph s else continue_paragraph line_start head s

unfoldable pub prose_line : ℕ → Text → Scan → Scan
unfolding prose_behind prose_first
prose_line line_start head s = elim s.paragraph_start [
  | some start ↦ prose_behind start line_start head s
  | none ↦ prose_first line_start head s
]

abbrev pub heading_of : Text → Option (ℕ × Text)
heading_of line = if leb (length line) max_heading_line_length then heading line else none

abbrev pub empty_heading_of : Text → Option ℕ
empty_heading_of line =
    if leb (length line) max_heading_line_length then empty_heading line else none

-- The lines outside blocks.
unfoldable pub open_line : ℕ → Text → Text → Scan → Scan
unfolding is_blank heading empty_heading heading_text prose_line
open_line line_start line head s =
    if is_blank head then end_paragraph s else elim (heading_of line) [
      | some (level, text) ↦ end_paragraph (push_heading level (heading_text text) line_start s)
      | none ↦ elim (empty_heading_of line) [
        | some level ↦ end_paragraph (push_heading level [] line_start s)
        | none ↦ prose_line line_start head s
      ]
    ]

-- The body of the loop over the lines.
unfoldable pub scan_line : ℕ → Text → Scan → Scan
unfolding trim_end consume_block_line open_line
scan_line line_start raw s =
    let line = trim_end raw in
    let head = take max_heading_line_length line in
    let (blocks, inside) = consume_block_line s.blocks head in
    let s' = record s { blocks = blocks } in
    if inside then end_paragraph s' else open_line line_start line head s'

unfoldable pub scan_lines : ℕ → List Text → Scan → Scan
unfolding scan_line
scan_lines line_start [] s = s
scan_lines line_start (raw ∷ lines) s =
    scan_lines (line_start + suc (length raw)) lines (scan_line line_start raw s)

abbrev pub new_scan : Scan
new_scan = record { found = []; blocks = open_blocks; paragraph_start = none; paragraph_lines = [] }

-- `found[index + 1]?.offset ?? text.length`.
abbrev pub next_offset : ℕ → List FoundHeading → ℕ
next_offset total [] = total
next_offset total (f ∷ found) = f.offset

-- The first `limit` headings, each with the length of its section.
unfoldable pub headings_of : ℕ → ℕ → List FoundHeading → List OutlineHeading
headings_of total zero found = []
headings_of total (suc limit) [] = []
headings_of total (suc limit) (f ∷ found) =
    record {
      level = f.level;
      text = f.text;
      offset = f.offset;
      length = next_offset total found - f.offset;
    }
    ∷ headings_of total limit found

-- `text.length - split.body.length` where front matter was found.
abbrev pub body_offset_of : Text → ℕ
body_offset_of text = elim (split_front_matter text) [
  | FrontMatterSplit.found source body ↦ length text - length body
  | absent body ↦ 0
  | unterminated ↦ 0
]

unfoldable pub found_headings : Text → List FoundHeading
unfolding split_front_matter split scan_lines
found_headings text =
    let body_offset = body_offset_of text in
    (scan_lines body_offset (split line_break (drop body_offset text)) new_scan).found

unfoldable pub outline_markdown : Text → MarkdownOutline
unfolding found_headings headings_of split_front_matter
outline_markdown text =
    let found = found_headings text in
    record {
      headings = headings_of (length text) max_outline_headings found;
      body_offset = body_offset_of text;
      total_length = length text;
      truncated = ltb max_outline_headings (length found);
    }

-- `headingPaths`: the stack, its top first.
abbrev pub pop_while : ℕ → List FoundHeading → List FoundHeading
pop_while level [] = []
pop_while level (top ∷ stack) =
    let rest = pop_while level stack in if leb level top.level then rest else top ∷ stack

-- `stack.map((item) => item.text).filter((text) => text.length > 0)`, from the bottom.
abbrev pub texts_of : List FoundHeading → List Text
texts_of stack = keep (λ text. not (is_empty text)) (map (λ item. item.text) (reverse stack))

abbrev pub as_found : OutlineHeading → FoundHeading
as_found h = record { level = h.level; text = h.text; offset = h.offset }

unfoldable pub paths_from : List FoundHeading → List OutlineHeading → List (List Text)
paths_from stack [] = []
paths_from stack (h ∷ headings) =
    let stack' = as_found h ∷ pop_while h.level stack in
    texts_of stack' ∷ paths_from stack' headings

unfoldable pub heading_paths : List OutlineHeading → List (List Text)
unfolding paths_from
heading_paths headings = paths_from [] headings
