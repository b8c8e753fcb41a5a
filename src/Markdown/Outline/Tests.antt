-- ===== src/Markdown/Outline/Tests.antt =====
-- Outlines of small documents, and the theorems at inputs.
use skillcdn.Common.{All, ◌≡◌, refl, true, false, List, [], ◌∷◌, ◌++◌}
use skillcdn.Text.{Text, codes, split, index_of, has, same, starts_with, includes, join}
use skillcdn.TextSafety.{
  has_forbidden_code_point, is_well_formed, code_points, is_surrogate, is_forbidden_code_point,
  is_high_surrogate, is_low_surrogate,
}
use skillcdn.License.Words.{is_space, squeeze, skip_spaces, trim, trim_end, is_word}
use skillcdn.RepoLayout.Selection.{lower_ascii}
use skillcdn.Markdown.FrontMatter.{
  split_front_matter, found, without_mark, closed_at, is_delimiter_line, line_break,
}
use skillcdn.Text.Split.{Lacks}
use skillcdn.Markdown.FrontMatter.Split.{split_front_matter_lem, IsClosed}
use skillcdn.Markdown.Lines.{
  leading, heading, empty_heading, is_blank, is_underline, is_no_paragraph, drop_indent, fence_of,
  html_open, raw_element, ends_html,
}
use skillcdn.Markdown.Plain.{
  plain_text, drop_images, keep_labels, drop_marks, drop_underscores, closes_run, link_of,
}
use skillcdn.Markdown.Blocks.{consume_block_line, open_block}
use skillcdn.Markdown.Outline.{
  OutlineHeading, outline_markdown, found_headings, headings_of, scan_lines, scan_line, open_line,
  prose_line, prose_behind, prose_first, heading_text, without_closer, heading_paths, paths_from,
}
use skillcdn.Markdown.Outline.Paths.{heading_paths_lem, paths_by_ancestors}

unfoldable pub computed : Unit {0}
unfolding split index_of has same starts_with includes join has_forbidden_code_point is_well_formed
    code_points is_surrogate is_forbidden_code_point is_high_surrogate is_low_surrogate is_space
    squeeze skip_spaces trim trim_end is_word lower_ascii split_front_matter without_mark closed_at
    is_delimiter_line leading heading empty_heading is_blank is_underline is_no_paragraph
    drop_indent fence_of html_open raw_element ends_html plain_text drop_images keep_labels
    drop_marks drop_underscores closes_run link_of consume_block_line open_block outline_markdown
    found_headings headings_of scan_lines scan_line open_line prose_line prose_behind prose_first
    heading_text without_closer heading_paths paths_from
computed = tt

abbrev document : Text
document = codes "---\nname: x\n---\n# A\n```\n# no\n```\nB _b_ [l](u)\n---\n"

document_front_matter :
    split_front_matter document
    ≡ found (codes "name: x\n") (codes "# A\n```\n# no\n```\nB _b_ [l](u)\n---\n")
unfolding computed
document_front_matter = refl

document_outline : outline_markdown document ≡ record {
  headings =
      record { level = 1; text = codes "A"; offset = 16; length = 17 }
      ∷ record { level = 2; text = codes "B b l"; offset = 33; length = 17 }
      ∷ [];
  body_offset = 16;
  total_length = 50;
  truncated = false;
}
unfolding computed
document_outline = refl

split_front_matter_lem_example :
    (first : Text) × (rest : List Text) × (is_delimiter_line first (codes "---" ∷ []) ≡ true)
    × Lacks line_break first
    × All (Lacks line_break) rest
    × (without_mark document ≡ first ++ (line_break ∷ join line_break rest))
    × IsClosed (codes "name: x\n") (codes "# A\n```\n# no\n```\nB _b_ [l](u)\n---\n") rest
split_front_matter_lem_example = split_front_matter_lem document _ _ document_front_matter

abbrev some_headings : List OutlineHeading
some_headings =
    record { level = 2; text = codes "x"; offset = 0; length = 1 }
    ∷ record { level = 1; text = codes "a"; offset = 1; length = 1 }
    ∷ record { level = 3; text = codes "b"; offset = 2; length = 1 }
    ∷ record { level = 2; text = codes "c"; offset = 3; length = 1 }
    ∷ []

some_paths :
    heading_paths some_headings
    ≡ (codes "x" ∷ [])
      ∷ (codes "a" ∷ [])
      ∷ (codes "a" ∷ codes "b" ∷ [])
      ∷ (codes "a" ∷ codes "c" ∷ [])
      ∷ []
unfolding computed
some_paths = refl

heading_paths_lem_example : heading_paths some_headings ≡ paths_by_ancestors [] some_headings
heading_paths_lem_example = heading_paths_lem some_headings
