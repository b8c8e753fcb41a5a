-- ===== src/Markdown/Sections/Tests.antt =====
-- The sections of small documents, and the theorem at an input.
use skillcdn.Common.{◌≡◌, refl, true, false, [], ◌∷◌, ◌++◌, some, none, drop}
use skillcdn.Text.{Text, codes}
use skillcdn.Markdown.Lines.{is_blank}
use skillcdn.Markdown.Outline.{outline_markdown, body_offset_of}
use skillcdn.Markdown.Outline.Tests.{computed}
use skillcdn.Markdown.Sections.{
  sections_of, section_body, heading_line_length, embedding_text_of, flat,
}
use skillcdn.Markdown.Sections.Tiling.{sections_of-tile, read_sections}

abbrev short : Text
short = codes "Intro\n\n# A\ntext\n"

short_sections :
    sections_of short none
    ≡ record { heading = []; offset = 0; length = 7 }
      ∷ record { heading = codes "A" ∷ []; offset = 7; length = 9 }
      ∷ []
unfolding computed sections_of
short_sections = refl

not_truncated : (outline_markdown short).truncated ≡ false
unfolding computed
not_truncated = refl

embedded :
    embedding_text_of
      (λ text. text)
      (some (codes "T"))
      (record { heading = codes "A" ∷ []; offset = 7; length = 9 })
      short
    ≡ codes "T > A: text"
unfolding computed embedding_text_of section_body heading_line_length flat
embedded = refl

sections_of-tile_example :
    (blank : Text) × (is_blank blank ≡ true)
    × (drop (body_offset_of short) short ≡ blank ++ read_sections short (sections_of short none))
sections_of-tile_example = sections_of-tile short not_truncated
