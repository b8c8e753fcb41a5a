-- ===== src/Markdown/Blocks.antt =====
-- `consumeBlockLine` of packages/core/src/markdown-blocks.ts: the fences and the HTML blocks of a
-- document, line by line.
use skillcdn.Common.{Bool, true, false, ◌&&◌, Option, none, some, leb, ◌==◌, if◌then◌else◌}
use skillcdn.Text.{Text}
use skillcdn.Markdown.Lines.{
  Marker, fence_of, HtmlEnd, comment_end, closing_tag, blank_line, ends_html, html_open,
}

pub record BlockState : Type 0 where
  pub fence : Option Marker
  pub html_end : Option HtmlEnd

abbrev pub open_blocks : BlockState
open_blocks = record { fence = none; html_end = none }

-- A comment or a raw-text element that closes on the line that opens it is over already.
abbrev pub still_open : HtmlEnd → Text → Option HtmlEnd
still_open blank_line rest = some blank_line
still_open comment_end rest = if ends_html comment_end rest then none else some comment_end
still_open (closing_tag name) rest =
    if ends_html (closing_tag name) rest then none else some (closing_tag name)

-- A fence closes with the same unit, at least as long as the one that opened it.
abbrev pub closes_fence : Marker → Option Marker → Bool
closes_fence opened none = false
closes_fence opened (some marker) = marker.unit == opened.unit && leb opened.size marker.size

-- The part of `consumeBlockLine` outside HTML blocks and fences.
unfoldable pub open_block : BlockState → Text → BlockState × Bool
unfolding html_open ends_html fence_of
open_block state head = elim (fence_of head) [
  | some marker ↦ (record state { fence = some marker }, true)
  | none ↦ elim (html_open head) [
    | some (closer, rest) ↦ (record state { html_end = still_open closer rest }, true)
    | none ↦ (state, false)
  ]
]

unfoldable pub consume_block_line : BlockState → Text → BlockState × Bool
unfolding open_block ends_html fence_of
consume_block_line state head = elim state.html_end [
  | some closer ↦
      ((if ends_html closer head then record state { html_end = none } else state), true)
  | none ↦ elim state.fence [
    | some opened ↦ (
      (if closes_fence opened (fence_of head) then record state { fence = none } else state),
      true,
    )
    | none ↦ open_block state head
  ]
]
