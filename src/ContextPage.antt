-- ===== src/ContextPage.antt =====
-- packages/core/src/context-page.ts: a fragment of a text bounded by its UTF-8 bytes.
pub mod Laws
mod Tests
use skillcdn.Common.{
  ℕ, suc, ◌+◌, ◌-◌, Bool, true, false, ◌&&◌, List, [], ◌∷◌, ltb, leb, if◌then◌else◌, length, take,
  drop,
}
use skillcdn.Text.{Text}
use skillcdn.TextSafety.{is_high_surrogate, is_low_surrogate}

-- The bytes of a code point in UTF-8.
unfoldable pub point_size : ℕ → ℕ
point_size point =
    if leb point 0x7f then 1 else if leb point 0x7ff then 2 else if leb point 0xffff then 3 else 4

-- The loop, on the units from `end` on; `codePointAt` reads two units where a high surrogate stands
-- before a low one, and their code point takes four bytes. The answer is where it ends, and its bytes.
unfoldable pub page_from : Text → ℕ → ℕ → ℕ → ℕ × ℕ
unfolding point_size
page_from [] end bytes budget = (end, bytes)
page_from (c ∷ []) end bytes budget =
    if ltb budget (bytes + point_size c) then (end, bytes) else (end + 1, bytes + point_size c)
page_from (c ∷ d ∷ s) end bytes budget = elim (is_high_surrogate c && is_low_surrogate d) [
  | true ↦ elim (ltb budget (bytes + 4)) [
    | true ↦ (end, bytes)
    | false ↦ page_from s (end + 2) (bytes + 4) budget
  ]
  | false ↦ elim (ltb budget (bytes + point_size c)) [
    | true ↦ (end, bytes)
    | false ↦ page_from (d ∷ s) (end + 1) (bytes + point_size c) budget
  ]
]

pub record Page : Type 0 where
  pub content : Text
  pub bytes : ℕ
  pub more : Bool

unfoldable pub context_page : Text → ℕ → ℕ → Page
unfolding page_from
context_page text offset budget =
    let (end, bytes) = page_from (drop offset text) offset 0 budget in
    record {
      content = take (end - offset) (drop offset text);
      bytes = bytes;
      more = ltb end (length text);
    }
