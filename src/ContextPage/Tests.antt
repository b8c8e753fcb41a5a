-- ===== src/ContextPage/Tests.antt =====
-- A page of a text, and the theorem at that input.
use skillcdn.Common.{◌≡◌, refl, true, arith}
use skillcdn.Text.{codes}
use skillcdn.TextSafety.{is_high_surrogate, is_low_surrogate}
use skillcdn.ContextPage.{context_page, point_size, page_from}
use skillcdn.ContextPage.Laws.{IsPage, context_page_lem}

run : Unit {0}
unfolding context_page point_size page_from is_high_surrogate is_low_surrogate
run = tt

cut : context_page (codes "abcdef") 1 3 ≡ record { content = codes "bcd"; bytes = 3; more = true }
unfolding run
cut = refl

context_page_lem_example : IsPage (codes "abcdef") 1 3 (context_page (codes "abcdef") 1 3)
context_page_lem_example = context_page_lem (codes "abcdef") 1 3 (omega arith)
