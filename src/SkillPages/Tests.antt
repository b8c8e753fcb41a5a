-- ===== src/SkillPages/Tests.antt =====
-- A text cut across two pages, and the theorem at that input.
use skillcdn.Common.{◌≡◌, refl, true, false, [], ◌∷◌, some}
use skillcdn.Text.{codes, same}
use skillcdn.SkillPages.{Fragment, join_fragments, join_step, join_page, join_pages, same_path}
use skillcdn.SkillPages.Join.{whole, part, CutsAll, last_text, next_text, join_fragments-CutsAll}

run : Unit {0}
unfolding join_fragments join_step join_page join_pages same_path same
run = tt

abbrev opening : Fragment
opening = record { path = some (codes "a.md"); content = some (codes "one "); truncated = true }

abbrev closing : Fragment
closing = record { path = some (codes "a.md"); content = some (codes "two"); truncated = false }

abbrev other : Fragment
other = record { path = some (codes "b.md"); content = some (codes "b"); truncated = true }

abbrev joined : Fragment
joined = record { path = some (codes "a.md"); content = some (codes "one two"); truncated = false }

two_pages : join_fragments ((opening ∷ []) ∷ (closing ∷ other ∷ []) ∷ []) ≡ joined ∷ other ∷ []
unfolding run
two_pages = refl

cuts : CutsAll (joined ∷ other ∷ []) (opening ∷ closing ∷ other ∷ [])
cuts =
    next_text (some (codes "a.md")) (codes "one two") (opening ∷ closing ∷ []) (other ∷ [])
      (other ∷ [])
      (part (codes "one ") (codes "two") false (closing ∷ []) (whole (codes "two") false))
      (last_text (some (codes "b.md")) (codes "b") true (other ∷ []) (whole (codes "b") true))

join_fragments-CutsAll_example :
    join_fragments ((opening ∷ []) ∷ (closing ∷ other ∷ []) ∷ []) ≡ joined ∷ other ∷ []
join_fragments-CutsAll_example =
    join_fragments-CutsAll ((opening ∷ []) ∷ (closing ∷ other ∷ []) ∷ []) (joined ∷ other ∷ []) cuts
