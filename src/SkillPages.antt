-- ===== src/SkillPages.antt =====
-- packages/core/src/tools/pages.ts: the pages of a skill, joined back into the skill.
pub mod Join
mod Tests
use skillcdn.Common.{
  Bool, true, false, ◌&&◌, List, [], ◌∷◌, ◌++◌, Option, none, some, if◌then◌else◌,
}
use skillcdn.Text.{Text, same, has}
use skillcdn.RepoPath.{RepoPath}

-- `SkillRules` and `IncludedFile`: a fragment of the text of a path. A rule always has a text.
pub record Fragment : Type 0 where
  pub path : Option RepoPath
  pub content : Option Text
  pub truncated : Bool

-- `textOf`.
abbrev pub text_of : Fragment → Text
text_of f = elim f.content [ none ↦ [] | some text ↦ text ]

-- `withText`.
abbrev pub with_text : Fragment → Text → Bool → Fragment
with_text f text truncated = record { path = f.path; content = some text; truncated = truncated }

-- `last.path === fragment.path`.
unfoldable pub same_path : Option RepoPath → Option RepoPath → Bool
same_path none none = true
same_path none (some q) = false
same_path (some p) none = false
same_path (some p) (some q) = same p q

-- One round of the loop: it looks at the last of what is joined.
unfoldable pub join_step : List Fragment → Fragment → List Fragment
unfolding same_path
join_step [] fragment = fragment ∷ []
join_step (last ∷ []) fragment =
    if last.truncated && same_path last.path fragment.path
    then with_text last (text_of last ++ text_of fragment) fragment.truncated ∷ []
    else last ∷ fragment ∷ []
join_step (joined ∷ next ∷ rest) fragment = joined ∷ join_step (next ∷ rest) fragment

unfoldable pub join_page : List Fragment → List Fragment → List Fragment
unfolding join_step
join_page joined [] = joined
join_page joined (fragment ∷ page) = join_page (join_step joined fragment) page

unfoldable pub join_pages : List Fragment → List (List Fragment) → List Fragment
unfolding join_page
join_pages joined [] = joined
join_pages joined (page ∷ pages) = join_pages (join_page joined page) pages

unfoldable pub join_fragments : List (List Fragment) → List Fragment
unfolding join_pages
join_fragments pages = join_pages [] pages

-- A page of a skill; `facts` is every other field.
pub record SkillResult (F : Type 0) : Type 0 where
  pub facts : F
  pub rule_chain : Option (List Fragment)
  pub body : Text
  pub included : List Fragment
  pub warnings : List Text
  pub rules : Option Fragment
  pub complete : Option Bool
  pub next_cursor : Option Text

-- `[...new Set(items)]`.
unfoldable pub unique_onto : List Text → List Text → List Text
unique_onto seen [] = seen
unique_onto seen (item ∷ items) = elim (has seen item) [
  | true ↦ unique_onto seen items
  | false ↦ unique_onto (seen ++ (item ∷ [])) items
]

abbrev pub first_of : List Fragment → Option Fragment
first_of [] = none
first_of (rule ∷ rules) = some rule

module _ {F : Type 0} where
  -- `pages[pages.length - 1]`, after the first page.
  abbrev pub last_page : SkillResult F → List (SkillResult F) → SkillResult F
  last_page page [] = page
  last_page page (next ∷ pages) = last_page next pages

  abbrev pub rules_of : List (SkillResult F) → List (List Fragment)
  rules_of [] = []
  rules_of (page ∷ pages) = elim page.rule_chain [ none ↦ [] | some chain ↦ chain ] ∷ rules_of pages

  abbrev pub included_of : List (SkillResult F) → List (List Fragment)
  included_of [] = []
  included_of (page ∷ pages) = page.included ∷ included_of pages

  abbrev pub bodies_of : List (SkillResult F) → Text
  bodies_of [] = []
  bodies_of (page ∷ pages) = page.body ++ bodies_of pages

  abbrev pub warnings_of : List (SkillResult F) → List Text
  warnings_of [] = []
  warnings_of (page ∷ pages) = page.warnings ++ warnings_of pages

  unfoldable pub join_skill_pages : List (SkillResult F) → Option (SkillResult F)
  unfolding join_fragments unique_onto
  join_skill_pages [] = none
  join_skill_pages (first ∷ pages) =
      let chain = join_fragments (rules_of (first ∷ pages)) in
      let last = last_page first pages in
      some (record {
        facts = first.facts;
        rule_chain = some chain;
        body = bodies_of (first ∷ pages);
        included = join_fragments (included_of (first ∷ pages));
        warnings = unique_onto [] (warnings_of (first ∷ pages));
        rules = first_of chain;
        complete = last.complete;
        next_cursor = last.next_cursor;
      })
