-- ===== src/Markdown/Outline/Paths.antt =====
-- The heading paths, which the code reads from a stack, are the ancestors of each heading.
use skillcdn.Common.{
  ℕ, ◌≤◌, ◌≡◌, refl, ap, List, [], ◌∷◌, ltb, leb, if◌then◌else◌, arith, Bool-cases, inl, inr,
  leb→le,
}
use mathlib.Core.Path.{ap₂}
use skillcdn.Text.{Text}
use skillcdn.Markdown.Outline.{
  FoundHeading, OutlineHeading, as_found, pop_while, texts_of, paths_from, heading_paths,
}

-- The ancestors of a heading of a level among the headings above it, the nearest first: the nearest
-- of a smaller level, and the ancestors of that one.
abbrev pub ancestors : ℕ → List FoundHeading → List FoundHeading
ancestors level [] = []
ancestors level (h ∷ above) =
    let rest = ancestors level above in
    let higher = ancestors h.level above in if ltb h.level level then h ∷ higher else rest

-- The path of every heading, by its ancestors among those above it.
abbrev pub paths_by_ancestors : List FoundHeading → List OutlineHeading → List (List Text)
paths_by_ancestors above [] = []
paths_by_ancestors above (h ∷ headings) =
    texts_of (as_found h ∷ ancestors h.level above)
    ∷ paths_by_ancestors (as_found h ∷ above) headings

pop_while-pop_while :
    (level higher : ℕ) (stack : List FoundHeading)
    → level ≤ higher
    → pop_while level (pop_while higher stack) ≡ pop_while level stack
pop_while-pop_while level higher [] h = refl
pop_while-pop_while level higher (top ∷ stack) h =
    ground (arith, pop_while-pop_while level higher stack h)

-- A stack that gives the ancestors of a heading of any level.
abbrev IsStackOf : List FoundHeading → List FoundHeading → Type 0
IsStackOf above stack = (level : ℕ) → pop_while level stack ≡ ancestors level above

push-IsStackOf :
    (above stack : List FoundHeading) (h : FoundHeading)
    → IsStackOf above stack
    → IsStackOf (h ∷ above) (h ∷ pop_while h.level stack)
push-IsStackOf above stack h s level = elim (Bool-cases (leb level h.level)) [
  | inl popped ↦
      ground (arith, pop_while-pop_while level h.level stack (leb→le level h.level popped), s level)
  | inr kept ↦ ground (arith, s h.level)
]

paths_from_lem :
    (above stack : List FoundHeading) (headings : List OutlineHeading)
    → IsStackOf above stack
    → paths_from stack headings ≡ paths_by_ancestors above headings
unfolding paths_from
paths_from_lem above stack [] s = refl
paths_from_lem above stack (h ∷ headings) s =
    ap₂ (λ path paths. path ∷ paths) (ap (λ t. texts_of (as_found h ∷ t)) (s h.level))
      (paths_from_lem (as_found h ∷ above) (as_found h ∷ pop_while h.level stack) headings
        (push-IsStackOf above stack (as_found h) s))

-- The path of every heading holds the texts that are not empty of its ancestors, the outermost first,
-- and its own: the nearest heading above it of a smaller level, the nearest above that one of a
-- level smaller still, and so on.
pub heading_paths_lem :
    (headings : List OutlineHeading) → heading_paths headings ≡ paths_by_ancestors [] headings
unfolding heading_paths
heading_paths_lem headings = paths_from_lem [] [] headings (λ level. refl)
