-- ===== src/License/Words.antt =====
-- What the patterns of license.ts match: white space, words and literals at their boundaries.
use skillcdn.Common.{
  ℕ, zero, suc, Bool, true, false, ◌&&◌, ◌||◌, not, List, [], ◌∷◌, Option, none, some, leb, ◌==◌,
  if◌then◌else◌, length, drop,
}
use mathlib.Core.List.{reverse}
use skillcdn.Text.{Text, starts_with}
use skillcdn.GitRef.{is_digit}

-- `\s`.
unfoldable pub is_space : ℕ → Bool
is_space c =
    (leb 9 c && leb c 13)
    || c == 32
    || c == 0xa0
    || c == 0x1680
    || (leb 0x2000 c && leb c 0x200a)
    || c == 0x2028
    || c == 0x2029
    || c == 0x202f
    || c == 0x205f
    || c == 0x3000
    || c == 0xfeff

-- `\w`.
unfoldable pub is_word : ℕ → Bool
is_word c = is_digit c || (leb b'a' c && leb c b'z') || (leb b'A' c && leb c b'Z') || c == b'_'

-- Every run of units of a kind, replaced by one unit.
unfoldable pub squeeze : ℕ → (ℕ → Bool) → Bool → Text → Text
squeeze r p inside [] = []
squeeze r p inside (c ∷ s) =
    let rest = squeeze r p (p c) s in if p c then (if inside then rest else r ∷ rest) else c ∷ rest

unfoldable pub skip_spaces : Text → Text
unfolding is_space
skip_spaces [] = []
skip_spaces (c ∷ s) = let rest = skip_spaces s in if is_space c then rest else c ∷ s

-- `s.trim()`.
unfoldable pub trim : Text → Text
unfolding skip_spaces
trim s = reverse (skip_spaces (reverse (skip_spaces s)))

-- `s.trimEnd()`.
unfoldable pub trim_end : Text → Text
unfolding skip_spaces
trim_end s = reverse (skip_spaces (reverse s))

-- `\b` before a word: the unit before is of no word.
unfoldable pub opens_word : Option ℕ → Bool
unfolding is_word
opens_word none = true
opens_word (some c) = not (is_word c)

-- `\b` behind a word.
unfoldable pub closes_word : Text → Bool
unfolding is_word
closes_word [] = true
closes_word (c ∷ s) = not (is_word c)

-- The literal stands here as a whole word.
unfoldable pub word_here : Option ℕ → Text → Text → Bool
unfolding opens_word closes_word
word_here before s literal =
    opens_word before && (starts_with s literal && closes_word (drop (length literal) s))

-- The first place where one of some words stands, and what the word means.
unfoldable pub choose_word {ℓ} : {V : Type ℓ} → Option ℕ → Text → List (Text × V) → Option V
unfolding word_here
choose_word before s [] = none
choose_word before s ((literal, value) ∷ words) =
    if word_here before s literal then some value else choose_word before s words

unfoldable pub first_word {ℓ} : {V : Type ℓ} → List (Text × V) → Option ℕ → Text → Option V
unfolding choose_word
first_word words before [] = choose_word before [] words
first_word words before (c ∷ s) = elim (choose_word before (c ∷ s) words) [
  | some value ↦ some value
  | none ↦ first_word words (some c) s
]

unfoldable pub has_word : Text → Option ℕ → Text → Bool
unfolding word_here
has_word literal before [] = word_here before [] literal
has_word literal before (c ∷ s) = word_here before (c ∷ s) literal || has_word literal (some c) s

-- A literal that opens a word, whatever follows it.
unfoldable pub has_opening : Text → Option ℕ → Text → Bool
unfolding opens_word
has_opening literal before [] = false
has_opening literal before (c ∷ s) =
    (opens_word before && starts_with (c ∷ s) literal) || has_opening literal (some c) s

-- `(\d\.\d)\b` here.
unfoldable pub version_here : Text → Option Text
unfolding closes_word
version_here (a ∷ dot ∷ b ∷ s) =
    if is_digit a && (dot == b'.' && (is_digit b && closes_word s))
    then some (a ∷ dot ∷ b ∷ [])
    else none
version_here _ = none

-- `[^.]{0,n}?(\d\.\d)\b`.
unfoldable pub version_within : ℕ → Text → Option Text
unfolding version_here
version_within zero s = version_here s
version_within (suc n) [] = none
version_within (suc n) (c ∷ s) =
    let rest = version_within n s in
    elim (version_here (c ∷ s)) [
      | some version ↦ some version
      | none ↦ if c == b'.' then none else rest
    ]

-- `\b(?:literals)\b[^.]{0,n}?(\d\.\d)\b`; each literal is paired with itself.
unfoldable pub version_behind : List (Text × Text) → ℕ → Option ℕ → Text → Option Text
unfolding choose_word version_within
version_behind literals n before [] = none
version_behind literals n before (c ∷ s) =
    let rest = version_behind literals n (some c) s in
    elim (choose_word before (c ∷ s) literals) [
      | none ↦ rest
      | some literal ↦ elim (version_within n (drop (length literal) (c ∷ s))) [
        | some version ↦ some version
        | none ↦ rest
      ]
    ]
