-- ===== src/License/Split.antt =====
-- The loop of packages/core/src/license.ts that splits a license field at its separators.
use skillcdn.Common.{
  ℕ, zero, suc, ◌≤◌, ◌<◌, ◌≡◌, refl, ap, Bool, true, false, ◌&&◌, List, [], ◌∷◌, Option, none, some,
  length, drop, arith, Bool-cases, inl, inr, Option-cases, if◌then◌else◌,
}
use skillcdn.Text.{Text, codes, slash, starts_with, onto_first}
use skillcdn.RepoLayout.Selection.{lower_ascii}
use skillcdn.License.Words.{is_space, skip_spaces}
use skillcdn.License.Field.{behind_word, behind_separator, split_parts}

skip-le : (s : Text) → length (skip_spaces s) ≤ length s
unfolding skip_spaces
skip-le [] = omega arith
skip-le (c ∷ s) = ground (arith, skip-le s)

drop-le : (n : ℕ) (s : Text) → length (drop n s) ≤ length s
drop-le zero s = omega arith
drop-le (suc n) [] = omega arith
drop-le (suc n) (c ∷ s) = omega (arith, drop-le n s)

word-le :
    (words : List Text) (s rest : Text) → behind_word words s ≡ some rest → length rest ≤ length s
unfolding behind_word
word-le [] s rest h = cc
word-le (word ∷ words) s rest h =
    go (drop (length word) s) (drop-le (length word) s) (word-le words s rest) h
  where
    go :
        (t : Text)
        → length t ≤ length s
        → (behind_word words s ≡ some rest → length rest ≤ length s)
        → elim t [
          | [] ↦ behind_word words s
          | c ∷ u ↦
              if starts_with (lower_ascii s) word && is_space c
              then some (skip_spaces (c ∷ u))
              else behind_word words s
        ]
          ≡ some rest
        → length rest ≤ length s
    go [] short others k = others k
    go (c ∷ u) short others k = elim (Bool-cases (starts_with (lower_ascii s) word && is_space c)) [
      | inr refused ↦ others (rw refused at k)
      | inl taken ↦
          let e : skip_spaces (c ∷ u) ≡ rest = cc (rw taken at k) in
          omega (arith, ap length e, skip-le (c ∷ u))
    ]

slash-lt :
    (t rest : Text)
    → starts_with t (slash ∷ []) ≡ true
    → skip_spaces (drop 1 t) ≡ rest
    → length rest < length t
unfolding starts_with
slash-lt [] rest h e = cc
slash-lt (c ∷ t) rest h e = omega (arith, ap length e, skip-le t)

skip-lt : (c : ℕ) (s : Text) → is_space c ≡ true → length (skip_spaces (c ∷ s)) ≤ length s
unfolding skip_spaces
skip-lt c s h = rw h (skip-le s)

tested :
    (b : Bool) (o : Option Text) (rest : Text)
    → (if b then o else none) ≡ some rest
    → (b ≡ true) × (o ≡ some rest)
tested true o rest h = (refl, h)
tested false o rest h = cc

separator-lt :
    (c : ℕ) (s rest : Text) → behind_separator (c ∷ s) ≡ some rest → length rest < suc (length s)
unfolding behind_separator
separator-lt c s rest h = go (skip_spaces (c ∷ s)) (skip-le (c ∷ s)) (skip-lt c s) h
  where
    go :
        (t : Text)
        → length t ≤ suc (length s)
        → (is_space c ≡ true → length t ≤ length s)
        → (if starts_with t (slash ∷ [])
            then some (skip_spaces (drop 1 t))
            else if is_space c
            then behind_word (codes "or" ∷ codes "and" ∷ codes "with" ∷ []) t
            else none)
          ≡ some rest
        → length rest < suc (length s)
    go t short shorter k = elim (Bool-cases (starts_with t (slash ∷ []))) [
      | inl here ↦
          let e : skip_spaces (drop 1 t) ≡ rest = cc (rw here at k) in
          omega (arith, slash-lt t rest here e)
      | inr away ↦
          let (space, e) = tested (is_space c) _ rest (rw away at k) in
          omega
            (arith, word-le (codes "or" ∷ codes "and" ∷ codes "with" ∷ []) t rest e, shorter space)
    ]

-- Any two amounts of fuel that are both more than the length of a text split it alike, so that the
-- split of a license field never stops for want of fuel.
split_parts_lem :
    (fuel more : ℕ) (s : Text)
    → length s < fuel
    → length s < more
    → split_parts fuel s ≡ split_parts more s
unfolding split_parts
split_parts_lem zero more s h k = absurd (omega arith)
split_parts_lem (suc fuel) zero s h k = absurd (omega arith)
split_parts_lem (suc fuel) (suc more) [] h k = refl
split_parts_lem (suc fuel) (suc more) (c ∷ s) h k = elim (Option-cases (behind_separator (c ∷ s))) [
  | inl e ↦
      rw (e, split_parts)
        (ap (onto_first c) (split_parts_lem fuel more s (omega arith) (omega arith)))
  | inr (rest, e) ↦
      let shorter = separator-lt c s rest e in
      rw (e, split_parts)
        (ap (λ ps. [] ∷ ps) (split_parts_lem fuel more rest (omega arith) (omega arith)))
]
