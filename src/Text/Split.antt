-- ===== src/Text/Split.antt =====
-- `split` and `join` on one separator.
use skillcdn.Common.{
  ℕ, ◌≡◌, refl, sym, ◌≢◌, List, [], ◌∷◌, ◌++◌, arith, ◌==◌, All, Bool-cases, inl, inr,
}
use skillcdn.Text.{Text, split, join, onto_first}

-- No unit of the text is the separator.
abbrev pub Lacks : ℕ → Text → Type 0
Lacks sep = All (λ c. c ≢ sep)

module _ (sep : ℕ) where
  pub split-ne-nil : (s : Text) → split sep s ≢ []
  unfolding split
  split-ne-nil [] = λ e. cc
  split-ne-nil (c ∷ s) = ground arith

  join-onto_first :
      (c : ℕ) (ps : List Text) → ps ≢ [] → join sep (onto_first c ps) ≡ c ∷ join sep ps
  unfolding join
  join-onto_first c [] h = absurd (h refl)
  join-onto_first c (p ∷ []) h = refl
  join-onto_first c (p ∷ q ∷ ps) h = refl

  join-cons : (ps : List Text) → ps ≢ [] → join sep ([] ∷ ps) ≡ sep ∷ join sep ps
  unfolding join
  join-cons [] h = absurd (h refl)
  join-cons (p ∷ ps) h = refl

  -- Joining the parts of a split gives the text back.
  pub join-split : (s : Text) → join sep (split sep s) ≡ s
  unfolding split
  join-split [] = unfold join in refl
  join-split (c ∷ s) = ground (
    arith,
    join-split s,
    join-onto_first c (split sep s) (split-ne-nil s),
    join-cons (split sep s) (split-ne-nil s),
  )

  onto_first-All :
      (c : ℕ) (ps : List Text) → c ≢ sep → All (Lacks sep) ps → All (Lacks sep) (onto_first c ps)
  onto_first-All c [] n h = ((n, tt), tt)
  onto_first-All c (p ∷ ps) n (hp, h) = ((n, hp), h)

  -- No part of a split holds the separator.
  pub split-Lacks : (s : Text) → All (Lacks sep) (split sep s)
  unfolding split
  split-Lacks [] = (tt, tt)
  split-Lacks (c ∷ s) = elim (Bool-cases (c == sep)) [
    | inl e ↦ rw e (tt, split-Lacks s)
    | inr n ↦ rw n (onto_first-All c (split sep s) (ground arith) (split-Lacks s))
  ]

  pub split_of_Lacks : (p : Text) → Lacks sep p → split sep p ≡ p ∷ []
  unfolding split
  split_of_Lacks [] h = refl
  split_of_Lacks (c ∷ p) (n, h) = ground (arith, split_of_Lacks p h)

  -- A text with a separator in it is split there.
  pub split-append-cons : (p s : Text) → Lacks sep p → split sep (p ++ (sep ∷ s)) ≡ p ∷ split sep s
  unfolding split
  split-append-cons [] s h = ground arith
  split-append-cons (c ∷ p) s (n, h) = ground (arith, split-append-cons p s h)

  -- Splitting a join of parts that lack the separator gives the parts back.
  pub split-join : (ps : List Text) → ps ≢ [] → All (Lacks sep) ps → split sep (join sep ps) ≡ ps
  unfolding join
  split-join [] h _ = absurd (h refl)
  split-join (p ∷ []) _ (hp, _) = split_of_Lacks p hp
  split-join (p ∷ q ∷ ps) _ (hp, hs) =
      rw (split-append-cons p (join sep (q ∷ ps)) hp, split-join (q ∷ ps) (λ e. cc) hs)

  -- A split over any text in front: its last part meets the first part behind it.
  pub split-append_sep : (s t : Text) → split sep (s ++ (sep ∷ t)) ≡ split sep s ++ split sep t
  unfolding split
  split-append_sep [] t = ground arith
  split-append_sep (c ∷ s) t = elim (Bool-cases (c == sep)) [
    | inl e ↦ rw (e, split-append_sep s t)
    | inr n ↦
        rw (n, split-append_sep s t)
          (onto_first-append c (split sep s) (split sep t) (split-ne-nil s))
  ]
    where
      onto_first-append :
          (c : ℕ) (ps qs : List Text) → ps ≢ [] → onto_first c (ps ++ qs) ≡ onto_first c ps ++ qs
      onto_first-append c [] qs h = absurd (h refl)
      onto_first-append c (p ∷ ps) qs h = refl

-- The parts of two texts put together: the last part of one meets the first part of the other.
abbrev pub merge : List Text → List Text → List Text
merge [] qs = qs
merge (p ∷ []) [] = p ∷ []
merge (p ∷ []) (q ∷ qs) = (p ++ q) ∷ qs
merge (p ∷ p' ∷ ps) qs = p ∷ merge (p' ∷ ps) qs

merge-nil_first : (qs : List Text) → qs ≢ [] → merge ([] ∷ []) qs ≡ qs
merge-nil_first [] h = absurd (h refl)
merge-nil_first (q ∷ qs) h = refl

merge-cons : (p : Text) (ps qs : List Text) → ps ≢ [] → merge (p ∷ ps) qs ≡ p ∷ merge ps qs
merge-cons p [] qs h = absurd (h refl)
merge-cons p (p' ∷ ps) qs h = refl

merge-onto_first :
    (c : ℕ) (ps qs : List Text)
    → ps ≢ []
    → qs ≢ []
    → merge (onto_first c ps) qs ≡ onto_first c (merge ps qs)
merge-onto_first c [] qs h k = absurd (h refl)
merge-onto_first c (p ∷ []) [] h k = absurd (k refl)
merge-onto_first c (p ∷ []) (q ∷ qs) h k = refl
merge-onto_first c (p ∷ p' ∷ ps) qs h k = refl

pub split-append : (sep : ℕ) (s t : Text) → split sep (s ++ t) ≡ merge (split sep s) (split sep t)
unfolding split
split-append sep [] t = sym (merge-nil_first (split sep t) (split-ne-nil sep t))
split-append sep (c ∷ s) t = elim (Bool-cases (c == sep)) [
  | inl e ↦
      rw (e, split-append sep s t)
        (sym (merge-cons [] (split sep s) (split sep t) (split-ne-nil sep s)))
  | inr n ↦
      rw (n, split-append sep s t)
        (sym (
          merge-onto_first c (split sep s) (split sep t) (split-ne-nil sep s) (split-ne-nil sep t)))
]

pub split_unit : (sep c : ℕ) (s : Text) → c ≢ sep → split sep (c ∷ s) ≡ onto_first c (split sep s)
unfolding split
split_unit sep c s n = ground arith
