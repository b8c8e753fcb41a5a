-- ===== src/Reader/Order/Laws.antt =====
-- The order of paths is the order of their code points, and a sorted list is a permutation in order.
use Prim.Native.Nat.{Ordering, compare}
use mathlib.Core.Path.{ap₂}
use skillcdn.Common.{
  ℕ, ap, sym, subst, All, ◌∙◌, ◌⊎◌, ◌≤◌, ◌<◌, ◌≡◌, refl, ◌≢◌, true, false, ◌&&◌, List, [], ◌∷◌, ltb,
  arith, Bool-cases, inl, inr,
}
use mathlib.Core.List.{Perm}
use skillcdn.Common.Sort.{IsOrder, IsSorted, sort-perm, sort_eq, sort-IsSorted}
use skillcdn.Text.{Text}
use skillcdn.TextSafety.{is_high_surrogate, is_low_surrogate, pair_point, code_points}
use skillcdn.Percent.Points.{IsUnits}
use skillcdn.Reader.Order.{point_at, compare_from, compare_byte_order, sorted_by_path}

-- The order of lists of numbers, item by item, the shorter of two that agree first.
unfoldable pub lexicographic : List ℕ → List ℕ → Ordering
lexicographic [] [] = Ordering.eq
lexicographic [] (q ∷ qs) = Ordering.lt
lexicographic (p ∷ ps) [] = Ordering.gt
lexicographic (p ∷ ps) (q ∷ qs) =
    let rest = lexicographic ps qs in
    elim (compare p q) [
      | Ordering.lt ↦ Ordering.lt
      | Ordering.gt ↦ Ordering.gt
      | Ordering.eq ↦ rest
    ]

pub lexicographic_total :
    (a b : List ℕ) → lexicographic a b ≡ Ordering.gt → lexicographic b a ≢ Ordering.gt
unfolding lexicographic
lexicographic_total [] [] h = cc
lexicographic_total [] (q ∷ b) h = cc
lexicographic_total (p ∷ a) [] h = λ k. cc
lexicographic_total (p ∷ a) (q ∷ b) h =
    λ k. ground (arith, λ (e : lexicographic a b ≡ Ordering.gt). lexicographic_total a b e)

pub lexicographic_trans :
    (a b c : List ℕ)
    → lexicographic a b ≢ Ordering.gt
    → lexicographic b c ≢ Ordering.gt
    → lexicographic a c ≢ Ordering.gt
unfolding lexicographic
lexicographic_trans [] b [] h k = λ e. cc
lexicographic_trans [] b (r ∷ c) h k = λ e. cc
lexicographic_trans (p ∷ a) [] c h k = absurd (h refl)
lexicographic_trans (p ∷ a) (q ∷ b) [] h k = absurd (k refl)
lexicographic_trans (p ∷ a) (q ∷ b) (r ∷ c) h k = λ e. ground (arith, lexicographic_trans a b c)

pair_large : (c d : ℕ) → 0xffff < pair_point c d
unfolding pair_point
pair_large c d = omega arith

-- One round of the loop, by the points that it reads.
compare_from_step :
    (c d : ℕ) (s t : Text) (p q : ℕ)
    → point_at c s ≡ p
    → point_at d t ≡ q
    → compare_from false (c ∷ s) (d ∷ t) ≡ elim (compare p q) [
      | Ordering.lt ↦ Ordering.lt
      | Ordering.gt ↦ Ordering.gt
      | Ordering.eq ↦ compare_from (ltb 0xffff p) s t
    ]
unfolding compare_from
compare_from_step c d s t p q e f i = elim (compare (e i) (f i)) [
  | Ordering.lt ↦ Ordering.lt
  | Ordering.gt ↦ Ordering.gt
  | Ordering.eq ↦ compare_from (ltb 0xffff (e i)) s t
]

-- The point at the front of a text: a pair of units, or a unit of the plane that units reach.
module _ (c c' : ℕ) (s : Text) where
  abbrev IsPair : Type 0
  IsPair = (is_high_surrogate c && is_low_surrogate c') ≡ true

  abbrev IsUnit : Type 0
  IsUnit = (is_high_surrogate c && is_low_surrogate c') ≡ false

  point_at-pair :
      IsPair
      → (point_at c (c' ∷ s) ≡ pair_point c c')
        × (code_points (c ∷ c' ∷ s) ≡ pair_point c c' ∷ code_points s)
  unfolding point_at code_points
  point_at-pair h = (rw h, rw (h, code_points))

  point_at-unit :
      IsUnit → (point_at c (c' ∷ s) ≡ c) × (code_points (c ∷ c' ∷ s) ≡ c ∷ code_points (c' ∷ s))
  unfolding point_at code_points
  point_at-unit h = (rw h, rw (h, code_points))

point_at_last : (c : ℕ) → point_at c [] ≡ c
unfolding point_at
point_at_last c = refl

module _ (p q : ℕ) (ps qs : List ℕ) (s t : Text) where
  abbrev Agree : Type 0
  Agree =
      elim (compare p q) [
        | Ordering.lt ↦ Ordering.lt
        | Ordering.gt ↦ Ordering.gt
        | Ordering.eq ↦ compare_from (ltb 0xffff p) s t
      ]
      ≡ lexicographic (p ∷ ps) (q ∷ qs)

  agree_pair :
      (c d : ℕ) (s' t' : Text)
      → 0xffff < p
      → s ≡ c ∷ s'
      → t ≡ d ∷ t'
      → compare_from false s' t' ≡ lexicographic ps qs
      → Agree
  unfolding compare_from lexicographic
  agree_pair c d s' t' large e f h =
      let skipped : compare_from true s t ≡ lexicographic ps qs = ap₂ (compare_from true) e f ∙ h in
      ground (arith, skipped)

  agree_unit : p ≤ 0xffff → compare_from false s t ≡ lexicographic ps qs → Agree
  unfolding lexicographic
  agree_unit small h = ground arith

  agree_ne : p ≢ q → Agree
  unfolding lexicographic
  agree_ne h = ground arith

compare_from_lem :
    (s t : Text)
    → IsUnits s
    → IsUnits t
    → compare_from false s t ≡ lexicographic (code_points s) (code_points t)
unfolding compare_from lexicographic code_points
compare_from_lem [] [] u v = refl
compare_from_lem [] (d ∷ []) u v = refl
compare_from_lem [] (d ∷ d' ∷ t) u v = ground arith
compare_from_lem (c ∷ []) [] u v = refl
compare_from_lem (c ∷ c' ∷ s) [] u v = ground arith
compare_from_lem (c ∷ []) (d ∷ []) u v =
    compare_from_step c d [] [] c d (point_at_last c) (point_at_last d)
    ∙ agree_unit c d [] [] [] [] (omega arith) refl
compare_from_lem (c ∷ []) (d ∷ d' ∷ t) u v =
    elim (Bool-cases (is_high_surrogate d && is_low_surrogate d')) [
      | inl b ↦
          let (e, f) = point_at-pair d d' t b in
          compare_from_step c d [] (d' ∷ t) c _ (point_at_last c) e
          ∙ agree_ne c (pair_point d d') [] (code_points t) [] (d' ∷ t)
              (λ k. omega (arith, k, pair_large d d'))
          ∙ ap (lexicographic (c ∷ [])) (sym f)
      | inr b ↦
          let (e, f) = point_at-unit d d' t b in
          compare_from_step c d [] (d' ∷ t) c _ (point_at_last c) e
          ∙ agree_unit c d [] (code_points (d' ∷ t)) [] (d' ∷ t) (omega arith)
              (compare_from_lem [] (d' ∷ t) tt v.1)
          ∙ ap (lexicographic (c ∷ [])) (sym f)
    ]
compare_from_lem (c ∷ c' ∷ s) (d ∷ []) u v =
    elim (Bool-cases (is_high_surrogate c && is_low_surrogate c')) [
      | inl a ↦
          let (e, f) = point_at-pair c c' s a in
          compare_from_step c d (c' ∷ s) [] _ d e (point_at_last d)
          ∙ agree_ne (pair_point c c') d (code_points s) [] (c' ∷ s) []
              (λ k. omega (arith, k, pair_large c c'))
          ∙ ap (λ xs. lexicographic xs (d ∷ [])) (sym f)
      | inr a ↦
          let (e, f) = point_at-unit c c' s a in
          compare_from_step c d (c' ∷ s) [] _ d e (point_at_last d)
          ∙ agree_unit c d (code_points (c' ∷ s)) [] (c' ∷ s) [] (omega arith)
              (compare_from_lem (c' ∷ s) [] u.1 tt)
          ∙ ap (λ xs. lexicographic xs (d ∷ [])) (sym f)
    ]
compare_from_lem (c ∷ c' ∷ s) (d ∷ d' ∷ t) u v =
    go (Bool-cases (is_high_surrogate c && is_low_surrogate c'))
      (Bool-cases (is_high_surrogate d && is_low_surrogate d')) (compare_from_lem s t u.1.1 v.1.1)
      (compare_from_lem (c' ∷ s) (d' ∷ t) u.1 v.1)
  where
    go :
        IsPair c c' s ⊎ IsUnit c c' s
        → IsPair d d' t ⊎ IsUnit d d' t
        → compare_from false s t ≡ lexicographic (code_points s) (code_points t)
        → compare_from false (c' ∷ s) (d' ∷ t)
          ≡ lexicographic (code_points (c' ∷ s)) (code_points (d' ∷ t))
        → compare_from false (c ∷ c' ∷ s) (d ∷ d' ∷ t)
          ≡ lexicographic (code_points (c ∷ c' ∷ s)) (code_points (d ∷ d' ∷ t))
    go (inl a) (inl b) pairs units =
        let (e, f) = point_at-pair c c' s a in
        let (g, h) = point_at-pair d d' t b in
        compare_from_step c d (c' ∷ s) (d' ∷ t) _ _ e g
        ∙ agree_pair _ _ (code_points s) (code_points t) _ _ c' d' s t (pair_large c c') refl refl
            pairs
        ∙ ap₂ lexicographic (sym f) (sym h)
    go (inl a) (inr b) pairs units =
        let (e, f) = point_at-pair c c' s a in
        let (g, h) = point_at-unit d d' t b in
        compare_from_step c d (c' ∷ s) (d' ∷ t) _ _ e g
        ∙ agree_ne (pair_point c c') d (code_points s) (code_points (d' ∷ t)) (c' ∷ s) (d' ∷ t)
            (λ k. omega (arith, k, pair_large c c'))
        ∙ ap₂ lexicographic (sym f) (sym h)
    go (inr a) (inl b) pairs units =
        let (e, f) = point_at-unit c c' s a in
        let (g, h) = point_at-pair d d' t b in
        compare_from_step c d (c' ∷ s) (d' ∷ t) _ _ e g
        ∙ agree_ne c (pair_point d d') (code_points (c' ∷ s)) (code_points t) (c' ∷ s) (d' ∷ t)
            (λ k. omega (arith, k, pair_large d d'))
        ∙ ap₂ lexicographic (sym f) (sym h)
    go (inr a) (inr b) pairs units =
        let (e, f) = point_at-unit c c' s a in
        let (g, h) = point_at-unit d d' t b in
        compare_from_step c d (c' ∷ s) (d' ∷ t) _ _ e g
        ∙ agree_unit c d (code_points (c' ∷ s)) (code_points (d' ∷ t)) (c' ∷ s) (d' ∷ t)
            (omega arith) units
        ∙ ap₂ lexicographic (sym f) (sym h)

pub compare_byte_order_lem :
    (a b : Text)
    → IsUnits a
    → IsUnits b
    → compare_byte_order a b ≡ lexicographic (code_points a) (code_points b)
unfolding compare_byte_order
compare_byte_order_lem a b u v = compare_from_lem a b u v

module _ {ℓ} {A : Type ℓ} (path_of : A → Text) where
  -- The comparison of two items by the code points of their paths.
  abbrev pub by_points : A → A → Ordering
  by_points a b = lexicographic (code_points (path_of a)) (code_points (path_of b))

  by_points-IsOrder : IsOrder by_points
  by_points-IsOrder = record {
    total = λ a b. lexicographic_total (code_points (path_of a)) (code_points (path_of b));
    transitive = λ a b c.
        lexicographic_trans (code_points (path_of a)) (code_points (path_of b))
          (code_points (path_of c));
  }

  -- The items of a list in the order of their paths are the items of the list, each as often, and no
  -- path stands behind one whose code points come later, where the paths are lists of 16-bit units.
  pub sorted_by_path_lem :
      (items : List A)
      → All (λ a. IsUnits (path_of a)) items
      → Perm (sorted_by_path items path_of) items
        × IsSorted by_points (sorted_by_path items path_of)
  unfolding sorted_by_path
  sorted_by_path_lem items h = (
    sort-perm _ items,
    subst (IsSorted by_points)
        (sym (
          sort_eq (λ a. IsUnits (path_of a)) _ by_points
            (λ a b u v. compare_byte_order_lem (path_of a) (path_of b) u v) items h))
        (sort-IsSorted by_points by_points-IsOrder items),
  )
