-- ===== src/Text/Search.antt =====
-- `indexOf` and `lastIndexOf`: where a text is cut at a unit.
use skillcdn.Common.{
  ℕ, zero, suc, ◌≡◌, refl, false, [], ◌∷◌, ◌++◌, arith, none, some, take, drop, length,
}
use skillcdn.Text.{Text, index_of, last_index_of, has_unit}
use skillcdn.Text.Split.{Lacks}

module _ (c : ℕ) where
  pub last_index_of-none : (s : Text) → last_index_of c s ≡ none → Lacks c s
  unfolding last_index_of
  last_index_of-none [] h = tt
  last_index_of-none (d ∷ s) h = ground (arith, last_index_of-none s)

  -- The text is cut at its last `c`.
  pub last_index_of-some :
      (s : Text) (i : ℕ)
      → last_index_of c s ≡ some i
      → (s ≡ take i s ++ (c ∷ drop (suc i) s)) × Lacks c (drop (suc i) s) × (length (take i s) ≡ i)
  unfolding last_index_of
  last_index_of-some [] i h = cc
  last_index_of-some (d ∷ s) zero h = ground (arith, last_index_of-none s)
  last_index_of-some (d ∷ s) (suc i) h = ground (arith, last_index_of-some s i)

  pub index_of_of_Lacks : (s : Text) → Lacks c s → index_of c s ≡ none
  unfolding index_of
  index_of_of_Lacks [] h = refl
  index_of_of_Lacks (d ∷ s) (n, h) = ground (arith, index_of_of_Lacks s h)

  pub index_of-append : (s t : Text) → Lacks c s → index_of c (s ++ (c ∷ t)) ≡ some (length s)
  unfolding index_of
  index_of-append [] t h = ground arith
  index_of-append (d ∷ s) t (n, h) = ground (arith, index_of-append s t h)

  pub has_unit-false : (s : Text) → has_unit c s ≡ false → Lacks c s
  unfolding has_unit
  has_unit-false [] h = tt
  has_unit-false (d ∷ s) h = ground (arith, has_unit-false s)

  pub has_unit_of_Lacks : (s : Text) → Lacks c s → has_unit c s ≡ false
  unfolding has_unit
  has_unit_of_Lacks [] h = refl
  has_unit_of_Lacks (d ∷ s) (n, h) = ground (arith, has_unit_of_Lacks s h)
