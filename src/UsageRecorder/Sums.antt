-- ===== src/UsageRecorder/Sums.antt =====
-- Sums over maps of counters and over the reports that take them along.
use skillcdn.Common.{
  ℕ, ◌+◌, ◌≡◌, refl, Bool, true, false, ◌&&◌, List, [], ◌∷◌, ◌++◌, if◌then◌else◌, arith, Bool-cases,
  inl, inr, is_empty,
}
use skillcdn.UsageRecorder.{Report}
use skillcdn.UsageRecorder.Counters.{add_to}

-- A map of counters by keys that are compared by what they hold.
pub record IsCounter {A : Type 0} (same_key : A → A → Bool) (count_of : A → ℕ)
    (with_count : ℕ → A → A) : Type 0 where
  pub counts : (n : ℕ) (a : A) → count_of (with_count n a) ≡ n
  pub keeps_key : (n : ℕ) (a k : A) → same_key (with_count n a) k ≡ same_key a k
  pub agrees : (a b k : A) → same_key a b ≡ true → same_key a k ≡ same_key b k

module _ {A : Type 0} (same_key : A → A → Bool) (count_of : A → ℕ) where
  -- What the increments of a list come to for a key.
  abbrev pub total : A → List A → ℕ
  total key [] = 0
  total key (a ∷ xs) = (if same_key a key then count_of a else 0) + total key xs

  pub total-add_to :
      (with_count : ℕ → A → A)
      → IsCounter same_key count_of with_count
      → (key one : A) (buffer : List A) → count_of one ≡ 1
      → total key (add_to same_key count_of with_count one buffer)
        ≡ total key buffer + (if same_key one key then 1 else 0)
  unfolding add_to
  total-add_to w c key one [] h = ground arith
  total-add_to w c key one (a ∷ buffer) h = elim (Bool-cases (same_key a one)) [
    | inl e ↦ rw e (
        ground (
          arith,
          c.counts (count_of a + 1) one,
          c.keeps_key (count_of a + 1) one key,
          c.agrees a one key e,
        ))
    | inr n ↦ rw n (omega (arith, total-add_to w c key one buffer h))
  ]

  module _ (of_report : Report → List A) where
    abbrev pub reported : A → List Report → ℕ
    reported key [] = 0
    reported key (r ∷ rs) = total key (of_report r) + reported key rs

    reported-append :
        (key : A) (rs qs : List Report)
        → reported key (rs ++ qs) ≡ reported key rs + reported key qs
    reported-append key [] qs = omega arith
    reported-append key (r ∷ rs) qs = omega (arith, reported-append key rs qs)

    pub reported_if :
        (b : Bool) (key : A) (rs : List Report) (r : Report)
        → (b ≡ true → total key (of_report r) ≡ 0)
        → reported key (if b then rs else rs ++ (r ∷ []))
          ≡ reported key rs + total key (of_report r)
    reported_if true key rs r h = omega (arith, h refl)
    reported_if false key rs r h = omega (arith, reported-append key rs (r ∷ []))

  pub total_of_empty :
      (key : A) (a c d e : Bool) (xs : List A)
      → (a && is_empty xs && c && d && e) ≡ true
      → total key xs ≡ 0
  total_of_empty key a c d e [] h = refl
  total_of_empty key a c d e (x ∷ xs) h = ground arith

  pub total_of_first :
      (key : A) (b c d e : Bool) (xs : List A)
      → (is_empty xs && b && c && d && e) ≡ true
      → total key xs ≡ 0
  total_of_first key b c d e [] h = refl
  total_of_first key b c d e (x ∷ xs) h = ground arith
