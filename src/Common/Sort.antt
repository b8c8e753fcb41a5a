-- ===== src/Common/Sort.antt =====
-- `Array.prototype.sort` with a comparison: a stable sort, so that of two equal items the one that
-- stood first comes first. A comparison gives `lt`, `eq` or `gt` for a result below, at or above 0.
use Prim.Native.Nat.{Ordering}
use mathlib.Core.List.{Perm}
use mathlib.Core.List.Perm
use skillcdn.Common.{suc, ◌≡◌, refl, ap, ◌∙◌, ◌≢◌, List, [], ◌∷◌, length, All, All-map}

module _ {ℓ} {A : Type ℓ} where
  -- `x` stands before the items of the list in the array.
  unfoldable pub insert_sorted : (A → A → Ordering) → A → List A → List A
  insert_sorted cmp x [] = x ∷ []
  insert_sorted cmp x (y ∷ ys) =
      let rest = insert_sorted cmp x ys in
      elim (cmp x y) [ Ordering.gt ↦ y ∷ rest | _ ↦ x ∷ y ∷ ys ]

  unfoldable pub sort : (A → A → Ordering) → List A → List A
  unfolding insert_sorted
  sort cmp [] = []
  sort cmp (x ∷ xs) = insert_sorted cmp x (sort cmp xs)

-- `a || b` of two comparisons.
abbrev pub or_else : Ordering → Ordering → Ordering
or_else Ordering.lt second = Ordering.lt
or_else Ordering.gt second = Ordering.gt
or_else Ordering.eq second = second

module _ {ℓ} {A : Type ℓ} (cmp : A → A → Ordering) where
  abbrev pub NotAbove : A → A → Type 0
  NotAbove a b = cmp a b ≢ Ordering.gt

  -- Every item is at most every later one.
  abbrev pub IsSorted : List A → Type ℓ
  IsSorted [] = Unit
  IsSorted (x ∷ xs) = All (NotAbove x) xs × IsSorted xs

  pub record IsOrder : Type ℓ where
    pub total : (a b : A) → cmp a b ≡ Ordering.gt → NotAbove b a
    pub transitive : (a b c : A) → NotAbove a b → NotAbove b c → NotAbove a c

  pub insert_sorted-perm : (x : A) (ys : List A) → Perm (insert_sorted cmp x ys) (x ∷ ys)
  unfolding insert_sorted
  insert_sorted-perm x [] = Perm.refl _
  insert_sorted-perm x (y ∷ ys) =
      elim (cmp x y)
        as (λ o.
          Perm (elim o [ Ordering.gt ↦ y ∷ insert_sorted cmp x ys | _ ↦ x ∷ y ∷ ys ])
            (x ∷ y ∷ ys)) [
              | Ordering.lt ↦ Perm.refl _
              | Ordering.eq ↦ Perm.refl _
              | Ordering.gt ↦ Perm.trans (Perm.cons y (insert_sorted-perm x ys)) (Perm.swap x y ys)
            ]

  -- Nothing is lost and nothing is added.
  pub sort-perm : (xs : List A) → Perm (sort cmp xs) xs
  unfolding sort
  sort-perm [] = Perm.refl _
  sort-perm (x ∷ xs) = Perm.trans (insert_sorted-perm x (sort cmp xs)) (Perm.cons x (sort-perm xs))

  All-insert_sorted :
      (P : A → Type 0) (x : A) (ys : List A) → P x → All P ys → All P (insert_sorted cmp x ys)
  unfolding insert_sorted
  All-insert_sorted P x [] p h = (p, tt)
  All-insert_sorted P x (y ∷ ys) p (q, h) =
      elim (cmp x y)
        as (λ o. All P (elim o [ Ordering.gt ↦ y ∷ insert_sorted cmp x ys | _ ↦ x ∷ y ∷ ys ])) [
          | Ordering.lt ↦ (p, (q, h))
          | Ordering.eq ↦ (p, (q, h))
          | Ordering.gt ↦ (q, All-insert_sorted P x ys p h)
        ]

  pub All-sort : (P : A → Type 0) (xs : List A) → All P xs → All P (sort cmp xs)
  unfolding sort
  All-sort P [] h = tt
  All-sort P (x ∷ xs) (p, h) = All-insert_sorted P x (sort cmp xs) p (All-sort P xs h)

  -- In order, if the comparison is an order.
  insert_sorted-IsSorted :
      IsOrder → (x : A) (ys : List A) → IsSorted ys → IsSorted (insert_sorted cmp x ys)
  unfolding insert_sorted
  insert_sorted-IsSorted o x [] h = (tt, tt)
  insert_sorted-IsSorted o x (y ∷ ys) h = go (insert_sorted-IsSorted o x ys h.1) (cmp x y) refl
    where
      above : NotAbove x y → All (NotAbove x) (y ∷ ys)
      above le = (le, All-map (λ z yz. o.transitive x y z le yz) ys h.0)

      go :
          IsSorted (insert_sorted cmp x ys)
          → (r : Ordering) → cmp x y ≡ r
          → IsSorted (elim r [ Ordering.gt ↦ y ∷ insert_sorted cmp x ys | _ ↦ x ∷ y ∷ ys ])
      go rest Ordering.lt e = (above (λ q. cc), h)
      go rest Ordering.eq e = (above (λ q. cc), h)
      go rest Ordering.gt e = (All-insert_sorted (NotAbove y) x ys (o.total x y e) h.0, rest)

  pub sort-IsSorted : IsOrder → (xs : List A) → IsSorted (sort cmp xs)
  unfolding sort
  sort-IsSorted o [] = tt
  sort-IsSorted o (x ∷ xs) = insert_sorted-IsSorted o x (sort cmp xs) (sort-IsSorted o xs)

  length-insert_sorted : (x : A) (ys : List A) → length (insert_sorted cmp x ys) ≡ suc (length ys)
  unfolding insert_sorted
  length-insert_sorted x [] = refl
  length-insert_sorted x (y ∷ ys) =
      elim (cmp x y)
        as (λ o.
          length (elim o [ Ordering.gt ↦ y ∷ insert_sorted cmp x ys | _ ↦ x ∷ y ∷ ys ])
          ≡ suc (suc (length ys))) [
            | Ordering.lt ↦ refl
            | Ordering.eq ↦ refl
            | Ordering.gt ↦ ap suc (length-insert_sorted x ys)
          ]

  pub length-sort : (xs : List A) → length (sort cmp xs) ≡ length xs
  unfolding sort
  length-sort [] = refl
  length-sort (x ∷ xs) = length-insert_sorted x (sort cmp xs) ∙ ap suc (length-sort xs)

module _ {ℓ} {A : Type ℓ} (P : A → Type 0) (f g : A → A → Ordering) where
  insert_sorted_eq :
      (x : A) (ys : List A)
      → All (λ y. f x y ≡ g x y) ys
      → insert_sorted f x ys ≡ insert_sorted g x ys
  unfolding insert_sorted
  insert_sorted_eq x [] h i = x ∷ []
  insert_sorted_eq x (y ∷ ys) (e, h) i = elim (e i) [
    | Ordering.gt ↦ y ∷ insert_sorted_eq x ys h i
    | _ ↦ x ∷ y ∷ ys
  ]

  -- Comparisons that agree on the items sort alike.
  pub sort_eq :
      ((a b : A) → P a → P b → f a b ≡ g a b) → (xs : List A) → All P xs → sort f xs ≡ sort g xs
  unfolding sort
  sort_eq agree [] h = refl
  sort_eq agree (x ∷ xs) (p, h) =
      insert_sorted_eq x (sort f xs)
        (All-map (λ y q. agree x y p q) (sort f xs) (All-sort f P xs h))
      ∙ ap (insert_sorted g x) (sort_eq agree xs h)
