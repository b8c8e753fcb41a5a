-- ===== src/Reader/Queries/Pages.antt =====
-- The pages of the listed skills.
use skillcdn.Common.{
  ℕ, zero, suc, ◌+◌, ◌*◌, ◌≤◌, ◌≡◌, refl, ap, ◌∙◌, sym, Bool, List, [], ◌∷◌, ◌++◌, length, take,
  drop, arith, take-append-drop,
}
use skillcdn.Text.{Text}
use skillcdn.IndexEntry.{IndexEntry}
use skillcdn.Reader.Queries.{list_listed_skills, listed_skills}
use Prim.Native.Nat.add

drop-nil {ℓ} : {A : Type ℓ} (n : ℕ) → drop {A = A} n [] ≡ []
drop-nil zero = refl
drop-nil (suc n) = refl

drop-drop {ℓ} : {A : Type ℓ} (n m : ℕ) (xs : List A) → drop m (drop n xs) ≡ drop (n + m) xs
drop-drop zero m xs = rw (add.zero m) refl
drop-drop (suc n) m [] = drop-nil m ∙ sym (drop-nil (suc n + m))
drop-drop (suc n) m (x ∷ xs) = rw (add.suc n m) (drop-drop n m xs)

drop_all {ℓ} : {A : Type ℓ} (n : ℕ) (xs : List A) → length xs ≤ n → drop n xs ≡ []
drop_all zero [] h = refl
drop_all zero (x ∷ xs) h = absurd (omega arith)
drop_all (suc n) [] h = refl
drop_all (suc n) (x ∷ xs) h = drop_all n xs (omega arith)

module _ (entries : List IndexEntry) (m : Text) (limit : ℕ) (restricted : Bool) where
  -- So many pages one behind the other, each from where the one before it ended.
  abbrev pub pages_from : ℕ → ℕ → List IndexEntry
  pages_from zero offset = []
  pages_from (suc n) offset =
      (list_listed_skills entries m offset limit restricted).skills ++ pages_from n (offset + limit)

  -- The pages from an offset on, enough of them to reach the total, hold every listed skill from that
  -- offset on, once each and in the order of the listing.
  pub pages_from_lem :
      (n offset : ℕ)
      → (list_listed_skills entries m offset limit restricted).total ≤ offset + n * limit
      → pages_from n offset ≡ drop offset (listed_skills entries m restricted)
  unfolding list_listed_skills
  pages_from_lem zero offset h = sym (drop_all offset _ (omega arith))
  pages_from_lem (suc n) offset h =
      ap (λ rest. take limit (drop offset (listed_skills entries m restricted)) ++ rest)
        (pages_from_lem n (offset + limit) (grind arith)
          ∙ sym (drop-drop offset limit (listed_skills entries m restricted)))
      ∙ take-append-drop limit (drop offset (listed_skills entries m restricted))
