-- ===== src/MeaningPolicy/Nearest.antt =====
-- The nearest manifest decides: the loop up the directories against the nearest of them.
use skillcdn.Common.{
  ℕ, zero, suc, ◌<◌, ◌≡◌, refl, ap, ◌∙◌, ◌≢◌, ◌⊎◌, inl, inr, Bool, true, List, [], ◌∷◌, arith, none,
  some, length, is_empty, Option-cases, if◌then◌else◌,
}
use skillcdn.Text.{Text}
use skillcdn.RepoPath.Within.{Under, Under-refl, Under-trans}
use skillcdn.RepoLayout.{parent_directory}
use skillcdn.RepoLayout.Ancestors.{above_parent, parent-shorter, above_root, parent-Under}
use skillcdn.MeaningPolicy.{
  PolicyEntry, directory_of, get_manifest, manifests_of, decide_from, meaning_search_of,
}
use skillcdn.MeaningPolicy.Words.{HasNone, IsLastWord, none_said, word_said}

same_directory : (p : Text) → directory_of p ≡ parent_directory p
unfolding directory_of parent_directory
same_directory p = refl

-- What the nearest manifest at or above a directory says, and that the search is on where there is
-- none.
data DecidesMap (manifests : List (Text × Bool)) (directory : Text) (on : Bool) : Type 0 where
  none_set :
      on ≡ true
      → ((q : Text) → Under q directory → get_manifest manifests q ≡ none)
      → DecidesMap manifests directory on
  set_above :
      (nearest : Text)
      → Under nearest directory
      → get_manifest manifests nearest ≡ some on
      → ((q : Text) → Under q directory → (get_manifest manifests q ≡ none) ⊎ Under q nearest)
      → DecidesMap manifests directory on

raise :
    (manifests : List (Text × Bool)) (p : Text) (on : Bool)
    → get_manifest manifests p ≡ none
    → DecidesMap manifests (directory_of p) on
    → DecidesMap manifests p on
raise manifests p on h (none_set e k) = none_set e (λ q u. elim (above_parent q p u) [
  | inl here ↦ ap (get_manifest manifests) here ∙ h
  | inr up ↦ k q (rw (same_directory p) up)
])
raise manifests p on h (set_above n u e k) =
    set_above n (Under-trans n (parent_directory p) p (rw (same_directory p) at u) (parent-Under p))
      e
      (λ q v. elim (above_parent q p v) [
        | inl here ↦ inl (ap (get_manifest manifests) here ∙ h)
        | inr up ↦ k q (rw (same_directory p) up)
      ])

climb :
    (manifests : List (Text × Bool)) (p : Text) (rest : Bool)
    → get_manifest manifests p ≡ none
    → (p ≢ [] → DecidesMap manifests (directory_of p) rest)
    → DecidesMap manifests p (if is_empty p then true else rest)
climb manifests [] rest e k =
    none_set refl (λ q u. ap (get_manifest manifests) (above_root q [] u refl) ∙ e)
climb manifests (c ∷ p) rest e k = raise manifests (c ∷ p) rest e (k (λ q. cc))

decide_from-DecidesMap :
    (fuel : ℕ) (manifests : List (Text × Bool)) (p : Text)
    → length p < fuel
    → DecidesMap manifests p (decide_from fuel manifests p)
unfolding decide_from
decide_from-DecidesMap zero manifests p h = absurd (omega arith)
decide_from-DecidesMap (suc fuel) manifests p h = elim (Option-cases (get_manifest manifests p)) [
  | inr (on, e) ↦ rw (e, decide_from) (set_above p (Under-refl p) e (λ q u. inr u))
  | inl e ↦
      rw (e, decide_from)
        (climb manifests p (decide_from fuel manifests (directory_of p)) e (λ n.
          let short = parent-shorter p n in
          decide_from-DecidesMap fuel manifests (directory_of p)
            (rw (same_directory p) (omega arith))))
]

-- What the nearest manifest at or above a directory says, and that the search is on where there is
-- none.
pub data Decides (entries : List PolicyEntry) (directory : Text) (on : Bool) : Type 0 where
  by_none :
      on ≡ true
      → ((q : Text) → Under q directory → HasNone entries q)
      → Decides entries directory on
  by_manifest :
      (nearest : Text)
      → Under nearest directory
      → IsLastWord entries nearest on
      → ((q : Text) → Under q directory → HasNone entries q ⊎ Under q nearest)
      → Decides entries directory on

DecidesMap-Decides :
    (entries : List PolicyEntry) (directory : Text) (on : Bool)
    → DecidesMap (manifests_of [] entries) directory on
    → Decides entries directory on
DecidesMap-Decides entries directory on (none_set e k) =
    by_none e (λ q u. none_said entries q (k q u))
DecidesMap-Decides entries directory on (set_above n u e k) =
    by_manifest n u (word_said entries n on e)
      (λ q v. elim (k q v) [ inl e ↦ inl (none_said entries q e) | inr up ↦ inr up ])

-- Whether a text is embedded is what the nearest directory at or above its own says that has a manifest
-- among the entries, and there the last of its manifests: off exactly if that says `meaning: false`.
-- Where no directory at or above it has a manifest, the text is embedded.
pub meaning_search_of-Decides :
    (entries : List PolicyEntry) (path : Text)
    → Decides entries (directory_of path) (meaning_search_of entries path)
unfolding meaning_search_of
meaning_search_of-Decides entries path =
    DecidesMap-Decides entries (directory_of path) (meaning_search_of entries path) (
      decide_from-DecidesMap (suc (length (directory_of path))) (manifests_of [] entries)
        (directory_of path) (omega arith))
