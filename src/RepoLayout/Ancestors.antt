-- ===== src/RepoLayout/Ancestors.antt =====
-- The walk from a path to the root: `nearestDirectoryAtOrAbove` and `isExcludedPath`.
use skillcdn.Common.{
  ℕ, zero, suc, ◌≤◌, ◌<◌, ◌≡◌, refl, sym, ap, ◌∙◌, ◌≢◌, ◌⊎◌, inl, inr, false, List, [], ◌∷◌, ◌++◌,
  arith, Option, none, some, length, take, drop, Bool-cases, Option-cases, append_assoc,
  length-append, subst, In, All-append_right,
}
use skillcdn.Text.{Text, slash, same, has, last_index_of}
use skillcdn.Text.Compare.{same_iff, has→In, In→has}
use skillcdn.Text.Split.{Lacks}
use skillcdn.Text.Search.{last_index_of-none, last_index_of-some}
use skillcdn.RepoPath.{RepoPath, root_path}
use skillcdn.RepoPath.Within.{
  Under, under_root, itself, beneath, Under-trans, Under-refl, Under-length, meet,
}
use skillcdn.RepoLayout.{parent_directory, nearest_from, nearest_directory_at_or_above}

-- The parent of a path, and the name below it.
pub data Parent (p : Text) : Text → Type 0 where
  top : Lacks slash p → Parent p []
  below : (q name : Text) → p ≡ q ++ (slash ∷ name) → Lacks slash name → Parent p q

pub parent_directory-Parent : (p : RepoPath) → Parent p (parent_directory p)
unfolding parent_directory
parent_directory-Parent p = elim (Option-cases (last_index_of slash p)) [
  | inl e ↦ rw (e, parent_directory) (top (last_index_of-none slash p e))
  | inr (i, e) ↦
      let (cut, lacks, size) = last_index_of-some slash p i e in
      rw (e, parent_directory) (below (take i p) (drop (suc i) p) cut lacks)
]

Lacks-append-unit : (c : ℕ) (u t : Text) → Lacks c (u ++ (c ∷ t)) → ⊥
Lacks-append-unit c u t h = (All-append_right _ u (c ∷ t) h).0 refl

append-cancel : (q s t : Text) → q ++ s ≡ q ++ t → s ≡ t
append-cancel [] s t h = h
append-cancel (c ∷ q) s t h = append-cancel q s t (cc)

-- What is above a path is the path itself or above its parent.
above-Parent : {p q : Text} (r : Text) → Parent p q → Under r p → (r ≡ p) ⊎ Under r q
above-Parent r (top h) (under_root e) = inr (under_root e)
above-Parent r (top h) (itself e) = inl (sym e)
above-Parent r (top h) (beneath t e) =
    absurd (Lacks-append-unit slash r t (subst (Lacks slash) e h))
above-Parent r (below q name e h) (under_root k) = inr (under_root k)
above-Parent r (below q name e h) (itself k) = inl (sym k)
above-Parent r (below q name e h) (beneath t k) = elim (meet q r name t (sym e ∙ k)) [
  | inl same_path ↦ inr (itself same_path)
  | inr (inl (u, more)) ↦
      let whole : q ++ (slash ∷ name) ≡ q ++ (slash ∷ u ++ (slash ∷ t)) =
        sym e ∙ k ∙ ap (λ x. x ++ (slash ∷ t)) more ∙ append_assoc q (slash ∷ u) (slash ∷ t) in
      let rest = append-cancel q (slash ∷ name) (slash ∷ u ++ (slash ∷ t)) whole in
      absurd (Lacks-append-unit slash u t (subst (Lacks slash) (cc) h))
  | inr (inr (u, less_deep)) ↦ inr (beneath u less_deep)
]

Parent-Under : {p q : Text} → Parent p q → Under q p
Parent-Under (top h) = under_root refl
Parent-Under (below q name e h) = beneath name e

Parent-shorter : (p : Text) {q : Text} → p ≢ [] → Parent p q → length q < length p
Parent-shorter [] n (top h) = absurd (n refl)
Parent-shorter (c ∷ p) n (top h) = omega arith
Parent-shorter p n (below q name e h) = rw e (omega (arith, length-append q (slash ∷ name)))

pub parent-Under : (p : RepoPath) → Under (parent_directory p) p
parent-Under p = Parent-Under (parent_directory-Parent p)

pub above_parent : (r p : RepoPath) → Under r p → (r ≡ p) ⊎ Under r (parent_directory p)
above_parent r p h = above-Parent r (parent_directory-Parent p) h

pub parent-shorter : (p : RepoPath) → p ≢ [] → length (parent_directory p) < length p
parent-shorter p n = Parent-shorter p n (parent_directory-Parent p)

pub above_root : (r p : Text) → Under r p → p ≡ [] → r ≡ []
above_root r p h e = let small = Under-length r p h in nil r (rw e at small)
  where
    nil : (r : Text) → length r ≤ 0 → r ≡ []
    nil [] k = refl
    nil (c ∷ r) k = absurd (omega arith)

-- The nearest of some directories at or above a path.
pub record IsNearest (directories : List RepoPath) (directory nearest : RepoPath) : Type 0 where
  pub listed : In nearest directories
  pub above : Under nearest directory
  pub closest : (q : RepoPath) → In q directories → Under q directory → Under q nearest

-- What the walk answers.
abbrev pub IsAnswer : List RepoPath → RepoPath → Option RepoPath → Type 0
IsAnswer directories directory none = (q : RepoPath) → In q directories → ¬ (Under q directory)
IsAnswer directories directory (some nearest) = IsNearest directories directory nearest

has-false : (ts : List Text) (s : Text) → has ts s ≡ false → ¬ (In s ts)
has-false ts s h m = cc (In→has m)

raise :
    (ts : List RepoPath) (p : RepoPath) (answer : Option RepoPath)
    → has ts p ≡ false
    → IsAnswer ts (parent_directory p) answer
    → IsAnswer ts p answer
raise ts p none h k = λ q m u. elim (above_parent q p u) [
  | inl here ↦ has-false ts p h (subst (λ x. In x ts) here m)
  | inr up ↦ k q m up
]
raise ts p (some r) h k = record {
  listed = k.listed;
  above = Under-trans r (parent_directory p) p k.above (parent-Under p);
  closest = λ q m u. elim (above_parent q p u) [
    | inl here ↦ absurd (has-false ts p h (subst (λ x. In x ts) here m))
    | inr up ↦ k.closest q m up
  ];
}

pub nearest_from-IsAnswer :
    (fuel : ℕ) (p : RepoPath) (ts : List RepoPath)
    → length p < fuel
    → IsAnswer ts p (nearest_from fuel p ts)
unfolding nearest_from
nearest_from-IsAnswer zero p ts h = omega arith
nearest_from-IsAnswer (suc fuel) p ts h = elim (Bool-cases (has ts p)) [
  | inl found ↦
      rw found (record { listed = has→In ts p found; above = Under-refl p; closest = λ q m u. u })
  | inr missing ↦ elim (Bool-cases (same p root_path)) [
    | inl root ↦
        let at_root = (same_iff p root_path).0 root in
        rw (missing, root)
          (λ q m u.
            has-false ts p missing
              (subst (λ x. In x ts) (above_root q p u at_root ∙ sym at_root) m))
    | inr inner ↦
        let not_root : p ≢ [] = λ e. cc (inner, (same_iff p root_path).1 e) in
        let short = parent-shorter p not_root in
        rw (missing, inner)
          (raise ts p _ missing (nearest_from-IsAnswer fuel (parent_directory p) ts (omega arith)))
  ]
]

-- The walk finds the nearest of the directories at or above a directory, and answers that there is
-- none only if none of them is.
pub nearest-IsAnswer :
    (directory : RepoPath) (directories : List RepoPath)
    → IsAnswer directories directory (nearest_directory_at_or_above directory directories)
unfolding nearest_directory_at_or_above
nearest-IsAnswer directory directories =
    nearest_from-IsAnswer (suc (length directory)) directory directories (omega arith)
