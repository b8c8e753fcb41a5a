-- ===== src/RepoLayout/Readme.antt =====
-- Which overview of a directory is selected: `selectReadmePaths`.
use skillcdn.Common.{
  ◌<◌, ◌≡◌, sym, ◌↔◌, ◌⊎◌, inl, inr, false, List, [], ◌∷◌, arith, ltb, Option, none, some,
  Bool-cases, In, head, tail,
}
use skillcdn.Text.{less}
use skillcdn.RepoPath.{RepoPath}
use skillcdn.RepoLayout.Selection.{
  readme_rank, takes_over, selected_of, select_readmes, select_step,
}
use skillcdn.RepoLayout.Overviews.{IsOverview, IsSelection, And, step}

abbrev pub InOr : List RepoPath → (RepoPath → Type 0) → RepoPath → Type 0
InOr paths seen q = In q paths ⊎ seen q

IsSelection-map :
    (directories : List RepoPath) (d : RepoPath) (P Q : RepoPath → Type 0)
    → ((q : RepoPath) → P q ↔ Q q)
    → (o : Option RepoPath) → IsSelection P directories d o
    → IsSelection Q directories d o
IsSelection-map directories d P Q f none h = λ q m. h q ((f q).1 m)
IsSelection-map directories d P Q f (some r) h = record {
  is_seen = (f r).0 h.is_seen;
  overview = h.overview;
  first = λ q m. h.first q ((f q).1 m);
}

move :
    (path : RepoPath) (paths : List RepoPath) (seen : RepoPath → Type 0) (q : RepoPath)
    → InOr paths (And path seen) q ↔ InOr (path ∷ paths) seen q
move path paths seen q = (to, from)
  where
    to : InOr paths (And path seen) q → InOr (path ∷ paths) seen q
    to (inl m) = inl (tail m)
    to (inr (inl e)) = inl (head (sym e))
    to (inr (inr s)) = inr s

    from : InOr (path ∷ paths) seen q → InOr paths (And path seen) q
    from (inl (head e)) = inr (inl (sym e))
    from (inl (tail m)) = inl m
    from (inr s) = inr (inr s)

select_all :
    (directories : List RepoPath) (d : RepoPath) (seen : RepoPath → Type 0)
    (selected : List (RepoPath × RepoPath)) (paths : List RepoPath)
    → IsSelection seen directories d (selected_of selected d)
    → IsSelection
        (InOr paths seen)
        directories
        d
        (selected_of (select_readmes directories selected paths) d)
unfolding select_readmes
select_all directories d seen selected [] h =
    IsSelection-map directories d seen _ (λ q. (inr, nothing q)) _ h
  where
    nothing : (q : RepoPath) → InOr [] seen q → seen q
    nothing q (inl m) = elim m [ ]
    nothing q (inr s) = s
select_all directories d seen selected (path ∷ paths) h =
    IsSelection-map directories d _ _ (move path paths seen) _ (
      select_all directories d (And path seen) (select_step directories selected path) paths
        (step directories d path seen selected h))

-- An overview goes before another by its rank or, at the same rank, by its name.
abbrev pub GoesBefore : RepoPath → RepoPath → Type 0
GoesBefore r q =
    (readme_rank r < readme_rank q) ⊎ ((readme_rank r ≡ readme_rank q) × (less q r ≡ false))

GoesBefore-takes_over : (q r : RepoPath) → takes_over q (some r) ≡ false → GoesBefore r q
unfolding takes_over
GoesBefore-takes_over q r h = elim (Bool-cases (ltb (readme_rank r) (readme_rank q))) [
  | inl lower ↦ inl (ground arith)
  | inr not_lower ↦ inr (ground arith, ground arith)
]

-- The overview of a directory among some paths: one that goes before all of them, or none where there
-- is none.
pub record IsFirstOverview (paths directories : List RepoPath) (directory r : RepoPath)
    : Type 0 where
  pub among : In r paths
  pub overview : IsOverview directories directory r
  pub first : (q : RepoPath) → In q paths → IsOverview directories directory q → GoesBefore r q

abbrev pub IsOverviewOf : List RepoPath → List RepoPath → RepoPath → Option RepoPath → Type 0
IsOverviewOf paths directories directory none =
    (q : RepoPath) → In q paths → ¬ (IsOverview directories directory q)
IsOverviewOf paths directories directory (some r) = IsFirstOverview paths directories directory r

selected-IsOverviewOf :
    (paths directories : List RepoPath) (d : RepoPath) (o : Option RepoPath)
    → IsSelection (λ q. In q paths) directories d o
    → IsOverviewOf paths directories d o
selected-IsOverviewOf paths directories d none h = h
selected-IsOverviewOf paths directories d (some r) h = record {
  among = h.is_seen;
  overview = h.overview;
  first = λ q m v. GoesBefore-takes_over q r (h.first q m v);
}

-- For every directory, the loop of `selectReadmePaths` has in the end selected one of the overviews
-- among the paths that lie in that directory, where the directory is listed, and one that goes before
-- all others by its rank or, at the same rank, by its name; it has selected none only if there is no
-- such overview.
pub select_readmes_lem :
    (directories paths : List RepoPath) (d : RepoPath)
    → IsOverviewOf paths directories d (selected_of (select_readmes directories [] paths) d)
unfolding selected_of
select_readmes_lem directories paths d = selected-IsOverviewOf paths directories d _ (
    IsSelection-map directories d _ _ (λ q. (only q, inl)) _
      (select_all directories d (λ q. ⊥) [] paths (λ q m. absurd m)))
  where
    only : (q : RepoPath) → InOr paths (λ x. ⊥) q → In q paths
    only q (inl m) = m
    only q (inr n) = absurd n
