-- ===== src/RepoLayout/Overviews.antt =====
-- The order of the overviews of a directory, and what one round of the selection keeps.
use skillcdn.Common.{
  ◌≡◌, refl, sym, ap, ◌∙◌, ◌⊎◌, inl, inr, Bool, true, false, ◌||◌, not, List, [], ◌∷◌, arith,
  Option, none, some, Bool-cases, if◌then◌else◌, subst,
}
use skillcdn.Text.{Text, same, has, less}
use skillcdn.Text.Compare.{same_iff, same_ne}
use skillcdn.RepoPath.{RepoPath}
use skillcdn.RepoLayout.{parent_directory}
use skillcdn.RepoLayout.Selection.{is_readme_path, takes_over, selected_of, select, select_step}

less_trans : (s t u : Text) → less s t ≡ true → less t u ≡ true → less s u ≡ true
unfolding less
less_trans s t [] h k = cc
less_trans s [] (e ∷ u) h k = cc
less_trans [] (d ∷ t) (e ∷ u) h k = refl
less_trans (c ∷ s) (d ∷ t) (e ∷ u) h k = ground (arith, less_trans s t u)

less_irrefl : (s : Text) → less s s ≡ false
unfolding less
less_irrefl [] = refl
less_irrefl (c ∷ s) = ground (arith, less_irrefl s)

takes_over_trans :
    (a b c : RepoPath)
    → takes_over a (some b) ≡ true
    → takes_over b (some c) ≡ true
    → takes_over a (some c) ≡ true
unfolding takes_over
takes_over_trans a b c h k = ground (arith, less_trans a b c)

takes_over_irrefl : (a : RepoPath) → takes_over a (some a) ≡ false
unfolding takes_over
takes_over_irrefl a = ground (arith, less_irrefl a)

-- An overview of a directory that is listed.
pub record IsOverview (directories : List RepoPath) (directory path : RepoPath) : Type 0 where
  pub listed : has directories directory ≡ true
  pub readme : is_readme_path path ≡ true
  pub inside : parent_directory path ≡ directory

-- The selection among the paths of which `seen` holds: an overview that no other takes over, or none
-- where there is no overview.
pub record IsChosen (seen : RepoPath → Type 0) (directories : List RepoPath)
    (directory r : RepoPath) : Type 0 where
  pub is_seen : seen r
  pub overview : IsOverview directories directory r
  pub first :
      (q : RepoPath) → seen q → IsOverview directories directory q → takes_over q (some r) ≡ false

abbrev pub IsSelection : (RepoPath → Type 0) → List RepoPath → RepoPath → Option RepoPath → Type 0
IsSelection seen directories directory none =
    (q : RepoPath) → seen q → ¬ (IsOverview directories directory q)
IsSelection seen directories directory (some r) = IsChosen seen directories directory r

selected-select :
    (selected : List (RepoPath × RepoPath)) (k path d : RepoPath)
    → selected_of (select selected k path) d
      ≡ (if same k d then some path else selected_of selected d)
unfolding selected_of select
selected-select [] k path d = refl
selected-select ((k', v) ∷ selected) k path d = elim (Bool-cases (same k' k)) [
  | inl e ↦ let here : k' ≡ k = (same_iff k' k).0 e in rw (e, here) (ground arith)
  | inr n ↦ elim (Bool-cases (same k' d)) [
    | inl f ↦
        let here : k' ≡ d = (same_iff k' d).0 f in
        let apart : same k d ≡ false =
          same_ne k d (λ e. cc (n, (same_iff k' k).1 (here ∙ sym e))) in
        rw (n, f, apart) refl
    | inr f ↦ rw (n, f) (selected-select selected k path d)
  ]
]

both_hold : (a b : Bool) → (not a || not b) ≡ true → a ≡ true → b ≡ true → ⊥
both_hold a b h j k = ground arith

none_skipped : (a b : Bool) → (not a || not b) ≡ false → (a ≡ true) × (b ≡ true)
none_skipped a b h = ground arith

-- The paths seen and one more.
abbrev pub And : RepoPath → (RepoPath → Type 0) → RepoPath → Type 0
And path seen q = (q ≡ path) ⊎ seen q

module _ (directories : List RepoPath) (d path : RepoPath) (seen : RepoPath → Type 0) where
  pass :
      (o : Option RepoPath)
      → ¬ (IsOverview directories d path)
      → IsSelection seen directories d o
      → IsSelection (And path seen) directories d o
  pass none n h =
      λ q m. elim m [ inl e ↦ λ v. n (subst (IsOverview directories d) e v) | inr s ↦ h q s ]
  pass (some r) n h = record {
    is_seen = inr h.is_seen;
    overview = h.overview;
    first = λ q m. elim m [
      | inl e ↦ λ w. absurd (n (subst (IsOverview directories d) e w))
      | inr s ↦ h.first q s
    ];
  }

  keep_previous :
      (o : Option RepoPath)
      → takes_over path o ≡ false
      → IsSelection seen directories d o
      → IsSelection (And path seen) directories d o
  unfolding takes_over
  keep_previous none t h = cc
  keep_previous (some r) t h = record {
    is_seen = inr h.is_seen;
    overview = h.overview;
    first =
        λ q m. elim m [ inl e ↦ λ w. ap (λ x. takes_over x (some r)) e ∙ t | inr s ↦ h.first q s ];
  }

  replace :
      (o : Option RepoPath)
      → takes_over path o ≡ true
      → IsOverview directories d path
      → IsSelection seen directories d o
      → IsSelection (And path seen) directories d (some path)
  replace o t v h = record {
    is_seen = inl refl;
    overview = v;
    first = λ q m. elim m [
      | inl e ↦ λ w. ap (λ x. takes_over x (some path)) e ∙ takes_over_irrefl path
      | inr s ↦ λ w. elim (Bool-cases (takes_over q (some path))) [
        | inl over ↦ absurd (beaten o t h q s w over)
        | inr not_over ↦ not_over
      ]
    ];
  }
    where
      beaten :
          (o : Option RepoPath)
          → takes_over path o ≡ true
          → IsSelection seen directories d o
          → (q : RepoPath) → seen q
          → IsOverview directories d q
          → takes_over q (some path) ≡ true
          → ⊥
      beaten none t h q s w over = h q s w
      beaten (some r) t h q s w over = cc (takes_over_trans q path r over t, h.first q s w)

  pub step :
      (selected : List (RepoPath × RepoPath))
      → IsSelection seen directories d (selected_of selected d)
      → IsSelection
          (And path seen)
          directories
          d
          (selected_of (select_step directories selected path) d)
  unfolding select_step
  step selected h =
      elim (Bool-cases
        (not (has directories (parent_directory path)) || not (is_readme_path path))) [
          | inl skipped ↦ rw skipped (
              pass _
                (λ v.
                  let listed : has directories (parent_directory path) ≡ true =
                    ap (has directories) v.inside ∙ v.listed in
                  both_hold _ _ skipped listed v.readme)
                h)
          | inr eligible ↦
              elim (Bool-cases (takes_over path (selected_of selected (parent_directory path)))) [
                | inr behind ↦ elim (Bool-cases (same (parent_directory path) d)) [
                  | inl here ↦
                      let at_d : parent_directory path ≡ d = (same_iff _ _).0 here in
                      rw (eligible, behind)
                        (keep_previous _
                          (ap (λ x. takes_over path (selected_of selected x)) (sym at_d) ∙ behind)
                          h)
                  | inr elsewhere ↦
                      rw (eligible, behind)
                        (pass _
                          (λ v. cc (elsewhere, (same_iff (parent_directory path) d).1 v.inside)) h)
                ]
                | inl ahead ↦ elim (Bool-cases (same (parent_directory path) d)) [
                  | inl here ↦
                      let at_d : parent_directory path ≡ d = (same_iff _ _).0 here in
                      let v : IsOverview directories d path = record {
                        listed = ap (has directories) (sym at_d) ∙ (none_skipped _ _ eligible).0;
                        readme = (none_skipped _ _ eligible).1;
                        inside = at_d;
                      } in
                      rw
                        (
                          eligible,
                          ahead,
                          selected-select selected (parent_directory path) path d,
                          here,
                        )
                        (replace (selected_of selected d)
                          (ap (λ x. takes_over path (selected_of selected x)) (sym at_d) ∙ ahead) v
                          h)
                  | inr elsewhere ↦
                      rw
                        (
                          eligible,
                          ahead,
                          selected-select selected (parent_directory path) path d,
                          elsewhere,
                        )
                        (pass _
                          (λ v. cc (elsewhere, (same_iff (parent_directory path) d).1 v.inside)) h)
                ]
              ]
        ]
