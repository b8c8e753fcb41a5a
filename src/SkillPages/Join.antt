-- ===== src/SkillPages/Join.antt =====
-- Fragments that were cut from texts are joined back into them, wherever the pages end.
use skillcdn.Common.{
  ◌≡◌, refl, sym, ap, ◌∙◌, Bool, true, false, List, [], ◌∷◌, ◌++◌, Option, none, some, append_assoc,
  append-nil,
}
use skillcdn.Text.{Text}
use skillcdn.Text.Compare.{same_refl}
use skillcdn.RepoPath.{RepoPath}
use skillcdn.SkillPages.{Fragment, same_path, join_step, join_page, join_pages, join_fragments}

-- The fragments of a text: each but the last is truncated, and together they hold it.
pub data CutsOf (path : Option RepoPath) : Text → Bool → List Fragment → Type 0 where
  whole :
      (text : Text) (truncated : Bool)
      → CutsOf path text truncated
          (record { path = path; content = some text; truncated = truncated } ∷ [])
  part :
      (text rest : Text) (truncated : Bool) (fragments : List Fragment)
      → CutsOf path rest truncated fragments
      → CutsOf path
          (text ++ rest)
          truncated
          (record { path = path; content = some text; truncated = true } ∷ fragments)

-- The fragments of several texts, one after another; only the last text may be truncated itself.
pub data CutsAll : List Fragment → List Fragment → Type 0 where
  none_left : CutsAll [] []
  last_text :
      (path : Option RepoPath) (text : Text) (truncated : Bool) (fragments : List Fragment)
      → CutsOf path text truncated fragments
      → CutsAll (record { path = path; content = some text; truncated = truncated } ∷ []) fragments
  next_text :
      (path : Option RepoPath) (text : Text) (fragments : List Fragment)
      (texts others : List Fragment)
      → CutsOf path text false fragments
      → CutsAll texts others
      → CutsAll
          (record { path = path; content = some text; truncated = false } ∷ texts)
          (fragments ++ others)

-- The fragments of the pages one after another.
abbrev pub flat : List (List Fragment) → List Fragment
flat [] = []
flat (page ∷ pages) = page ++ flat pages

join_page-append :
    (joined page others : List Fragment)
    → join_page joined (page ++ others) ≡ join_page (join_page joined page) others
unfolding join_page
join_page-append joined [] others = refl
join_page-append joined (f ∷ page) others = join_page-append (join_step joined f) page others

join_pages-flat :
    (joined : List Fragment) (pages : List (List Fragment))
    → join_pages joined pages ≡ join_page joined (flat pages)
unfolding join_page join_pages
join_pages-flat joined [] = refl
join_pages-flat joined (page ∷ pages) =
    join_pages-flat (join_page joined page) pages ∙ sym (join_page-append joined page (flat pages))

same_path_refl : (p : Option RepoPath) → same_path p p ≡ true
unfolding same_path
same_path_refl none = refl
same_path_refl (some p) = same_refl p

-- The last of what is joined is open: the next fragment of its path continues it.
step_open :
    (joined : List Fragment) (path : Option RepoPath) (text more : Text) (truncated : Bool)
    → join_step
        (joined ++ (record { path = path; content = some text; truncated = true } ∷ []))
        (record { path = path; content = some more; truncated = truncated })
      ≡ joined
        ++ (record { path = path; content = some (text ++ more); truncated = truncated } ∷ [])
unfolding join_step
step_open [] path text more truncated = rw (same_path_refl path) refl
step_open (j ∷ []) path text more truncated = rw (same_path_refl path) refl
step_open (j ∷ k ∷ joined) path text more truncated =
    ap (λ x. j ∷ x) (step_open (k ∷ joined) path text more truncated)

-- The last of what is joined is closed, if there is one.
abbrev IsClosed : List Fragment → Type 0
IsClosed [] = Unit
IsClosed (f ∷ []) = f.truncated ≡ false
IsClosed (f ∷ g ∷ fs) = IsClosed (g ∷ fs)

step_closed :
    (joined : List Fragment) (f : Fragment)
    → IsClosed joined
    → join_step joined f ≡ joined ++ (f ∷ [])
unfolding join_step
step_closed [] f h = refl
step_closed (j ∷ []) f h = rw h refl
step_closed (j ∷ k ∷ joined) f h = ap (λ x. j ∷ x) (step_closed (k ∷ joined) f h)

append-IsClosed :
    (joined : List Fragment) (f : Fragment) → f.truncated ≡ false → IsClosed (joined ++ (f ∷ []))
append-IsClosed [] f h = h
append-IsClosed (j ∷ []) f h = h
append-IsClosed (j ∷ k ∷ joined) f h = append-IsClosed (k ∷ joined) f h

-- The rest of a text onto what is joined of it.
join_rest :
    (joined : List Fragment) (path : Option RepoPath) (text rest : Text) (truncated : Bool)
    (fragments : List Fragment)
    → CutsOf path rest truncated fragments
    → join_page
        (joined ++ (record { path = path; content = some text; truncated = true } ∷ []))
        fragments
      ≡ joined
        ++ (record { path = path; content = some (text ++ rest); truncated = truncated } ∷ [])
unfolding join_page
join_rest joined path text _ _ _ (whole rest truncated) = step_open joined path text rest truncated
join_rest joined path text _ _ _ (part more rest' truncated others c) =
    ap (λ x. join_page x others) (step_open joined path text more true)
    ∙ join_rest joined path (text ++ more) rest' truncated others c
    ∙ ap (λ x. joined ++ (record { path = path; content = some x; truncated = truncated } ∷ []))
        (append_assoc text more rest')

-- The fragments of a text, where what is joined before them is closed.
join_text :
    (joined : List Fragment) (path : Option RepoPath) (text : Text) (truncated : Bool)
    (fragments : List Fragment)
    → IsClosed joined
    → CutsOf path text truncated fragments
    → join_page joined fragments
      ≡ joined ++ (record { path = path; content = some text; truncated = truncated } ∷ [])
unfolding join_page
join_text joined path _ _ _ h (whole text truncated) = step_closed joined _ h
join_text joined path _ _ _ h (part text rest truncated fragments c) =
    ap (λ x. join_page x fragments) (step_closed joined _ h)
    ∙ join_rest joined path text rest truncated fragments c

join_texts :
    (joined texts fragments : List Fragment)
    → IsClosed joined
    → CutsAll texts fragments
    → join_page joined fragments ≡ joined ++ texts
unfolding join_page
join_texts joined _ _ h none_left = sym (append-nil joined)
join_texts joined _ _ h (last_text path text truncated fragments c) =
    join_text joined path text truncated fragments h c
join_texts joined _ _ h (next_text path text fragments texts others c cs) =
    let f : Fragment = record { path = path; content = some text; truncated = false } in
    join_page-append joined fragments others
    ∙ ap (λ x. join_page x others) (join_text joined path text false fragments h c)
    ∙ join_texts (joined ++ (f ∷ [])) texts others (append-IsClosed joined f refl) cs
    ∙ append_assoc joined (f ∷ []) texts

-- Texts that were cut into fragments, the fragments of one text marked as truncated up to its last,
-- are joined back exactly, whatever pages the fragments came in; only the last text may itself be
-- unfinished.
pub join_fragments-CutsAll :
    (pages : List (List Fragment)) (texts : List Fragment)
    → CutsAll texts (flat pages)
    → join_fragments pages ≡ texts
unfolding join_fragments
join_fragments-CutsAll pages texts c =
    join_pages-flat [] pages ∙ join_texts [] texts (flat pages) tt c
