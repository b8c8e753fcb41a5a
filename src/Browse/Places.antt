-- ===== src/Browse/Places.antt =====
-- Which child of a directory a path of packages/core/src/browse-tree.ts falls to.
use skillcdn.Common.{
  ℕ, suc, ◌≡◌, refl, sym, ◌∙◌, ◌⊎◌, inl, inr, ◌==◌, Bool, true, false, ◌||◌, List, [], ◌∷◌, ◌++◌,
  Option, none, some, arith, is_empty, Bool-cases, drop-append, append_assoc,
}
use skillcdn.Text.{Text, slash, same, starts_with, index_of}
use skillcdn.Text.Compare.{same→eq, same_refl, starts_with→append, starts_with-append}
use skillcdn.Text.Split.{Lacks}
use skillcdn.RepoPath.{RepoPath}
use skillcdn.Browse.{entry_at, put_entry, until, child_path}

pub entry_at-put_entry {ℓ} :
    {V : Type ℓ} (path : RepoPath) (v : V) (m : List (RepoPath × V))
    → entry_at path (put_entry path v m) ≡ some v
unfolding entry_at put_entry
entry_at-put_entry path v [] = rw (same_refl path) refl
entry_at-put_entry path v ((k, w) ∷ m) = elim (Bool-cases (same k path)) [
  | inl here ↦ ground arith
  | inr not_here ↦ rw (not_here, not_here) (entry_at-put_entry path v m)
]

pub entry_at-put_entry_other {ℓ} :
    {V : Type ℓ} (path other : RepoPath) (v : V) (m : List (RepoPath × V))
    → same path other ≡ false
    → entry_at other (put_entry path v m) ≡ entry_at other m
unfolding entry_at put_entry
entry_at-put_entry_other path other v [] h = rw h refl
entry_at-put_entry_other path other v ((k, w) ∷ m) h = elim (Bool-cases (same k path)) [
  | inl here ↦
      let e : k ≡ path = same→eq k path here in
      let off : same k other ≡ false = rw e h in rw (here, off) refl
  | inr not_here ↦
      rw not_here (step (Bool-cases (same k other)) (entry_at-put_entry_other path other v m h))
]
  where
    step :
        (same k other ≡ true) ⊎ (same k other ≡ false)
        → entry_at other (put_entry path v m) ≡ entry_at other m
        → entry_at other ((k, w) ∷ put_entry path v m) ≡ entry_at other ((k, w) ∷ m)
    step (inl e) rest = rw e refl
    step (inr e) rest = rw e rest

until-suc :
    (c : ℕ) (r : Text) (o : Option ℕ)
    → until (c ∷ r) (elim o [ none ↦ none | some i ↦ some (suc i) ]) ≡ c ∷ until r o
until-suc c r none = refl
until-suc c r (some i) = refl

-- The first segment is a given one exactly if the text is it or goes on behind it with a slash.
until-index_of :
    (seg r : Text)
    → Lacks slash seg
    → same (until r (index_of slash r)) seg ≡ (same r seg || starts_with r (seg ++ (slash ∷ [])))
unfolding same starts_with index_of
until-index_of [] [] h = refl
until-index_of [] (c ∷ r) h = elim (Bool-cases (c == slash)) [
  | inl e ↦ rw e refl
  | inr e ↦ rw (e, until-suc c r (index_of slash r)) refl
]
until-index_of (d ∷ seg) [] h = refl
until-index_of (d ∷ seg) (c ∷ r) (n, h) = elim (Bool-cases (c == slash)) [
  | inl e ↦ rw e (ground arith)
  | inr e ↦ rw (e, until-suc c r (index_of slash r)) (ground (arith, until-index_of seg r h))
]

same-append : (p s t : Text) → same (p ++ s) (p ++ t) ≡ same s t
unfolding same
same-append [] s t = refl
same-append (c ∷ p) s t = ground (arith, same-append p s t)

starts_with-append_both : (p s t : Text) → starts_with (p ++ s) (p ++ t) ≡ starts_with s t
unfolding starts_with
starts_with-append_both [] s t = refl
starts_with-append_both (c ∷ p) s t = ground (arith, starts_with-append_both p s t)

begins : (p t path : Text) → path ≡ p ++ t → starts_with path p ≡ true
begins p t path e = rw e (starts_with-append p t)

-- A file is below a place: it is there, or under it.
abbrev pub is_at_or_below : RepoPath → RepoPath → Bool
is_at_or_below place path = same path place || starts_with path (place ++ (slash ∷ []))

not_at_or_below :
    (p seg path : Text) → starts_with path p ≡ false → is_at_or_below (p ++ seg) path ≡ false
not_at_or_below p seg path h = elim (Bool-cases (same path (p ++ seg))) [
  | inl e ↦ let q = begins p seg path (same→eq path (p ++ seg) e) in cc
  | inr e ↦ elim (Bool-cases (starts_with path ((p ++ seg) ++ (slash ∷ [])))) [
    | inl s ↦
        let (r, f) = starts_with→append path ((p ++ seg) ++ (slash ∷ [])) s in
        let q =
          begins p (seg ++ ((slash ∷ []) ++ r)) path
            (f ∙ append_assoc (p ++ seg) (slash ∷ []) r ∙ append_assoc p seg ((slash ∷ []) ++ r)) in
        cc
    | inr s ↦ rw (e, s) refl
  ]
]

abbrev pub is_child : Option RepoPath → RepoPath → Bool
is_child none place = false
is_child (some path) place = same path place

is_at_or_below-append : (p seg r : Text) → is_at_or_below (p ++ seg) (p ++ r) ≡ is_at_or_below seg r
is_at_or_below-append p seg r =
    rw
      (
        same-append p r seg,
        append_assoc p seg (slash ∷ []),
        starts_with-append_both p r (seg ++ (slash ∷ [])),
      )
      refl

nothing_below : (seg : Text) → is_empty seg ≡ false → is_at_or_below seg [] ≡ false
unfolding same starts_with
nothing_below [] filled = cc
nothing_below (c ∷ seg) filled = refl

child_path_under :
    (p r seg : Text)
    → Lacks slash seg
    → is_empty seg ≡ false
    → is_child (child_path p (p ++ r)) (p ++ seg) ≡ is_at_or_below seg r
unfolding child_path
child_path_under p [] seg lacks filled =
    rw (starts_with-append p [], drop-append p [], nothing_below seg filled) refl
child_path_under p (c ∷ r) seg lacks filled =
    rw (starts_with-append p (c ∷ r), drop-append p (c ∷ r))
      (same-append p (until (c ∷ r) (index_of slash (c ∷ r))) seg
        ∙ until-index_of seg (c ∷ r) lacks)

-- A path has the child of a segment exactly if it is below it.
pub child_path_lem :
    (p path seg : Text)
    → Lacks slash seg
    → is_empty seg ≡ false
    → is_child (child_path p path) (p ++ seg) ≡ is_at_or_below (p ++ seg) path
unfolding child_path
child_path_lem p path seg lacks filled = elim (Bool-cases (starts_with path p)) [
  | inr out ↦ rw (out, not_at_or_below p seg path out) refl
  | inl under ↦
      let (r, e) = starts_with→append path p under in
      rw e (child_path_under p r seg lacks filled ∙ sym (is_at_or_below-append p seg r))
]
