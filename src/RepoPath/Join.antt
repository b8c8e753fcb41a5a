-- ===== src/RepoPath/Join.antt =====
-- `joinRepoPath` and `relativeRepoPath` undo one another, and what a join is.
use skillcdn.Common.{
  ℕ, ◌+◌, ◌≤◌, ◌≡◌, refl, sym, ap, ◌≢◌, ◌↔◌, inl, inr, [], ◌∷◌, ◌++◌, arith, if◌then◌else◌, length,
  is_empty, All, All-append, All-append_right, Bool-cases, some, drop, append_assoc, length-append,
  drop-append, subst,
}
use skillcdn.Text.{Text, slash, split}
use skillcdn.Text.Split.{split-append_sep}
use skillcdn.Result.{ok}
use skillcdn.RepoPath.{
  RepoPath, max_repo_path_length, parse_repo_path, is_within_repo_path, relative_repo_path,
  join_repo_path,
}
use skillcdn.RepoPath.Parse.{parse_repo_path_iff}
use skillcdn.RepoPath.Within.{Under, under_root, itself, beneath, is_within→Under, Under→is_within}
use skillcdn.RepoPath.Segments.{IsSegment, IsPath, IsRepoPath, IsPath→split, split→IsPath}

drop-past : (a : Text) (c : ℕ) (r : Text) → drop (length a + 1) (a ++ (c ∷ r)) ≡ r
drop-past a c r =
    let e : length a + 1 ≡ length (a ++ (c ∷ [])) = omega (arith, length-append a (c ∷ [])) in
    rw (e, ← append_assoc a (c ∷ []) r) (drop-append (a ++ (c ∷ [])) r)

drop_all : (a : Text) → drop (length a + 1) a ≡ []
drop_all [] = ground arith
drop_all (c ∷ a) = ground (arith, drop_all a)

-- A join lies within its base.
pub join-Under : (a b : RepoPath) → Under a (join_repo_path a b)
unfolding join_repo_path
join-Under [] b = under_root refl
join-Under (c ∷ a) [] = itself refl
join-Under (c ∷ a) (d ∷ b) = beneath (d ∷ b) refl

-- What was joined to a base is what lies below the base.
pub relative-join : (a b : RepoPath) → relative_repo_path a (join_repo_path a b) ≡ some b
unfolding relative_repo_path
relative-join a b = rw (Under→is_within a _ (join-Under a b)) (below a b)
  where
    below :
        (a b : RepoPath)
        → (if is_empty a
            then some (join_repo_path a b)
            else some (drop (length a + 1) (join_repo_path a b)))
          ≡ some b
    below [] b = unfold join_repo_path in refl
    below (c ∷ a) [] = unfold join_repo_path in ap some (drop_all (c ∷ a))
    below (c ∷ a) (d ∷ b) = unfold join_repo_path in ap some (drop-past (c ∷ a) slash (d ∷ b))

append_slash-ne-nil : (a : Text) → a ++ (slash ∷ []) ≢ []
append_slash-ne-nil [] e = cc
append_slash-ne-nil (c ∷ a) e = cc

-- A path does not end in a slash.
append_slash : (a : Text) → ¬ (IsPath (a ++ (slash ∷ [])))
unfolding split
append_slash a path =
    let parts : All IsSegment (split slash a ++ split slash []) =
      rw (split-append_sep slash a []) at (IsPath→split path (append_slash-ne-nil a)) in
    (All-append_right IsSegment (split slash a) _ parts).0.not_empty refl

below_base :
    (a b r : RepoPath)
    → Under a b
    → (if is_empty a then some b else some (drop (length a + 1) b)) ≡ some r
    → IsPath b
    → join_repo_path a r ≡ b
unfolding join_repo_path
below_base [] b r w h path = cc
below_base (c ∷ a) b r (under_root e) h path = cc
below_base (c ∷ a) b r (itself e) h path =
    let same_place : r ≡ [] = cc (h, e, drop_all (c ∷ a)) in rw same_place (sym e)
below_base (c ∷ a) b r (beneath [] e) h path = absurd (append_slash (c ∷ a) (subst IsPath e path))
below_base (c ∷ a) b r (beneath (d ∷ u) e) h path =
    let rest : r ≡ d ∷ u = cc (h, e, drop-past (c ∷ a) slash (d ∷ u)) in rw rest (sym e)

-- The part below a base, joined to the base, is the path again.
join-relative :
    (a b r : RepoPath) → IsPath b → relative_repo_path a b ≡ some r → join_repo_path a r ≡ b
unfolding relative_repo_path
join-relative a b r path h = elim (Bool-cases (is_within_repo_path a b)) [
  | inr out ↦ cc (rw out at h)
  | inl inside ↦ below_base a b r (is_within→Under a b inside) (rw inside at h) path
]

-- A join of two paths is a path again, whatever its length.
pub join-IsPath : (a b : RepoPath) → IsPath a → IsPath b → IsPath (join_repo_path a b)
unfolding join_repo_path
join-IsPath [] b ha hb = hb
join-IsPath (c ∷ a) [] ha hb = ha
join-IsPath (c ∷ a) (d ∷ b) ha hb = split→IsPath _ (
    rw (split-append_sep slash (c ∷ a) (d ∷ b)) (
      All-append IsSegment (split slash (c ∷ a)) _ (IsPath→split ha (λ e. cc))
        (IsPath→split hb (λ e. cc))))

pub length-join :
    (a b : RepoPath) → a ≢ [] → b ≢ [] → length (join_repo_path a b) ≡ length a + length b + 1
unfolding join_repo_path
length-join [] b na nb = absurd (na refl)
length-join (c ∷ a) [] na nb = absurd (nb refl)
length-join (c ∷ a) (d ∷ b) na nb = omega (arith, length-append (c ∷ a) (slash ∷ d ∷ b))

-- A join of two accepted paths that are not the root is accepted exactly if it is within the limit.
pub parse-join_iff :
    (a b : RepoPath)
    → IsRepoPath a
    → IsRepoPath b
    → a ≢ []
    → b ≢ []
    → (parse_repo_path (join_repo_path a b) ≡ ok (join_repo_path a b))
      ↔ (length a + length b + 1 ≤ max_repo_path_length)
parse-join_iff a b ha hb na nb = (
  λ h. omega (arith, ((parse_repo_path_iff _ _).0 h).1.1, length-join a b na nb),
  λ h.
      (parse_repo_path_iff _ _).1
        (refl, (join-IsPath a b ha.0 hb.0, omega (arith, length-join a b na nb))),
)
