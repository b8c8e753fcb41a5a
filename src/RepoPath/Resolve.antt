-- ===== src/RepoPath/Resolve.antt =====
-- `resolveRepoPath`: where a link destination leads.
use mathlib.Core.List.{reverse, reverse_aux, reverse_aux-eq, reverse-reverse, reverse-append}
use skillcdn.Common.{
  ℕ, zero, suc, ◌<◌, ◌≡◌, refl, sym, ◌∙◌, ◌≢◌, ◌↔◌, Bool, true, false, List, [], ◌∷◌, ◌++◌, arith,
  if◌then◌else◌, length, All, Option, none, some, is_empty,
}
use skillcdn.Text.{Text, slash, same, split, starts_with}
use skillcdn.Text.Compare.{same_iff}
use skillcdn.Text.Split.{join-split, split-append_sep}
use skillcdn.Result.{Result, ok, err}
use skillcdn.RepoPath.{
  RepoPath, RepoPathError, dot, dot_dot, max_repo_path_length, join_repo_path, resolve_segments,
  resolve_repo_path, value_of, without_leading_slash, start_segments, finish_resolve,
}
use skillcdn.RepoPath.Parse.{parse_repo_path_iff, not_absolute}
use skillcdn.RepoPath.Segments.{IsSegment, IsPath, IsRepoPath, IsPath→split}

-- The walk by depth alone: how many segments are open, and whether a `..` meets none.
abbrev pub leaves : ℕ → List Text → Bool
leaves depth [] = false
leaves depth (segment ∷ rest) = elim (same segment dot) [
  | true ↦ leaves depth rest
  | false ↦ elim (same segment dot_dot) [
    | true ↦ elim depth [ zero ↦ true | suc above ↦ leaves above rest ]
    | false ↦ leaves (suc depth) rest
  ]
]

-- A segment that is neither `.` nor `..`.
abbrev pub IsName : Text → Type 0
IsName s = (s ≢ dot) × (s ≢ dot_dot)

resolve_segments_iff :
    (ds segs : List Text) → (resolve_segments ds segs ≡ none) ↔ (leaves (length ds) segs ≡ true)
unfolding resolve_segments
resolve_segments_iff ds [] = ground arith
resolve_segments_iff [] (s ∷ segs) =
    ground (arith, resolve_segments_iff [] segs, resolve_segments_iff (s ∷ []) segs)
resolve_segments_iff (d ∷ ds) (s ∷ segs) = ground (
  arith,
  resolve_segments_iff (d ∷ ds) segs,
  resolve_segments_iff ds segs,
  resolve_segments_iff (s ∷ d ∷ ds) segs,
)

-- Names are walked down one after another.
resolve_names :
    (ds segs : List Text) → All IsName segs → resolve_segments ds segs ≡ some (reverse_aux segs ds)
unfolding resolve_segments
resolve_names ds [] h = refl
resolve_names ds (s ∷ segs) ((n, m), h) =
    ground (arith, same_iff s dot, same_iff s dot_dot, resolve_names (s ∷ ds) segs h)

names_of : (ps : List Text) → All IsSegment ps → All IsName ps
names_of [] h = tt
names_of (p ∷ ps) (h, hs) = ((h.not_dot, h.not_dot_dot), names_of ps hs)

reverse-walk : (segs ds : List Text) → reverse (reverse_aux segs (reverse ds)) ≡ ds ++ segs
reverse-walk segs ds =
    rw (reverse_aux-eq segs (reverse ds), reverse-append (reverse segs) (reverse ds))
      (simp reverse-reverse)

value_of-some : (r : Result RepoPath RepoPathError) (p : RepoPath) → value_of r ≡ some p → r ≡ ok p
value_of-some (ok q) p h = cc
value_of-some (err e) p h = cc

finish-IsRepoPath :
    (o : Option (List Text)) (p : RepoPath) → finish_resolve o ≡ some p → IsRepoPath p
unfolding finish_resolve
finish-IsRepoPath none p h = cc
finish-IsRepoPath (some ds) p h =
    let (e, valid) = (parse_repo_path_iff _ p).0 (value_of-some _ p h) in rw e valid

-- Whatever the directory and the destination say, what is resolved is a path of the repository.
pub resolve-IsRepoPath :
    (directory : RepoPath) (destination : Text) (p : RepoPath)
    → resolve_repo_path directory destination ≡ some p
    → IsRepoPath p
unfolding resolve_repo_path
resolve-IsRepoPath directory destination p h =
    finish-IsRepoPath
      (resolve_segments (start_segments directory destination)
        (split slash (without_leading_slash destination)))
      p (ground arith)

-- A destination resolves to nothing if its walk meets a `..` with no segment left to leave.
resolve_of_leaves :
    (directory : RepoPath) (destination : Text)
    → leaves
        (length (start_segments directory destination))
        (split slash (without_leading_slash destination))
      ≡ true
    → resolve_repo_path directory destination ≡ none
unfolding resolve_repo_path
resolve_of_leaves directory destination h = ground (
  arith,
  resolve_segments_iff (start_segments directory destination)
      (split slash (without_leading_slash destination)),
)

finish_of_path :
    (p : RepoPath) (segs : List Text)
    → IsRepoPath p
    → reverse segs ≡ split slash p
    → finish_resolve (some segs) ≡ some p
unfolding finish_resolve
finish_of_path p segs h e = rw (e, join-split slash p, (parse_repo_path_iff p p).1 (refl, h))

without_slash_of_path : (p : RepoPath) → IsPath p → without_leading_slash p ≡ p
unfolding without_leading_slash
without_slash_of_path [] h = refl
without_slash_of_path (c ∷ p) h = rw (not_absolute c p (IsPath→split h (λ e. cc)))

start_of_path :
    (c : ℕ) (d r : RepoPath)
    → IsPath (c ∷ r)
    → start_segments d (c ∷ r) ≡ (if is_empty d then [] else reverse (split slash d))
unfolding start_segments starts_with
start_of_path c d r h = ground (arith, not_absolute c r (IsPath→split h (λ e. cc)))

-- The walk of a valid path, from segments already open.
walk_from :
    (ds : List Text) (r p : RepoPath)
    → IsPath r
    → r ≢ []
    → IsRepoPath p
    → split slash p ≡ ds ++ split slash r
    → finish_resolve (resolve_segments (reverse ds) (split slash r)) ≡ some p
walk_from ds r p h n hp e =
    rw (resolve_names (reverse ds) (split slash r) (names_of _ (IsPath→split h n)))
      (finish_of_path p _ hp (reverse-walk (split slash r) ds ∙ sym e))

walk_of_path :
    (d r : RepoPath)
    → IsPath r
    → r ≢ []
    → IsRepoPath (join_repo_path d r)
    → finish_resolve (resolve_segments (start_segments d r) (split slash (without_leading_slash r)))
      ≡ some (join_repo_path d r)
unfolding join_repo_path
walk_of_path d [] h n hj = absurd (n refl)
walk_of_path [] (x ∷ r) h n hj =
    rw (start_of_path x [] r h, without_slash_of_path (x ∷ r) h)
      (walk_from [] (x ∷ r) (x ∷ r) h n hj refl)
walk_of_path (c ∷ d) (x ∷ r) h n hj =
    rw (start_of_path x (c ∷ d) r h, without_slash_of_path (x ∷ r) h)
      (walk_from (split slash (c ∷ d)) (x ∷ r) _ h n hj (split-append_sep slash (c ∷ d) (x ∷ r)))

walk_from_root :
    (d p : RepoPath)
    → IsRepoPath p
    → p ≢ []
    → finish_resolve (
        resolve_segments
          (start_segments d (slash ∷ p))
          (split slash (without_leading_slash (slash ∷ p))))
      ≡ some p
unfolding start_segments without_leading_slash starts_with
walk_from_root d [] h n = absurd (n refl)
walk_from_root d (c ∷ p) h n = walk_from [] (c ∷ p) (c ∷ p) h.0 n h refl

-- A valid path that is not the root, read from a directory with which its join is a valid path too,
-- resolves to the join of the two.
pub resolve-join :
    (directory relative : RepoPath)
    → IsRepoPath relative
    → relative ≢ []
    → IsRepoPath (join_repo_path directory relative)
    → resolve_repo_path directory relative ≡ some (join_repo_path directory relative)
unfolding resolve_repo_path
resolve-join directory [] hr n hj = absurd (n refl)
resolve-join directory (c ∷ r) hr n hj =
    ground (arith, walk_of_path directory (c ∷ r) hr.0 n hj, hr.1)

-- Behind a slash the directory does not count: a valid path resolves to itself.
pub resolve_from_root :
    (directory p : RepoPath)
    → IsRepoPath p
    → p ≢ []
    → length p < max_repo_path_length
    → resolve_repo_path directory (slash ∷ p) ≡ some p
unfolding resolve_repo_path
resolve_from_root directory p h n fits = ground (arith, walk_from_root directory p h n)
