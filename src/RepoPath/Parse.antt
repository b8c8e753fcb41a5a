-- ===== src/RepoPath/Parse.antt =====
-- `parseRepoPath` accepts exactly the paths that the grammar describes.
use skillcdn.Common.{
  ℕ, ◌≤◌, ◌≡◌, refl, ◌≢◌, ◌↔◌, inl, inr, false, List, [], ◌∷◌, arith, length, All, ◌==◌, Bool-cases,
}
use skillcdn.Text.{Text, slash, split, has_unit, starts_with}
use skillcdn.Text.Compare.{same_iff}
use skillcdn.Text.Search.{has_unit-false, has_unit_of_Lacks}
use skillcdn.Text.Split.{Lacks, split-Lacks, join-split}
use skillcdn.Result.{ok}
use skillcdn.TextSafety.Laws.{IsSafe, IsSafe-join}
use skillcdn.RepoPath.{
  RepoPath, dot, dot_dot, max_repo_path_length, check_segments, parse_repo_path,
}
use skillcdn.RepoPath.Segments.{
  IsSegment, root, IsRepoPath, IsPath→split, split→IsPath, Lacks-join, slash-IsSafePoint,
}

abbrev IsPlain : Text → Type 0
IsPlain s = (s ≢ []) × (s ≢ dot) × (s ≢ dot_dot)

check_segments-ok :
    (input : Text) (ps : List Text) (r : RepoPath)
    → check_segments input ps ≡ ok r
    → (r ≡ input) × All IsPlain ps
unfolding check_segments
check_segments-ok input [] r h = (ground arith, tt)
check_segments-ok input ([] ∷ ps) r h = cc
check_segments-ok input ((c ∷ p) ∷ ps) r h =
    ground (arith, check_segments-ok input ps r, same_iff (c ∷ p) dot, same_iff (c ∷ p) dot_dot)

check_segments_of_plain :
    (input : Text) (ps : List Text) → All IsPlain ps → check_segments input ps ≡ ok input
unfolding check_segments
check_segments_of_plain input [] h = refl
check_segments_of_plain input ([] ∷ ps) (p, h) = absurd (p.0 refl)
check_segments_of_plain input ((c ∷ p) ∷ ps) (q, h) =
    ground
      (arith, check_segments_of_plain input ps h, same_iff (c ∷ p) dot, same_iff (c ∷ p) dot_dot)

gather :
    (ps : List Text)
    → All IsPlain ps
    → All (Lacks slash) ps
    → All (Lacks b'\\') ps
    → All IsSafe ps
    → All IsSegment ps
gather [] _ _ _ _ = tt
gather (p ∷ ps) (a, as_) (b, bs) (c, cs) (d, ds) = (
  record {
    not_empty = a.0;
    not_dot = a.1;
    not_dot_dot = a.2;
    no_slash = b;
    no_backslash = c;
    safe = d;
  },
  gather ps as_ bs cs ds,
)

not_special_of : (ps : List Text) → All IsSegment ps → All IsPlain ps
not_special_of [] h = tt
not_special_of (p ∷ ps) (h, hs) = ((h.not_empty, h.not_dot, h.not_dot_dot), not_special_of ps hs)

backslash_of : (ps : List Text) → All IsSegment ps → All (Lacks b'\\') ps
backslash_of [] h = tt
backslash_of (p ∷ ps) (h, hs) = (h.no_backslash, backslash_of ps hs)

clean_of : (ps : List Text) → All IsSegment ps → All IsSafe ps
clean_of [] h = tt
clean_of (p ∷ ps) (h, hs) = (h.safe, clean_of ps hs)

-- A text without a backslash or a refused code point splits into such parts, and conversely.
split_clean :
    (s : Text)
    → (Lacks b'\\' s × IsSafe s) ↔ (All (Lacks b'\\') (split slash s) × All IsSafe (split slash s))
split_clean s =
    let lacks = Lacks-join b'\\' (omega arith) (split slash s) in
    let safe = IsSafe-join slash slash-IsSafePoint (split slash s) in
    (
      λ h. (lacks.0 (rw (join-split slash s) h.0), safe.0 (rw (join-split slash s) h.1)),
      λ h. (rw (join-split slash s) at (lacks.1 h.0), rw (join-split slash s) at (safe.1 h.1)),
    )

-- The tests before the loop, passed, leave the loop.
parse_passes :
    (c : ℕ) (s : Text) (p : RepoPath)
    → parse_repo_path (c ∷ s) ≡ ok p
    → (length (c ∷ s) ≤ max_repo_path_length)
      × (has_unit b'\\' (c ∷ s) ≡ false)
      × IsSafe (c ∷ s)
      × (check_segments (c ∷ s) (split slash (c ∷ s)) ≡ ok p)
unfolding parse_repo_path
parse_passes c s p h = (ground arith, ground arith, ground arith, ground arith)

parse_sound : (s : Text) (p : RepoPath) → parse_repo_path s ≡ ok p → (p ≡ s) × IsRepoPath s
unfolding parse_repo_path
parse_sound [] p h = (ground arith, (root, omega arith))
parse_sound (c ∷ s) p h =
    let (fits, no_backslash, safe, checked) = parse_passes c s p h in
    let (same_text, plain) = check_segments-ok (c ∷ s) (split slash (c ∷ s)) p checked in
    let (backslash, clean) = (split_clean (c ∷ s)).0 (has_unit-false b'\\' _ no_backslash, safe) in
    (
      same_text,
      (split→IsPath (c ∷ s) (gather _ plain (split-Lacks slash (c ∷ s)) backslash clean), fits),
    )

-- A path does not start with a slash.
pub not_absolute : (c : ℕ) (s : Text) → All IsSegment (split slash (c ∷ s)) → (c == slash) ≡ false
unfolding split
not_absolute c s h = elim (Bool-cases (c == slash)) [
  | inl e ↦ absurd ((rw e at h).0.not_empty refl)
  | inr n ↦ n
]

parse_complete : (s : Text) → IsRepoPath s → parse_repo_path s ≡ ok s
unfolding parse_repo_path starts_with
parse_complete [] h = refl
parse_complete (c ∷ s) (path, fits) =
    let parts = IsPath→split path (λ e. cc) in
    let (no_backslash, safe) = (split_clean (c ∷ s)).1 (backslash_of _ parts, clean_of _ parts) in
    ground (
      arith,
      not_absolute c s parts,
      has_unit_of_Lacks b'\\' (c ∷ s) no_backslash,
      safe,
      check_segments_of_plain (c ∷ s) (split slash (c ∷ s)) (not_special_of _ parts),
    )

-- The parser accepts exactly the texts that the grammar describes and that are no longer than the
-- limit, and it gives each of them back as it was written.
pub parse_repo_path_iff :
    (s : Text) (p : RepoPath) → (parse_repo_path s ≡ ok p) ↔ ((p ≡ s) × IsRepoPath s)
parse_repo_path_iff s p = (parse_sound s p, λ h. rw h.0 (parse_complete s h.1))
