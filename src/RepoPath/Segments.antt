-- ===== src/RepoPath/Segments.antt =====
-- What a path is made of: segments, described apart from the parser.
use skillcdn.Common.{
  ℕ, ◌≤◌, ◌≡◌, refl, ◌≢◌, ◌↔◌, List, [], ◌∷◌, length, subst, All, All-append, All-append_left,
  All-append_right,
}
use skillcdn.Text.{Text, slash, join, split}
use skillcdn.Text.Split.{Lacks, split-join, split-ne-nil, join-split}
use skillcdn.TextSafety.{is_surrogate, is_forbidden_code_point}
use skillcdn.TextSafety.Laws.{IsSafe, IsSafePoint}
use skillcdn.RepoPath.{dot, dot_dot, max_repo_path_length}

-- A name that a path may hold between two slashes.
pub record IsSegment (s : Text) : Type 0 where
  pub not_empty : s ≢ []
  pub not_dot : s ≢ dot
  pub not_dot_dot : s ≢ dot_dot
  pub no_slash : Lacks slash s
  pub no_backslash : Lacks b'\\' s
  pub safe : IsSafe s

-- The root, or segments joined by single slashes.
pub data IsPath : Text → Type 0 where
  root : IsPath []
  segments : (p : Text) (ps : List Text) → All IsSegment (p ∷ ps) → IsPath (join slash (p ∷ ps))

-- A path within the length that the parser accepts.
abbrev pub IsRepoPath : Text → Type 0
IsRepoPath s = IsPath s × (length s ≤ max_repo_path_length)

no_slash_of : (ps : List Text) → All IsSegment ps → All (Lacks slash) ps
no_slash_of [] h = tt
no_slash_of (p ∷ ps) (h, hs) = (h.no_slash, no_slash_of ps hs)

-- The segments that a path is joined from are those that it splits into.
pub split-join_segments :
    (p : Text) (ps : List Text)
    → All IsSegment (p ∷ ps)
    → split slash (join slash (p ∷ ps)) ≡ p ∷ ps
split-join_segments p ps h = split-join slash (p ∷ ps) (λ e. cc) (no_slash_of (p ∷ ps) h)

pub IsPath→split : {s : Text} → IsPath s → s ≢ [] → All IsSegment (split slash s)
IsPath→split root n = absurd (n refl)
IsPath→split (segments p ps h) n = rw (split-join_segments p ps h) h

pub split→IsPath : (s : Text) → All IsSegment (split slash s) → IsPath s
split→IsPath s h =
    elim (split slash s) as (λ parts. split slash s ≡ parts → IsPath s) [
      | [] ↦ λ e. absurd (split-ne-nil slash s e)
      | p ∷ ps ↦ λ e. subst IsPath (rw (← e) (join-split slash s)) (segments p ps (rw e at h))
    ]
      refl

-- A part that a join of parts avoids.
pub Lacks-join : (c : ℕ) → slash ≢ c → (ps : List Text) → Lacks c (join slash ps) ↔ All (Lacks c) ps
unfolding join
Lacks-join c n [] = (λ h. tt, λ h. tt)
Lacks-join c n (p ∷ []) = (λ h. (h, tt), λ h. h.0)
Lacks-join c n (p ∷ q ∷ ps) = (
  λ h. (All-append_left _ p _ h, (Lacks-join c n (q ∷ ps)).0 (All-append_right _ p _ h).1),
  λ h. All-append _ p _ h.0 (n, (Lacks-join c n (q ∷ ps)).1 h.1),
)

pub slash-IsSafePoint : IsSafePoint slash
unfolding is_surrogate is_forbidden_code_point
slash-IsSafePoint = (refl, refl)
