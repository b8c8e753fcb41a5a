-- ===== src/GitRef/Laws.antt =====
-- The name of a ref is a path of components; a commit hash is one of its own.
use skillcdn.Common.{
  ℕ, ◌≡◌, refl, ◌≢◌, subst, Bool, true, false, List, [], ◌∷◌, arith, all, any, All,
}
use skillcdn.Text.{Text, slash, split, starts_with}
use skillcdn.Text.Split.{Lacks, split-Lacks, join-split}
use skillcdn.TextSafety.Laws.{IsSafe, IsSafe-join}
use skillcdn.RepoPath.{dot, dot_dot}
use skillcdn.RepoPath.Segments.{IsSegment, IsPath, split→IsPath, Lacks-join, slash-IsSafePoint}
use skillcdn.GitRef.{is_ref_forbidden, is_valid_component, is_valid_ref_name}

pub any-false-Lacks : (p : ℕ → Bool) (c : ℕ) → p c ≡ true → (s : Text) → any p s ≡ false → Lacks c s
any-false-Lacks p c h [] k = tt
any-false-Lacks p c h (d ∷ s) k =
    (λ e. cc (subst (λ x. p x ≡ false) e (ground arith), h), any-false-Lacks p c h s (ground arith))

-- What the tests of `isValidRefName` say of a name that they let pass.
pub ref_name_passes :
    (s : Text)
    → is_valid_ref_name s ≡ true
    → (s ≢ [])
      × IsSafe s
      × (any is_ref_forbidden s ≡ false)
      × (all is_valid_component (split slash s) ≡ true)
unfolding is_valid_ref_name
ref_name_passes [] h = cc
ref_name_passes (c ∷ s) h = (λ e. cc, ground arith, ground arith, ground arith)

component_names : (s : Text) → is_valid_component s ≡ true → (s ≢ []) × (s ≢ dot) × (s ≢ dot_dot)
unfolding is_valid_component starts_with
component_names [] h = cc
component_names (c ∷ []) h = ground arith
component_names (c ∷ d ∷ s) h = ground arith

gather :
    (ps : List Text)
    → all is_valid_component ps ≡ true
    → All (Lacks slash) ps
    → All (Lacks b'\\') ps
    → All IsSafe ps
    → All IsSegment ps
gather [] _ _ _ _ = tt
gather (p ∷ ps) a (b, bs) (c, cs) (d, ds) =
    let (n, m, o) = component_names p (ground arith) in
    (
      record {
        not_empty = n;
        not_dot = m;
        not_dot_dot = o;
        no_slash = b;
        no_backslash = c;
        safe = d;
      },
      gather ps (ground arith) bs cs ds,
    )

-- A valid name of a ref is a path, and has no colon.
pub ref_name-IsPath :
    (s : Text) → is_valid_ref_name s ≡ true → (s ≢ []) × IsPath s × IsSafe s × Lacks b':' s
unfolding is_ref_forbidden
ref_name-IsPath s h =
    let (n, safe, clean, components) = ref_name_passes s h in
    let backslash = any-false-Lacks is_ref_forbidden b'\\' refl s clean in
    let parts_backslash =
      (Lacks-join b'\\' (omega arith) (split slash s)).0 (rw (join-split slash s) backslash) in
    let parts_safe =
      (IsSafe-join slash slash-IsSafePoint (split slash s)).0 (rw (join-split slash s) safe) in
    (
      n,
      split→IsPath s
          (gather (split slash s) components (split-Lacks slash s) parts_backslash parts_safe),
      safe,
      any-false-Lacks is_ref_forbidden b':' refl s clean,
    )
