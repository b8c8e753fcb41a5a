-- ===== src/TextSafety/Laws.antt =====
-- A text is safe exactly if its parts between separators are.
use skillcdn.Common.{
  ℕ, ◌≡◌, refl, ◌↔◌, true, false, not, List, [], ◌∷◌, ◌++◌, arith, all, any, All, All-append,
  All-append_left, All-append_right,
}
use skillcdn.Text.{Text, join}
use skillcdn.TextSafety.{
  is_high_surrogate, is_low_surrogate, is_surrogate, is_forbidden_code_point, code_points,
  is_well_formed, has_forbidden_code_point,
}

-- The text is well formed and holds no refused code point.
abbrev pub IsSafe : Text → Type 0
IsSafe s = has_forbidden_code_point s ≡ false

-- A code point that is no surrogate and is not refused.
abbrev pub IsSafePoint : ℕ → Type 0
IsSafePoint p = (is_surrogate p ≡ false) × (is_forbidden_code_point p ≡ false)

all_safe :
    (ps : List ℕ)
    → all (λ p. not (is_surrogate p)) ps ≡ true
    → any is_forbidden_code_point ps ≡ false
    → All IsSafePoint ps
all_safe [] h k = tt
all_safe (p ∷ ps) h k = (ground arith, all_safe ps (ground arith) (ground arith))

safe_all :
    (ps : List ℕ)
    → All IsSafePoint ps
    → (all (λ p. not (is_surrogate p)) ps ≡ true) × (any is_forbidden_code_point ps ≡ false)
safe_all [] h = (refl, refl)
safe_all (p ∷ ps) ((h, k), hs) = let (a, b) = safe_all ps hs in (rw (h, a), rw (k, b))

-- `hasForbiddenCodePoint` answers false exactly for the texts all of whose code points are safe.
pub IsSafe-iff : (s : Text) → IsSafe s ↔ All IsSafePoint (code_points s)
unfolding has_forbidden_code_point is_well_formed
IsSafe-iff s = (
  λ h. all_safe (code_points s) (ground arith) (ground arith),
  λ h. let (a, b) = safe_all (code_points s) h in rw (a, b),
)

surrogate_kinds :
    (c : ℕ) → is_surrogate c ≡ false → (is_high_surrogate c ≡ false) × (is_low_surrogate c ≡ false)
unfolding is_surrogate is_high_surrogate is_low_surrogate
surrogate_kinds c h = (ground arith, ground arith)

-- Code points do not reach over a unit that is no surrogate.
pub code_points-append :
    (s : Text) (c : ℕ) (t : Text)
    → is_surrogate c ≡ false
    → code_points (s ++ (c ∷ t)) ≡ code_points s ++ (c ∷ code_points t)
unfolding code_points
code_points-append [] c [] n = refl
code_points-append [] c (d ∷ t) n = ground (arith, surrogate_kinds c n)
code_points-append (a ∷ []) c [] n = ground (arith, surrogate_kinds c n)
code_points-append (a ∷ []) c (d ∷ t) n = ground (arith, surrogate_kinds c n)
code_points-append (a ∷ b ∷ s) c t n =
    ground (arith, code_points-append s c t n, code_points-append (b ∷ s) c t n)

-- Around a safe separator, the whole is safe exactly if both sides are.
pub IsSafe-append :
    (s : Text) (c : ℕ) (t : Text) → IsSafePoint c → IsSafe (s ++ (c ∷ t)) ↔ (IsSafe s × IsSafe t)
IsSafe-append s c t hc = (
  λ h.
      let h' : All IsSafePoint (code_points s ++ (c ∷ code_points t)) =
        rw (code_points-append s c t hc.0) at ((IsSafe-iff _).0 h) in
      (
        (IsSafe-iff s).1 (All-append_left IsSafePoint (code_points s) _ h'),
        (IsSafe-iff t).1 (All-append_right IsSafePoint (code_points s) _ h').1,
      ),
  λ h. (IsSafe-iff _).1 (
      rw (code_points-append s c t hc.0) (
        All-append IsSafePoint (code_points s) _ ((IsSafe-iff s).0 h.0)
          (hc, (IsSafe-iff t).0 h.1))),
)

pub IsSafe-nil : IsSafe []
unfolding has_forbidden_code_point is_well_formed code_points
IsSafe-nil = refl

-- A join at a safe separator is safe exactly if every part is.
pub IsSafe-join : (c : ℕ) → IsSafePoint c → (ps : List Text) → IsSafe (join c ps) ↔ All IsSafe ps
unfolding join
IsSafe-join c hc [] = (λ h. tt, λ h. IsSafe-nil)
IsSafe-join c hc (p ∷ []) = (λ h. (h, tt), λ h. h.0)
IsSafe-join c hc (p ∷ q ∷ ps) = (
  λ h.
      let (hp, hs) = (IsSafe-append p c (join c (q ∷ ps)) hc).0 h in
      (hp, (IsSafe-join c hc (q ∷ ps)).0 hs),
  λ h. (IsSafe-append p c (join c (q ∷ ps)) hc).1 (h.0, (IsSafe-join c hc (q ∷ ps)).1 h.1),
)
