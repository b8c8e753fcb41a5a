-- ===== src/Address/Glue.antt =====
-- Segments that stand side by side around a separator that is no slash.
use skillcdn.Common.{ℕ, ◌≡◌, refl, ◌≢◌, List, [], ◌∷◌, ◌++◌, arith, All, All-append}
use skillcdn.Text.{Text, slash, split, onto_first}
use skillcdn.Text.Split.{Lacks, merge, split-append, split_unit, split-ne-nil}
use skillcdn.TextSafety.Laws.{IsSafe, IsSafePoint, IsSafe-append, IsSafe-nil}
use skillcdn.RepoPath.{dot, dot_dot}
use skillcdn.RepoPath.Segments.{IsSegment}

-- A separator that may stand inside a segment.
pub record IsMark (c : ℕ) : Type 0 where
  pub no_slash : c ≢ slash
  pub no_backslash : c ≢ b'\\'
  pub no_dot : c ≢ b'.'
  pub safe : IsSafePoint c

-- What may follow a mark within a segment.
pub record IsRest (s : Text) : Type 0 where
  pub no_slash : Lacks slash s
  pub no_backslash : Lacks b'\\' s
  pub safe : IsSafe s

-- The parts of a text behind a mark: the first may be empty or a `.`.
abbrev pub IsTail : List Text → Type 0
IsTail [] = Unit
IsTail (p ∷ ps) = IsRest p × All IsSegment ps

nil-IsRest : IsRest []
nil-IsRest = record { no_slash = tt; no_backslash = tt; safe = IsSafe-nil }

pub nil-IsTail : IsTail (split slash [])
unfolding split
nil-IsTail = (nil-IsRest, tt)

pub segments-IsTail : (ps : List Text) → All IsSegment ps → IsTail ps
segments-IsTail [] h = tt
segments-IsTail (p ∷ ps) (h, hs) =
    (record { no_slash = h.no_slash; no_backslash = h.no_backslash; safe = h.safe }, hs)

module _ (c : ℕ) (mark : IsMark c) where
  glue_ne : (p r : Text) → p ≢ [] → ((p ++ (c ∷ r)) ≢ dot) × ((p ++ (c ∷ r)) ≢ dot_dot)
  glue_ne [] r n = absurd (n refl)
  glue_ne (x ∷ []) r n = (λ e. ground arith, λ e. let q : c ≡ b'.' = ground arith in mark.no_dot q)
  glue_ne (x ∷ y ∷ []) r n = (λ e. ground arith, λ e. ground arith)
  glue_ne (x ∷ y ∷ z ∷ p) r n = (λ e. ground arith, λ e. ground arith)

  glue-IsSegment : (p r : Text) → IsSegment p → IsRest r → IsSegment (p ++ (c ∷ r))
  glue-IsSegment p r h k =
      let (n, m) = glue_ne p r h.not_empty in
      record {
        not_empty = not_nil p;
        not_dot = n;
        not_dot_dot = m;
        no_slash = All-append _ p _ h.no_slash (mark.no_slash, k.no_slash);
        no_backslash = All-append _ p _ h.no_backslash (mark.no_backslash, k.no_backslash);
        safe = (IsSafe-append p c r mark.safe).1 (h.safe, k.safe);
      }
    where
      not_nil : (p : Text) → (p ++ (c ∷ r)) ≢ []
      not_nil [] = λ e. cc
      not_nil (x ∷ p) = λ e. cc

  merge-segments :
      (ps ts : List Text)
      → All IsSegment ps
      → ps ≢ []
      → IsTail ts
      → All IsSegment (merge ps (onto_first c ts))
  merge-segments [] ts h n k = absurd (n refl)
  merge-segments (p ∷ []) [] (h, _) n k = (glue-IsSegment p [] h nil-IsRest, tt)
  merge-segments (p ∷ []) (t ∷ ts) (h, _) n (k, ks) = (glue-IsSegment p t h k, ks)
  merge-segments (p ∷ q ∷ ps) ts (h, hs) n k = (h, merge-segments (q ∷ ps) ts hs (λ e. cc) k)

  -- Two texts of segments around a mark are a text of segments.
  pub glue-segments :
      (s t : Text)
      → All IsSegment (split slash s)
      → IsTail (split slash t)
      → All IsSegment (split slash (s ++ (c ∷ t)))
  glue-segments s t h k =
      rw (split-append slash s (c ∷ t), split_unit slash c t mark.no_slash)
        (merge-segments (split slash s) (split slash t) h (split-ne-nil slash s) k)
