-- ===== src/Address/Segments.antt =====
-- How an encoded text decodes, segment by segment.
use mathlib.Core.Option
use skillcdn.Common.{
  ℕ, ◌≡◌, refl, sym, ap, ◌≢◌, subst, true, List, [], ◌∷◌, ◌++◌, ◌==◌, arith, All, Bool-cases, inl,
  inr, some,
}
use skillcdn.Text.{Text, slash, split, join, onto_first}
use skillcdn.Text.Compare.{same_ne}
use skillcdn.Text.Search.{has_unit_of_Lacks}
use skillcdn.Text.Split.{Lacks, merge, split-append, split-ne-nil, split-join, join-split}
use skillcdn.Result.{ok}
use skillcdn.TextSafety.{is_well_formed, has_forbidden_code_point}
use skillcdn.TextSafety.Laws.{IsSafe, IsSafe-join}
use skillcdn.RepoPath.{dot, dot_dot}
use skillcdn.RepoPath.Segments.{slash-IsSafePoint, IsSegment}
use skillcdn.Percent.{hex_value, decode_uri_component, pieces, assemble}
use skillcdn.Percent.Points.{IsUnits}
use skillcdn.Percent.RoundTrip.{
  Decodes, Decodes-nil, Decodes-append, Decodes-unit, decode_of_Decodes,
}
use skillcdn.Percent.Encode.{encode_well_formed}
use skillcdn.Percent.Replace.{Decodes-replace, replace-Lacks}
use skillcdn.Address.{decode_segment, decode_segments}
use skillcdn.Address.Print.{encode_segment, encode_segments, encode_slash_separated}

abbrev pub All₂ : {A B : Type 0} → (A → B → Type 0) → List A → List B → Type 0
All₂ R [] [] = Unit
All₂ R [] (y ∷ ys) = ⊥
All₂ R (x ∷ xs) [] = ⊥
All₂ R (x ∷ xs) (y ∷ ys) = R x y × All₂ R xs ys

-- The segments of the first text decode to those of the second.
abbrev pub DecodesTo : Text → Text → Type 0
DecodesTo t s = All₂ Decodes (split slash t) (split slash s)

merge-Decodes :
    (ts ss us vs : List Text)
    → All₂ Decodes ts ss
    → All₂ Decodes us vs
    → All₂ Decodes (merge ts us) (merge ss vs)
merge-Decodes [] [] us vs h k = k
merge-Decodes [] (s ∷ ss) us vs h k = absurd h
merge-Decodes (t ∷ ts) [] us vs h k = absurd h
merge-Decodes (t ∷ []) (s ∷ []) [] [] h k = h
merge-Decodes (t ∷ []) (s ∷ []) [] (v ∷ vs) h k = absurd k
merge-Decodes (t ∷ []) (s ∷ []) (u ∷ us) [] h k = absurd k
merge-Decodes (t ∷ []) (s ∷ []) (u ∷ us) (v ∷ vs) (h, _) (k, ks) = (Decodes-append h k, ks)
merge-Decodes (t ∷ []) (s ∷ s' ∷ ss) us vs (h, hs) k = absurd hs
merge-Decodes (t ∷ t' ∷ ts) (s ∷ []) us vs (h, hs) k = absurd hs
merge-Decodes (t ∷ t' ∷ ts) (s ∷ s' ∷ ss) us vs (h, hs) k =
    (h, merge-Decodes (t' ∷ ts) (s' ∷ ss) us vs hs k)

pub DecodesTo-append :
    (t s u v : Text) → DecodesTo t s → DecodesTo u v → DecodesTo (t ++ u) (s ++ v)
DecodesTo-append t s u v h k =
    rw (split-append slash t u, split-append slash s v)
      (merge-Decodes (split slash t) (split slash s) (split slash u) (split slash v) h k)

onto_first-Decodes :
    (c : ℕ) (ts ss : List Text)
    → c ≢ b'%'
    → All₂ Decodes ts ss
    → All₂ Decodes (onto_first c ts) (onto_first c ss)
onto_first-Decodes c [] [] n h = (Decodes-unit c n Decodes-nil, tt)
onto_first-Decodes c [] (s ∷ ss) n h = absurd h
onto_first-Decodes c (t ∷ ts) [] n h = absurd h
onto_first-Decodes c (t ∷ ts) (s ∷ ss) n (h, hs) = (Decodes-unit c n h, hs)

pub DecodesTo-unit : (c : ℕ) (t s : Text) → c ≢ b'%' → DecodesTo t s → DecodesTo (c ∷ t) (c ∷ s)
unfolding split
DecodesTo-unit c t s n h = elim (Bool-cases (c == slash)) [
  | inl e ↦ rw (e, split) (Decodes-nil, h)
  | inr m ↦ rw (m, split) (onto_first-Decodes c (split slash t) (split slash s) n h)
]

pub DecodesTo-nil : DecodesTo [] []
unfolding split
DecodesTo-nil = (Decodes-nil, tt)

pub DecodesTo-plain : (s : Text) → Lacks b'%' s → DecodesTo s s
DecodesTo-plain [] h = DecodesTo-nil
DecodesTo-plain (c ∷ s) (n, h) = DecodesTo-unit c s s n (DecodesTo-plain s h)

-- A well-formed segment is encoded; the result decodes to it and holds no slash.
pub encode_segment-Decodes :
    (s : Text)
    → IsUnits s
    → is_well_formed s ≡ true
    → (t : Text) × (encode_segment s ≡ some t) × Decodes t s × Lacks slash t
unfolding encode_segment hex_value
encode_segment-Decodes s h k =
    let (t, e, d, lacks) = encode_well_formed s h k in
    (
      _,
      ap (Option.map _) e,
      Decodes-replace b'3' b'A' b':' 3 10 refl refl (omega arith) (omega arith) (omega arith) (
          Decodes-replace b'4' b'0' b'@' 4 0 refl refl (omega arith) (omega arith) (omega arith) d),
      replace-Lacks b'3' b'A' b':' slash _ (omega arith)
          (replace-Lacks b'4' b'0' b'@' slash t (omega arith) lacks),
    )

split-All : (P : ℕ → Type 0) (s : Text) → All P s → All (All P) (split slash s)
unfolding split
split-All P [] h = (tt, tt)
split-All P (c ∷ s) (h, hs) = elim (Bool-cases (c == slash)) [
  | inl e ↦ rw (e, split) (tt, split-All P s hs)
  | inr n ↦ rw (n, split) (first (split slash s) (split-All P s hs))
]
  where
    first : (ps : List Text) → All (All P) ps → All (All P) (onto_first c ps)
    first [] k = ((h, tt), tt)
    first (p ∷ ps) (k, ks) = ((h, k), ks)

well_formed_of_safe : (s : Text) → IsSafe s → is_well_formed s ≡ true
unfolding has_forbidden_code_point
well_formed_of_safe s h = ground arith

encode_segments-Decodes :
    (ss : List Text)
    → All IsUnits ss
    → All IsSafe ss
    → (ts : List Text) × (encode_segments ss ≡ some ts) × All₂ Decodes ts ss × All (Lacks slash) ts
unfolding encode_segments
encode_segments-Decodes [] h k = ([], refl, tt, tt)
encode_segments-Decodes (s ∷ ss) (h, hs) (k, ks) =
    let (t, e, d, l) = encode_segment-Decodes s h (well_formed_of_safe s k) in
    let (ts, es, ds, ls) = encode_segments-Decodes ss hs ks in
    (t ∷ ts, rw (e, es, encode_segments) refl, (d, ds), (l, ls))

-- A safe text is encoded segment by segment.
pub encode_slash-DecodesTo :
    (v : Text)
    → IsUnits v
    → IsSafe v
    → (t : Text) × (encode_slash_separated v ≡ some t) × DecodesTo t v
unfolding encode_slash_separated
encode_slash-DecodesTo v h k =
    let parts_safe =
      (IsSafe-join slash slash-IsSafePoint (split slash v)).0 (rw (join-split slash v) k) in
    let (ts, es, ds, ls) = encode_segments-Decodes (split slash v) (split-All _ v h) parts_safe in
    (
      join slash ts,
      ap (Option.map _) es,
      subst (λ us. All₂ Decodes us (split slash v))
          (sym (split-join slash ts (parts_ne ts (split slash v) ds (split-ne-nil slash v)) ls)) ds,
    )
  where
    parts_ne : (ts ss : List Text) → All₂ Decodes ts ss → ss ≢ [] → ts ≢ []
    parts_ne [] [] d n = absurd (n refl)
    parts_ne [] (s ∷ ss) d n = absurd d
    parts_ne (t ∷ ts) ss d n = λ e. cc

Decodes-nil_only : (s : Text) → Decodes [] s → s ≡ []
unfolding decode_uri_component pieces assemble
Decodes-nil_only s d = ground (arith, decode_of_Decodes d)

decode_segment-ok : (t s : Text) → Decodes t s → IsSegment s → decode_segment t ≡ ok s
unfolding decode_segment
decode_segment-ok [] s d h = absurd (h.not_empty (Decodes-nil_only s d))
decode_segment-ok (c ∷ t) s d h = rw (
  decode_of_Decodes d,
  has_unit_of_Lacks slash s h.no_slash,
  has_unit_of_Lacks b'\\' s h.no_backslash,
  h.safe,
  same_ne s dot h.not_dot,
  same_ne s dot_dot h.not_dot_dot,
)

-- The loop over the raw segments gives the decoded ones.
pub decode_segments-ok :
    (ts ss : List Text) → All₂ Decodes ts ss → All IsSegment ss → decode_segments ts ≡ ok ss
unfolding decode_segments
decode_segments-ok [] [] d h = refl
decode_segments-ok [] (s ∷ ss) d h = absurd d
decode_segments-ok (t ∷ ts) [] d h = absurd d
decode_segments-ok (t ∷ ts) (s ∷ ss) (d, ds) (h, hs) =
    rw (decode_segment-ok t s d h, decode_segments-ok ts ss ds hs)

-- Only the empty text is encoded as the empty text.
pub DecodesTo-empty : (v : Text) → DecodesTo [] v → v ≡ []
unfolding split
DecodesTo-empty v d = subst (λ x. x ≡ []) (join-split slash v) (empty (split slash v) d)
  where
    empty : (ss : List Text) → All₂ Decodes ([] ∷ []) ss → join slash ss ≡ []
    empty [] d = absurd d
    empty (s ∷ []) (d, _) = unfold join in Decodes-nil_only s d
    empty (s ∷ s' ∷ ss) (d, ds) = absurd ds
