-- ===== src/Percent/RoundTrip.antt =====
-- Decoding undoes encoding, also after some escapes have been written back as characters.
use mathlib.Core.Option
use skillcdn.Common.{
  ℕ, ◌+◌, ◌*◌, ◌≡◌, refl, sym, ◌≢◌, subst, List, [], ◌∷◌, ◌++◌, some, ◌==◌, ==_iff, All, arith, map,
  append_assoc, Bool-cases, inl, inr, Option-cases,
}
use skillcdn.Text.{Text}
use skillcdn.Percent.{
  utf16, utf8, hex_value, pieces, Piece, unit, byte, Decoding, assemble, between, within,
  read_piece, decode_uri_component, encode_point, encode_points, is_unreserved,
}
use skillcdn.Percent.Points.{
  IsScalar, from_points, pieces-unit, pieces_escape, pieces-percent_bytes, assemble-utf8,
  assemble-one, utf8_bytes, utf16_unit,
}

-- The decoder reads the first text as the second.
pub record Decodes (t s : Text) : Type 0 where
  pub read : List Piece
  pub cut : pieces t ≡ some read
  pub put : assemble between read ≡ some s

pub decode_of_Decodes : {t s : Text} → Decodes t s → decode_uri_component t ≡ some s
unfolding decode_uri_component
decode_of_Decodes d = ground (arith, d.cut, d.put)

pub Decodes-nil : Decodes [] []
unfolding pieces assemble
Decodes-nil = record { read = []; cut = refl; put = refl }

-- How a text is cut into pieces, as a relation.
pub data Cut : Text → List Piece → Type 0 where
  done : Cut [] []
  plain : {c : ℕ} {t : Text} {ps : List Piece} → c ≢ b'%' → Cut t ps → Cut (c ∷ t) (unit c ∷ ps)
  escape :
      {c h l a b v : ℕ} {t : Text} {ps : List Piece}
      → c ≡ b'%'
      → hex_value h ≡ some a
      → hex_value l ≡ some b
      → v ≡ a * 16 + b
      → Cut t ps
      → Cut (c ∷ h ∷ l ∷ t) (byte v ∷ ps)

pub Cut→pieces : {t : Text} {ps : List Piece} → Cut t ps → pieces t ≡ some ps
unfolding pieces
Cut→pieces done = refl
Cut→pieces (plain {c} {t} {ps} n k) = pieces-unit c t ps n (Cut→pieces k)
Cut→pieces (escape {h} {l} {a} {b} {t} {ps} p q r e k) =
    rw (p, e) (pieces_escape h l a b t ps q r (Cut→pieces k))

pub pieces→Cut : (t : Text) (ps : List Piece) → pieces t ≡ some ps → Cut t ps
unfolding pieces
pieces→Cut [] ps h = subst (Cut []) (ground arith) done
pieces→Cut (c ∷ []) ps h =
    let n : c ≢ b'%' = ground arith in
    let e : unit c ∷ [] ≡ ps = ground arith in subst (Cut (c ∷ [])) e (plain n done)
pieces→Cut (c ∷ d ∷ []) ps h = elim (Bool-cases (c == b'%')) [
  | inl percent ↦ cc (rw (percent, pieces) at h)
  | inr other ↦
      let (qs, cut, e) =
        (Option.map-eq-some_iff (λ qs. unit c ∷ qs) _).0 (rw (other, pieces) at h) in
      let n : c ≢ b'%' = ground arith in
      subst (Cut (c ∷ d ∷ [])) e (plain n (pieces→Cut (d ∷ []) qs cut))
]
pieces→Cut (c ∷ d ∷ x ∷ t) ps h = elim (Bool-cases (c == b'%')) [
  | inr other ↦
      let (qs, cut, e) =
        (Option.map-eq-some_iff (λ qs. unit c ∷ qs) _).0 (rw (other, pieces) at h) in
      let n : c ≢ b'%' = ground arith in
      subst (Cut (c ∷ d ∷ x ∷ t)) e (plain n (pieces→Cut (d ∷ x ∷ t) qs cut))
  | inl percent ↦ elim (Option-cases (hex_value d)) [
    | inl bad ↦ cc (rw (percent, bad, pieces) at h)
    | inr (a, high) ↦ elim (Option-cases (hex_value x)) [
      | inl bad ↦ cc (rw (percent, high, bad, pieces) at h)
      | inr (b, low) ↦
          let (qs, cut, e) =
            (Option.map-eq-some_iff (λ qs. byte (a * 16 + b) ∷ qs) _).0
              (rw (percent, high, low, pieces) at h) in
          subst (Cut (c ∷ d ∷ x ∷ t)) e
            (escape ((==_iff c b'%').0 percent) high low refl (pieces→Cut t qs cut))
    ]
  ]
]

Cut-append :
    {t : Text} {ps : List Piece} {u : Text} {qs : List Piece}
    → Cut t ps
    → Cut u qs
    → Cut (t ++ u) (ps ++ qs)
Cut-append done k = k
Cut-append (plain n h) k = plain n (Cut-append h k)
Cut-append (escape p q r e h) k = escape p q r e (Cut-append h k)

pieces-append :
    (t u : Text) (ps qs : List Piece)
    → pieces t ≡ some ps
    → pieces u ≡ some qs
    → pieces (t ++ u) ≡ some (ps ++ qs)
pieces-append t u ps qs h k = Cut→pieces (Cut-append (pieces→Cut t ps h) (pieces→Cut u qs k))

assemble-step :
    (d : Decoding) (p : Piece) (ps : List Piece) (s : Text)
    → assemble d (p ∷ ps) ≡ some s
    → (out : Text) × (next : Decoding) × (rest : Text) × (read_piece d p ≡ some (out, next))
      × (assemble next ps ≡ some rest)
      × (s ≡ out ++ rest)
unfolding assemble
assemble-step between p ps s h = elim (Option-cases (read_piece between p)) [
  | inl bad ↦ cc (rw (bad, assemble) at h)
  | inr ((out, next), good) ↦
      let (rest, e, whole) =
        (Option.map-eq-some_iff (λ rest. out ++ rest) _).0 (rw (good, assemble) at h) in
      (out, next, rest, good, e, sym whole)
]
assemble-step (within left value least) p ps s h =
    elim (Option-cases (read_piece (within left value least) p)) [
      | inl bad ↦ cc (rw (bad, assemble) at h)
      | inr ((out, next), good) ↦
          let (rest, e, whole) =
            (Option.map-eq-some_iff (λ rest. out ++ rest) _).0 (rw (good, assemble) at h) in
          (out, next, rest, good, e, sym whole)
    ]

assemble-nil : (d : Decoding) (s : Text) → assemble d [] ≡ some s → (d ≡ between) × (s ≡ [])
unfolding assemble
assemble-nil between s h = (refl, ground arith)
assemble-nil (within left value least) s h = cc

assemble-append :
    (d : Decoding) (ps qs : List Piece) (s t : Text)
    → assemble d ps ≡ some s
    → assemble between qs ≡ some t
    → assemble d (ps ++ qs) ≡ some (s ++ t)
assemble-append d [] qs s t h k = let (e, f) = assemble-nil d s h in rw (e, f) k
assemble-append d (p ∷ ps) qs s t h k =
    let (out, next, rest, r, e, whole) = assemble-step d p ps s h in
    rw (whole, append_assoc out rest t)
      (assemble-one d next p out (rest ++ t) (ps ++ qs) r (assemble-append next ps qs rest t e k))

pub Decodes-append : {t s u v : Text} → Decodes t s → Decodes u v → Decodes (t ++ u) (s ++ v)
Decodes-append {t} {s} {u} {v} a b = record {
  read = a.read ++ b.read;
  cut = pieces-append t u a.read b.read a.cut b.cut;
  put = assemble-append between a.read b.read s v a.put b.put;
}

-- A unit that is no percent sign is read as it stands.
pub Decodes-unit : {t s : Text} (c : ℕ) → c ≢ b'%' → Decodes t s → Decodes (c ∷ t) (c ∷ s)
unfolding read_piece
Decodes-unit {t} {s} c n d = record {
  read = unit c ∷ d.read;
  cut = pieces-unit c t d.read n d.cut;
  put = assemble-one between between (unit c) (c ∷ []) s d.read refl d.put;
}

-- What is encoded is decoded to what it was.
pub Decodes-point :
    (p : ℕ) {t s : Text} → IsScalar p → Decodes t s → Decodes (encode_point p ++ t) (utf16 p ++ s)
unfolding encode_point is_unreserved
Decodes-point p {t} {s} h d = elim (Bool-cases (is_unreserved p)) [
  | inl kept ↦ rw (kept, utf16_unit p (ground arith)) (Decodes-unit p (ground arith) d)
  | inr escaped ↦ rw escaped (record {
    read = map byte (utf8 p) ++ d.read;
    cut = pieces-percent_bytes (utf8 p) t d.read (utf8_bytes p h.0) d.cut;
    put = assemble-utf8 p d.read s h d.put;
  })
]

pub Decodes-points :
    (ps : List ℕ)
    → All IsScalar ps
    → (t : Text) × (encode_points ps ≡ some t) × Decodes t (from_points ps)
unfolding encode_points from_points
Decodes-points [] h = ([], refl, Decodes-nil)
Decodes-points (p ∷ ps) (h, hs) =
    let (t, e, d) = Decodes-points ps hs in (encode_point p ++ t, rw (e, h.1), Decodes-point p h d)
