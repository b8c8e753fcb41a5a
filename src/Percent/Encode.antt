-- ===== src/Percent/Encode.antt =====
-- `encodeURIComponent` on a well-formed text.
use skillcdn.Common.{
  ℕ, ◌/◌, ◌%◌, ◌≤◌, ◌<◌, ◌≡◌, ◌≢◌, subst, true, ◌&&◌, not, List, [], ◌∷◌, ◌++◌, some, all, All,
  All-append, arith, Bool-cases, inl, inr, some,
}
use skillcdn.Text.{Text, slash}
use skillcdn.Text.Split.{Lacks}
use skillcdn.TextSafety.{
  code_points, is_surrogate, is_high_surrogate, is_low_surrogate, pair_point, is_well_formed,
}
use skillcdn.Percent.{
  utf8, hex_digit, percent_bytes, encode_point, encode_points, encode_uri_component, is_unreserved,
}
use skillcdn.Percent.Points.{IsUnits, IsScalar, utf8_bytes, from_points-code_points}
use skillcdn.Percent.RoundTrip.{Decodes, Decodes-points}

pair_point-le :
    (c d : ℕ) → (is_high_surrogate c && is_low_surrogate d) ≡ true → pair_point c d ≤ 0x10ffff
unfolding pair_point is_high_surrogate is_low_surrogate
pair_point-le c d h = ground arith

code_points-le : (s : Text) → IsUnits s → All (λ p. p ≤ 0x10ffff) (code_points s)
unfolding code_points
code_points-le [] h = tt
code_points-le (c ∷ []) (h, _) = (omega arith, tt)
code_points-le (c ∷ d ∷ s) (h, (k, hs)) =
    elim (Bool-cases (is_high_surrogate c && is_low_surrogate d)) [
      | inl pair ↦ rw (pair, code_points) (pair_point-le c d pair, code_points-le s hs)
      | inr single ↦ rw (single, code_points) (omega arith, code_points-le (d ∷ s) (k, hs))
    ]

both-IsScalar :
    (ps : List ℕ)
    → All (λ p. p ≤ 0x10ffff) ps
    → all (λ p. not (is_surrogate p)) ps ≡ true
    → All IsScalar ps
both-IsScalar [] h k = tt
both-IsScalar (p ∷ ps) (h, hs) k = ((h, ground arith), both-IsScalar ps hs (ground arith))

code_points-IsScalar :
    (s : Text) → IsUnits s → is_well_formed s ≡ true → All IsScalar (code_points s)
unfolding is_well_formed
code_points-IsScalar s h k = both-IsScalar (code_points s) (code_points-le s h) k

hex_ne_slash : (n : ℕ) → n < 16 → hex_digit n ≢ slash
unfolding hex_digit
hex_ne_slash n h = ground arith

percent_bytes-Lacks : (bs : List ℕ) → All (λ b. b < 256) bs → Lacks slash (percent_bytes bs)
unfolding percent_bytes
percent_bytes-Lacks [] h = tt
percent_bytes-Lacks (b ∷ bs) (h, hs) = (
  omega arith,
  (
    hex_ne_slash (b / 16) (omega arith),
    (hex_ne_slash (b % 16) (omega arith), percent_bytes-Lacks bs hs),
  ),
)

encode_point-Lacks : (p : ℕ) → p ≤ 0x10ffff → Lacks slash (encode_point p)
unfolding encode_point is_unreserved
encode_point-Lacks p h = elim (Bool-cases (is_unreserved p)) [
  | inl kept ↦ rw kept (ground arith, tt)
  | inr escaped ↦ rw escaped (percent_bytes-Lacks (utf8 p) (utf8_bytes p h))
]

encode_points-Lacks :
    (ps : List ℕ) (t : Text) → All IsScalar ps → encode_points ps ≡ some t → Lacks slash t
unfolding encode_points
encode_points-Lacks [] t h e = let x : [] ≡ t = ground arith in rw (← x) tt
encode_points-Lacks (p ∷ ps) t (h, hs) e =
    let (rest, er, d) = Decodes-points ps hs in
    let x : encode_point p ++ rest ≡ t = ground (arith, er, h.1) in
    rw (← x) (
      All-append _ (encode_point p) rest (encode_point-Lacks p h.0)
        (encode_points-Lacks ps rest hs er))

-- A well-formed text is encoded; the result holds no slash and is decoded to the text again.
pub encode_well_formed :
    (s : Text)
    → IsUnits s
    → is_well_formed s ≡ true
    → (t : Text) × (encode_uri_component s ≡ some t) × Decodes t s × Lacks slash t
unfolding encode_uri_component
encode_well_formed s h k =
    let scalar = code_points-IsScalar s h k in
    let (t, e, d) = Decodes-points (code_points s) scalar in
    (t, e, subst (Decodes t) (from_points-code_points s h) d, encode_points-Lacks _ t scalar e)
