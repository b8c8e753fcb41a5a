-- ===== src/Percent/Points.antt =====
-- A text and its code points, and what UTF-8 keeps of one code point.
use skillcdn.Common.{
  ℕ, suc, ◌+◌, ◌-◌, ◌*◌, ◌/◌, ◌%◌, ◌≤◌, ◌<◌, ◌≡◌, refl, ap, ◌∙◌, ◌≢◌, true, false, ◌&&◌, List, [],
  ◌∷◌, ◌++◌, some, All, arith, map,
}
use native.Mathlib.Decide.{dec_lt}
use skillcdn.Text.{Text}
use skillcdn.TextSafety.{code_points, is_surrogate, is_high_surrogate, is_low_surrogate, pair_point}
use skillcdn.Percent.{
  utf16, utf8, hex_digit, hex_value, percent_bytes, pieces, Piece, unit, byte, Decoding, assemble,
  between, within, begin_byte, next_byte, read_piece,
}

-- The code units of a JavaScript string.
abbrev pub IsUnits : Text → Type 0
IsUnits = All (λ c. c < 0x10000)

-- A code point that UTF-8 writes.
abbrev pub IsScalar : ℕ → Type 0
IsScalar p = (p ≤ 0x10ffff) × (is_surrogate p ≡ false)

unfoldable pub from_points : List ℕ → Text
from_points [] = []
from_points (p ∷ ps) = utf16 p ++ from_points ps

pub utf16_unit : (c : ℕ) → c < 0x10000 → utf16 c ≡ c ∷ []
unfolding utf16
utf16_unit c h = ground arith

utf16_pair :
    (c d : ℕ)
    → (is_high_surrogate c && is_low_surrogate d) ≡ true
    → utf16 (pair_point c d) ≡ c ∷ d ∷ []
unfolding utf16 pair_point is_high_surrogate is_low_surrogate
utf16_pair c d h = ground arith

-- The units of the code points of a text are the text.
pub from_points-code_points : (s : Text) → IsUnits s → from_points (code_points s) ≡ s
unfolding from_points code_points
from_points-code_points [] h = refl
from_points-code_points (c ∷ []) (h, _) = rw (utf16_unit c h)
from_points-code_points (c ∷ d ∷ s) (h, (k, hs)) = ground (
  arith,
  from_points-code_points s hs,
  from_points-code_points (d ∷ s) (k, hs),
  utf16_pair c d,
  utf16_unit c h,
)

hex_value-hex_digit : (n : ℕ) → n < 16 → hex_value (hex_digit n) ≡ some n
unfolding hex_value hex_digit
hex_value-hex_digit n h = ground arith

pub pieces_escape :
    (h l a b : ℕ) (s : Text) (ps : List Piece)
    → hex_value h ≡ some a
    → hex_value l ≡ some b
    → pieces s ≡ some ps
    → pieces (b'%' ∷ h ∷ l ∷ s) ≡ some (byte (a * 16 + b) ∷ ps)
unfolding pieces
pieces_escape h l a b s ps p q e = ground arith

-- An escape is read as the byte that it was written for.
pub pieces-percent_bytes :
    (bs : List ℕ) (s : Text) (ps : List Piece)
    → All (λ b. b < 256) bs
    → pieces s ≡ some ps
    → pieces (percent_bytes bs ++ s) ≡ some (map byte bs ++ ps)
unfolding percent_bytes
pieces-percent_bytes [] s ps h e = e
pieces-percent_bytes (b ∷ bs) s ps (h, hs) e =
    let whole : b / 16 * 16 + b % 16 ≡ b = omega arith in
    pieces_escape _ _ (b / 16) (b % 16) _ _ (hex_value-hex_digit (b / 16) (omega arith))
      (hex_value-hex_digit (b % 16) (omega arith)) (pieces-percent_bytes bs s ps hs e)
    ∙ ap (λ (x : ℕ). some (byte x ∷ (map byte bs ++ ps))) whole

pub pieces-unit :
    (c : ℕ) (s : Text) (ps : List Piece)
    → c ≢ b'%'
    → pieces s ≡ some ps
    → pieces (c ∷ s) ≡ some (unit c ∷ ps)
unfolding pieces
pieces-unit c [] ps n e = ground arith
pieces-unit c (h ∷ []) ps n e = ground arith
pieces-unit c (h ∷ l ∷ s) ps n e = ground arith

pub utf8_bytes : (p : ℕ) → p ≤ 0x10ffff → All (λ b. b < 256) (utf8 p)
unfolding utf8
utf8_bytes p h = ground arith

pub assemble-one :
    (d next : Decoding) (p : Piece) (out t : Text) (ps : List Piece)
    → read_piece d p ≡ some (out, next)
    → assemble next ps ≡ some t
    → assemble d (p ∷ ps) ≡ some (out ++ t)
unfolding assemble
assemble-one between next p out t ps r e = ground arith
assemble-one (within left value least) next p out t ps r e = ground arith

begin_1 : (b : ℕ) → b < 0x80 → read_piece between (byte b) ≡ some (b ∷ [], between)
unfolding read_piece begin_byte
begin_1 b h = ground arith

begin_2 : (x : ℕ) → x < 0x20 → read_piece between (byte (0xc0 + x)) ≡ some ([], within 0 x 0x80)
unfolding read_piece begin_byte
begin_2 x h = ground arith

begin_3 : (x : ℕ) → x < 0x10 → read_piece between (byte (0xe0 + x)) ≡ some ([], within 1 x 0x800)
unfolding read_piece begin_byte
begin_3 x h = ground arith

begin_4 : (x : ℕ) → x < 8 → read_piece between (byte (0xf0 + x)) ≡ some ([], within 2 x 0x10000)
unfolding read_piece begin_byte
begin_4 x h = ground arith

next_more :
    (left value least x : ℕ)
    → x < 64
    → read_piece (within (suc left) value least) (byte (0x80 + x))
      ≡ some ([], within left (value * 64 + x) least)
unfolding read_piece next_byte
next_more left value least x h = ground arith

next_last :
    (value least x p : ℕ)
    → value * 64 + x ≡ p
    → x < 64
    → least ≤ p
    → IsScalar p
    → read_piece (within 0 value least) (byte (0x80 + x)) ≡ some (utf16 p, between)
unfolding read_piece next_byte
next_last value least x p whole h k (fits, no_surrogate) =
    let e : value * 64 + (0x80 + x - 0x80) ≡ p = omega arith in rw (e, no_surrogate) (ground arith)

-- The number of bytes that a code point takes.
data Width (p : ℕ) : Type 0 where
  one : p < 0x80 → utf8 p ≡ p ∷ [] → Width p
  two : 0x80 ≤ p → p < 0x800 → utf8 p ≡ (0xc0 + p / 64) ∷ (0x80 + p % 64) ∷ [] → Width p
  three :
      0x800 ≤ p
      → p < 0x10000
      → utf8 p ≡ (0xe0 + p / 4096) ∷ (0x80 + p / 64 % 64) ∷ (0x80 + p % 64) ∷ []
      → Width p
  four :
      0x10000 ≤ p
      → utf8 p
        ≡ (0xf0 + p / 262144) ∷ (0x80 + p / 4096 % 64) ∷ (0x80 + p / 64 % 64) ∷ (0x80 + p % 64) ∷ []
      → Width p

width : (p : ℕ) → Width p
unfolding utf8
width p = elim (dec_lt p 0x80) [
  | yes a ↦ one a (ground arith)
  | no a ↦ elim (dec_lt p 0x800) [
    | yes b ↦ two (omega arith) b (ground arith)
    | no b ↦ elim (dec_lt p 0x10000) [
      | yes c ↦ three (omega arith) c (ground arith)
      | no c ↦ four (omega arith) (ground arith)
    ]
  ]
]

-- The bytes of a code point are read as the code point.
pub assemble-utf8 :
    (p : ℕ) (ps : List Piece) (t : Text)
    → IsScalar p
    → assemble between ps ≡ some t
    → assemble between (map byte (utf8 p) ++ ps) ≡ some (utf16 p ++ t)
assemble-utf8 p ps t h e = elim (width p) [
  | one a w ↦ rw (w, utf16_unit p (omega arith)) (assemble-one _ _ _ _ t ps (begin_1 p a) e)
  | two a b w ↦ rw w (
      assemble-one _ _ _ [] _ _ (begin_2 (p / 64) (omega arith)) (
        assemble-one _ _ _ _ t ps
          (next_last (p / 64) 0x80 (p % 64) p (omega arith) (omega arith) a h) e))
  | three a b w ↦ rw w (
      assemble-one _ _ _ [] _ _ (begin_3 (p / 4096) (omega arith)) (
        assemble-one _ _ _ [] _ _ (next_more 0 (p / 4096) 0x800 (p / 64 % 64) (omega arith)) (
          assemble-one _ _ _ _ t ps (next_last _ 0x800 (p % 64) p (omega arith) (omega arith) a h)
            e)))
  | four a w ↦ rw w (
      assemble-one _ _ _ [] _ _ (begin_4 (p / 262144) (omega arith)) (
        assemble-one _ _ _ [] _ _ (next_more 1 (p / 262144) 0x10000 (p / 4096 % 64) (omega arith)) (
          assemble-one _ _ _ [] _ _ (next_more 0 _ 0x10000 (p / 64 % 64) (omega arith)) (
            assemble-one _ _ _ _ t ps
              (next_last _ 0x10000 (p % 64) p (omega arith) (omega arith) a h) e))))
]
