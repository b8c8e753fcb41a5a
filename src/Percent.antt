-- ===== src/Percent.antt =====
-- `encodeURIComponent` and `decodeURIComponent`: percent-encoded UTF-8, as the language defines it
-- and packages/core/src/address.ts calls it.
pub mod Points
pub mod RoundTrip
pub mod Replace
pub mod Encode
use skillcdn.Common.{
  ℕ, zero, suc, ◌+◌, ◌-◌, ◌*◌, ◌/◌, ◌%◌, Bool, true, false, ◌&&◌, ◌||◌, List, [], ◌∷◌, ◌++◌, Option,
  none, some, ltb, leb, ◌==◌, if◌then◌else◌,
}
use mathlib.Core.Option
use skillcdn.Text.{Text}
use skillcdn.TextSafety.{code_points, is_surrogate}

-- The UTF-16 code units of a code point.
unfoldable pub utf16 : ℕ → Text
utf16 p =
    if ltb p 0x10000
    then p ∷ []
    else (0xd800 + (p - 0x10000) / 0x400) ∷ (0xdc00 + (p - 0x10000) % 0x400) ∷ []

-- The bytes of UTF-8.
unfoldable pub utf8 : ℕ → List ℕ
utf8 p =
    if ltb p 0x80
    then p ∷ []
    else if ltb p 0x800
    then (0xc0 + p / 64) ∷ (0x80 + p % 64) ∷ []
    else if ltb p 0x10000
    then (0xe0 + p / 4096) ∷ (0x80 + p / 64 % 64) ∷ (0x80 + p % 64) ∷ []
    else (0xf0 + p / 262144) ∷ (0x80 + p / 4096 % 64) ∷ (0x80 + p / 64 % 64) ∷ (0x80 + p % 64) ∷ []

unfoldable pub hex_digit : ℕ → ℕ
hex_digit n = if ltb n 10 then b'0' + n else b'A' + (n - 10)

unfoldable pub hex_value : ℕ → Option ℕ
hex_value c =
    if leb b'0' c && leb c b'9'
    then some (c - b'0')
    else if leb b'a' c && leb c b'f'
    then some (c - b'a' + 10)
    else if leb b'A' c && leb c b'F'
    then some (c - b'A' + 10)
    else none

-- `%XX` for each byte.
unfoldable pub percent_bytes : List ℕ → Text
percent_bytes [] = []
percent_bytes (b ∷ bs) = b'%' ∷ hex_digit (b / 16) ∷ hex_digit (b % 16) ∷ percent_bytes bs

-- The characters that `encodeURIComponent` leaves alone: A-Z a-z 0-9 - _ . ! ~ * ' ( ).
unfoldable pub is_unreserved : ℕ → Bool
is_unreserved p =
    (leb b'A' p && leb p b'Z')
    || (leb b'a' p && leb p b'z')
    || (leb b'0' p && leb p b'9')
    || p == b'-'
    || p == b'_'
    || p == b'.'
    || p == b'!'
    || p == b'~'
    || p == b'*'
    || p == 39
    || p == b'('
    || p == b')'

unfoldable pub encode_point : ℕ → Text
encode_point p = if is_unreserved p then p ∷ [] else percent_bytes (utf8 p)

unfoldable pub encode_points : List ℕ → Option Text
encode_points [] = some []
encode_points (p ∷ ps) = elim (encode_points ps) [
  | none ↦ none
  | some rest ↦ if is_surrogate p then none else some (encode_point p ++ rest)
]

-- `encodeURIComponent(s)`; `none` is the `URIError` of a lone surrogate.
unfoldable pub encode_uri_component : Text → Option Text
encode_uri_component s = encode_points (code_points s)

-- A text as the decoder reads it: a code unit as it stands, or the byte of an escape.
pub data Piece : Type 0 where
  unit : ℕ → Piece
  byte : ℕ → Piece

-- `none` is an escape without two hexadecimal digits.
unfoldable pub pieces : Text → Option (List Piece)
pieces [] = some []
pieces (c ∷ []) = if c == b'%' then none else some (unit c ∷ [])
pieces (c ∷ h ∷ []) = elim (c == b'%') [
  | true ↦ none
  | false ↦ Option.map (λ ps. unit c ∷ ps) (pieces (h ∷ []))
]
pieces (c ∷ h ∷ l ∷ s) = elim (c == b'%') [
  | false ↦ Option.map (λ ps. unit c ∷ ps) (pieces (h ∷ l ∷ s))
  | true ↦ elim (hex_value h) [
    | none ↦ none
    | some a ↦ elim (hex_value l) [
      | none ↦ none
      | some b ↦ Option.map (λ ps. byte (a * 16 + b) ∷ ps) (pieces s)
    ]
  ]
]

-- Between two characters, or in one: how many bytes are to come, the value so far, and the least
-- value that needs as many bytes.
pub data Decoding : Type 0 where
  between : Decoding
  within : ℕ → ℕ → ℕ → Decoding

-- The character that a byte begins, and what the decoder is in then.
unfoldable pub begin_byte : ℕ → Option (Text × Decoding)
begin_byte b =
    if ltb b 0x80
    then some (b ∷ [], between)
    else if leb 0xc0 b && ltb b 0xe0
    then some ([], within 0 (b - 0xc0) 0x80)
    else if leb 0xe0 b && ltb b 0xf0
    then some ([], within 1 (b - 0xe0) 0x800)
    else if leb 0xf0 b && ltb b 0xf8
    then some ([], within 2 (b - 0xf0) 0x10000)
    else none

-- A continuation byte: the last one closes the character, unless its value is one that UTF-8 writes
-- shorter, a surrogate, or past the last code point.
unfoldable pub next_byte : ℕ → ℕ → ℕ → ℕ → Option (Text × Decoding)
next_byte left value least b =
    let more = value * 64 + (b - 0x80) in
    if leb 0x80 b && ltb b 0xc0
    then elim left [
      | zero ↦
          if ltb more least || is_surrogate more || ltb 0x10ffff more
          then none
          else some (utf16 more, between)
      | suc rest ↦ some ([], within rest more least)
    ]
    else none

unfoldable pub read_piece : Decoding → Piece → Option (Text × Decoding)
read_piece between (unit c) = some (c ∷ [], between)
read_piece between (byte b) = begin_byte b
read_piece (within left value least) (unit c) = none
read_piece (within left value least) (byte b) = next_byte left value least b

unfoldable pub assemble : Decoding → List Piece → Option Text
assemble between [] = some []
assemble (within left value least) [] = none
assemble d (p ∷ ps) = elim (read_piece d p) [
  | none ↦ none
  | some (out, next) ↦ Option.map (λ rest. out ++ rest) (assemble next ps)
]

-- `decodeURIComponent(s)`; `none` is its `URIError`.
unfoldable pub decode_uri_component : Text → Option Text
decode_uri_component s = elim (pieces s) [ none ↦ none | some ps ↦ assemble between ps ]
