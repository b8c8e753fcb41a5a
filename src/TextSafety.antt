-- ===== src/TextSafety.antt =====
-- packages/core/src/text-safety.ts: the code points of a text, and which of them are refused.
pub mod Laws
use skillcdn.Common.{
  ℕ, ◌+◌, ◌-◌, ◌*◌, Bool, true, false, ◌&&◌, ◌||◌, not, List, [], ◌∷◌, leb, ◌==◌, if◌then◌else◌,
  all, any,
}
use skillcdn.Text.{Text}

unfoldable pub is_high_surrogate : ℕ → Bool
is_high_surrogate c = leb 0xd800 c && leb c 0xdbff

unfoldable pub is_low_surrogate : ℕ → Bool
is_low_surrogate c = leb 0xdc00 c && leb c 0xdfff

unfoldable pub is_surrogate : ℕ → Bool
is_surrogate c = leb 0xd800 c && leb c 0xdfff

-- The code point of a surrogate pair.
unfoldable pub pair_point : ℕ → ℕ → ℕ
pair_point c d = (c - 0xd800) * 0x400 + (d - 0xdc00) + 0x10000

-- What `for (const character of value)` walks: a pair is one code point, and a surrogate that is
-- not of a pair is a code point of its own.
unfoldable pub code_points : Text → List ℕ
code_points [] = []
code_points (c ∷ []) = c ∷ []
code_points (c ∷ d ∷ s) = elim (is_high_surrogate c && is_low_surrogate d) [
  | true ↦ pair_point c d ∷ code_points s
  | false ↦ c ∷ code_points (d ∷ s)
]

-- `value.isWellFormed()`.
unfoldable pub is_well_formed : Text → Bool
is_well_formed s = all (λ p. not (is_surrogate p)) (code_points s)

unfoldable pub is_forbidden_code_point : ℕ → Bool
is_forbidden_code_point p =
    leb p 0x1f
    || (leb 0x7f p && leb p 0x9f)
    || (leb 0x200b p && leb p 0x200f)
    || (leb 0x2028 p && leb p 0x202e)
    || (leb 0x2060 p && leb p 0x2069)
    || p == 0xfeff

unfoldable pub has_forbidden_code_point : Text → Bool
has_forbidden_code_point s =
    if not (is_well_formed s) then true else any is_forbidden_code_point (code_points s)
