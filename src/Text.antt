-- ===== src/Text.antt =====
-- JavaScript strings: a text is the list of its UTF-16 code units, and each operation here is the
-- method of `String.prototype` that the code calls.
pub mod Compare
pub mod Split
pub mod Search
pub mod Decimal
use Prim.Native.Char.{code}
use Prim.Native.String.{String}
use skillcdn.Common.{
  ℕ, suc, ◌+◌, ◌-◌, Bool, true, false, ◌&&◌, ◌||◌, List, [], ◌∷◌, ◌++◌, Option, none, some, ltb,
  leb, ◌==◌, if◌then◌else◌,
}

abbrev pub Text : Type 0
Text = List ℕ

-- The code units of a literal; the literals of the code are ASCII.
abbrev pub codes : String → Text
codes String.[] = []
codes (String.◌∷◌ c s) = code c ∷ codes s

abbrev pub slash : ℕ
slash = b'/'

-- `a === b`.
unfoldable pub same : Text → Text → Bool
same [] [] = true
same [] (d ∷ t) = false
same (c ∷ s) [] = false
same (c ∷ s) (d ∷ t) = c == d && same s t

-- `a < b`: the order of the code units.
unfoldable pub less : Text → Text → Bool
less s [] = false
less [] (d ∷ t) = true
less (c ∷ s) (d ∷ t) = ltb c d || (c == d && less s t)

-- `s.startsWith(p)`.
unfoldable pub starts_with : Text → Text → Bool
starts_with s [] = true
starts_with [] (d ∷ p) = false
starts_with (c ∷ s) (d ∷ p) = c == d && starts_with s p

-- `s.endsWith(p)`.
unfoldable pub ends_with : Text → Text → Bool
unfolding same
ends_with [] p = same [] p
ends_with (c ∷ s) p = same (c ∷ s) p || ends_with s p

-- `s.includes(p)`.
unfoldable pub includes : Text → Text → Bool
unfolding starts_with
includes [] p = starts_with [] p
includes (c ∷ s) p = starts_with (c ∷ s) p || includes s p

-- `s.includes(c)` of one code unit.
unfoldable pub has_unit : ℕ → Text → Bool
has_unit c [] = false
has_unit c (d ∷ s) = d == c || has_unit c s

-- `s.indexOf(c)`; `none` is -1.
unfoldable pub index_of : ℕ → Text → Option ℕ
index_of c [] = none
index_of c (d ∷ s) =
    let rest = index_of c s in
    if d == c then some 0 else elim rest [ none ↦ none | some i ↦ some (suc i) ]

-- `s.lastIndexOf(c)`; `none` is -1.
unfoldable pub last_index_of : ℕ → Text → Option ℕ
last_index_of c [] = none
last_index_of c (d ∷ s) = elim (last_index_of c s) [
  | none ↦ if d == c then some 0 else none
  | some i ↦ some (suc i)
]

-- A unit before the first of the parts.
abbrev pub onto_first : ℕ → List Text → List Text
onto_first c [] = (c ∷ []) ∷ []
onto_first c (p ∷ ps) = (c ∷ p) ∷ ps

-- `s.split(sep)` of one code unit.
unfoldable pub split : ℕ → Text → List Text
split sep [] = [] ∷ []
split sep (c ∷ s) = let rest = split sep s in if c == sep then [] ∷ rest else onto_first c rest

-- `parts.join(sep)` of one code unit.
unfoldable pub join : ℕ → List Text → Text
join sep [] = []
join sep (p ∷ []) = p
join sep (p ∷ q ∷ ps) = p ++ (sep ∷ join sep (q ∷ ps))

-- `set.has(s)` and `array.includes(s)`.
unfoldable pub has : List Text → Text → Bool
unfolding same
has [] s = false
has (t ∷ ts) s = same t s || has ts s

-- `s.toLowerCase()`, as far as its result can hold an ASCII letter: the capitals A to Z, the Kelvin
-- sign, whose lower case is `k`, and the dotted capital I, whose lower case is `i` and a combining
-- dot. Other units keep their value; the code looks only for ASCII in what it has lowered.
abbrev pub lower_unit : ℕ → Text
lower_unit c =
    if leb b'A' c && leb c b'Z'
    then (c + 32) ∷ []
    else if c == 0x212a
    then b'k' ∷ []
    else if c == 0x130
    then b'i' ∷ 0x307 ∷ []
    else c ∷ []

unfoldable pub to_lower : Text → Text
to_lower [] = []
to_lower (c ∷ s) = lower_unit c ++ to_lower s

-- `s.replaceAll(pqr, u)`, where `pqr` is three units and `u` is one.
unfoldable pub replace_three : ℕ → ℕ → ℕ → ℕ → Text → Text
replace_three p q r u [] = []
replace_three p q r u (a ∷ []) = a ∷ []
replace_three p q r u (a ∷ b ∷ []) = a ∷ b ∷ []
replace_three p q r u (a ∷ b ∷ c ∷ s) = elim (a == p && (b == q && c == r)) [
  | true ↦ u ∷ replace_three p q r u s
  | false ↦ a ∷ replace_three p q r u (b ∷ c ∷ s)
]
