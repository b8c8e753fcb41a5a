-- ===== src/Lfs.antt =====
-- packages/core/src/lfs.ts: the pointers of Git LFS.
pub mod Grammar
pub mod Units
pub mod Oids
pub mod Sizes
pub mod Versions
pub mod Lines
pub mod Pointers
pub mod Numbers
mod Tests
use skillcdn.Common.{
  ℕ, zero, suc, ◌+◌, ◌*◌, ◌-◌, Bool, true, false, ◌&&◌, ◌||◌, not, List, [], ◌∷◌, Option, none,
  some, ltb, leb, ◌==◌, if◌then◌else◌, is_empty, length, take, drop, all,
}
use skillcdn.Text.{Text, codes, has, starts_with, split}
use skillcdn.GitRef.{is_digit}
use skillcdn.License.Words.{is_space, trim}

pub record LfsPointer : Type 0 where
  pub oid : Text
  pub size : ℕ

abbrev pub pointer_versions : List Text
pointer_versions =
    codes "https://git-lfs.github.com/spec/v1" ∷ codes "https://hawser.github.com/spec/v1" ∷ []

abbrev pub max_pointer_length : ℕ
max_pointer_length = 1024

-- `[0-9a-f]`.
unfoldable pub is_lower_hex : ℕ → Bool
is_lower_hex c = is_digit c || (leb b'a' c && leb c b'f')

-- `/^oid sha256:([0-9a-f]{64})\s*$/`.
unfoldable pub read_oid : Text → Option Text
unfolding is_lower_hex is_space
read_oid line =
    let value = drop 11 line in
    if starts_with line (codes "oid sha256:")
      && length (take 64 value) == 64
      && all is_lower_hex (take 64 value)
      && all is_space (drop 64 value)
    then some (take 64 value)
    else none

-- The digits at the front of a text.
unfoldable pub leading_digits : Text → Text
leading_digits [] = []
leading_digits (c ∷ s) = let rest = leading_digits s in if is_digit c then c ∷ rest else []

-- `Number(digits)`.
unfoldable pub number_of : ℕ → Text → ℕ
number_of value [] = value
number_of value (c ∷ s) = number_of (value * 10 + (c - b'0')) s

-- `/^size ([0-9]{1,15})\s*$/`: no space is a digit, so that the digits are all of those at the front.
unfoldable pub read_size : Text → Option ℕ
unfolding leading_digits number_of is_space
read_size line =
    let value = drop 5 line in
    let digits = leading_digits value in
    if starts_with line (codes "size ")
      && not (is_empty digits)
      && leb (length digits) 15
      && all is_space (drop (length digits) value)
    then some (number_of 0 digits)
    else none

-- The loop over the lines: the last of each kind stands.
unfoldable pub read_lines : Option Text → Option ℕ → List Text → Option Text × Option ℕ
unfolding read_oid read_size
read_lines oid size [] = (oid, size)
read_lines oid size (line ∷ lines) = elim (read_oid line) [
  | some hash ↦ read_lines (some hash) size lines
  | none ↦ elim (read_size line) [
    | some bytes ↦ read_lines oid (some bytes) lines
    | none ↦ read_lines oid size lines
  ]
]

unfoldable pub pointer_of : Option Text × Option ℕ → Option LfsPointer
pointer_of (some oid, some size) = some (record { oid = oid; size = size })
pointer_of _ = none

-- The first line names the specification.
unfoldable pub names_version : List Text → Bool
unfolding trim
names_version [] = false
names_version (line ∷ lines) = has pointer_versions (trim (drop 8 line))

abbrev pub after_first : List Text → List Text
after_first [] = []
after_first (line ∷ lines) = lines

unfoldable pub parse_lfs_pointer : Text → Option LfsPointer
unfolding names_version read_lines pointer_of
parse_lfs_pointer text =
    if ltb max_pointer_length (length text) || not (starts_with text (codes "version "))
    then none
    else if not (names_version (split b'\n' text))
    then none
    else pointer_of (read_lines none none (after_first (split b'\n' text)))
