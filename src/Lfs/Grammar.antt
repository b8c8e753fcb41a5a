-- ===== src/Lfs/Grammar.antt =====
-- The lines of a pointer of Git LFS, written down apart from the readers of packages/core/src/lfs.ts.
use skillcdn.Common.{ℕ, ◌+◌, ◌*◌, ◌-◌, ◌^◌, ◌≤◌, ◌≡◌, ◌⊎◌, true, [], ◌∷◌, ◌++◌, length, All}
use skillcdn.Text.{Text, codes}
use skillcdn.License.Words.{is_space}

abbrev pub IsBlank : Text → Type 0
IsBlank = All (λ c. is_space c ≡ true)

abbrev pub IsDecimalDigit : ℕ → Type 0
IsDecimalDigit c = (48 ≤ c) × (c ≤ 57)

-- `0` to `9` and `a` to `f`.
abbrev pub IsLowerHex : ℕ → Type 0
IsLowerHex c = IsDecimalDigit c ⊎ ((97 ≤ c) × (c ≤ 102))

-- What digits are worth by their places.
unfoldable pub worth : Text → ℕ
worth [] = 0
worth (c ∷ s) = (c - 48) * 10 ^ length s + worth s

-- `oid sha256:`, 64 hexadecimal digits and spaces.
pub record IsOidLine (line oid : Text) : Type 0 where
  pub spaces : Text
  pub written : line ≡ codes "oid sha256:" ++ (oid ++ spaces)
  pub long : length oid ≡ 64
  pub hexadecimal : All IsLowerHex oid
  pub blank : IsBlank spaces

-- `size `, 1 to 15 digits and spaces.
pub record IsSizeLine (line : Text) (size : ℕ) : Type 0 where
  pub digits : Text
  pub spaces : Text
  pub written : line ≡ codes "size " ++ (digits ++ spaces)
  pub some_digits : 1 ≤ length digits
  pub few_digits : length digits ≤ 15
  pub decimal : All IsDecimalDigit digits
  pub blank : IsBlank spaces
  pub value : size ≡ worth digits

-- `version ` and the URL of a specification, with spaces around it.
pub record IsVersionLine (line : Text) : Type 0 where
  pub left : Text
  pub url : Text
  pub right : Text
  pub written : line ≡ codes "version " ++ (left ++ (url ++ right))
  pub left_blank : IsBlank left
  pub right_blank : IsBlank right
  pub known :
      (url ≡ codes "https://git-lfs.github.com/spec/v1")
      ⊎ (url ≡ codes "https://hawser.github.com/spec/v1")
