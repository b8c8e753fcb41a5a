-- ===== src/Lfs/Units.antt =====
-- What the tests of packages/core/src/lfs.ts on units decide.
use skillcdn.Common.{
  ℕ, ◌≡◌, refl, ◌↔◌, inl, inr, Bool, true, ◌&&◌, [], ◌∷◌, leb, all, All, arith, Bool-cases, and_iff,
}
use skillcdn.Text.{Text}
use skillcdn.GitRef.{is_digit}
use skillcdn.Lfs.{is_lower_hex}
use skillcdn.Lfs.Grammar.{IsDecimalDigit, IsLowerHex}

pub all→All : (p : ℕ → Bool) (s : Text) → all p s ≡ true → All (λ c. p c ≡ true) s
all→All p [] h = tt
all→All p (c ∷ s) h = let (a, b) = (and_iff (p c) (all p s)).0 h in (a, all→All p s b)

pub All→all : (p : ℕ → Bool) (s : Text) → All (λ c. p c ≡ true) s → all p s ≡ true
All→all p [] h = refl
All→all p (c ∷ s) (a, b) = (and_iff (p c) (all p s)).1 (a, All→all p s b)

pub is_lower_hex_iff : (c : ℕ) → (is_lower_hex c ≡ true) ↔ IsLowerHex c
unfolding is_lower_hex
is_lower_hex_iff c = (
  λ h. elim (Bool-cases (leb 48 c && leb c 57)) [
    | inl d ↦ inl (ground arith)
    | inr n ↦ inr (ground arith)
  ],
  λ h. elim h [ inl d ↦ ground arith | inr d ↦ ground arith ],
)

pub is_digit_iff : (c : ℕ) → (is_digit c ≡ true) ↔ IsDecimalDigit c
is_digit_iff c = (λ h. ground arith, λ h. ground arith)

pub and_four :
    (a b c d : Bool)
    → ((a && b && c && d) ≡ true) ↔ ((a ≡ true) × (b ≡ true) × (c ≡ true) × (d ≡ true))
and_four a b c d =
    (λ h. (ground arith, ground arith, ground arith, ground arith), λ (h, i, j, k). ground arith)
