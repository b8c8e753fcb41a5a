-- ===== src/Lfs/Numbers.antt =====
-- What the reader of sizes of packages/core/src/lfs.ts makes of a number that is written.
use skillcdn.Common.{
  ℕ, zero, suc, ◌+◌, ◌/◌, ◌%◌, ◌<◌, ◌≡◌, ap, ◌∙◌, [], ◌∷◌, arith, ltb, inl, inr, Bool-cases,
}
use skillcdn.Text.{Text}
use skillcdn.Text.Decimal.{digits_onto, decimal}
use skillcdn.Lfs.{number_of}

number_of-digits_onto :
    (fuel n : ℕ) (behind : Text)
    → n < fuel
    → number_of 0 (digits_onto fuel n behind) ≡ number_of n behind
unfolding number_of digits_onto
number_of-digits_onto zero n behind h = ground arith
number_of-digits_onto (suc fuel) n behind h = elim (Bool-cases (ltb n 10)) [
  | inl small ↦ rw small (ap (λ v. number_of v behind) (omega arith))
  | inr large ↦ rw large (
      number_of-digits_onto fuel (n / 10) ((b'0' + n % 10) ∷ behind) (ground arith)
      ∙ ap (λ v. number_of v behind) (omega arith))
]

-- The digits of a number are read back as the number.
pub number_of-decimal : (n : ℕ) → number_of 0 (decimal n) ≡ n
unfolding decimal number_of
number_of-decimal n = number_of-digits_onto (suc n) n [] (omega arith)
