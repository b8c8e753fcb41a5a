-- ===== src/Text/Decimal.antt =====
-- The text of a number in a template of JavaScript, for the natural numbers that the code writes.
use skillcdn.Common.{ℕ, zero, suc, ◌+◌, ◌/◌, ◌%◌, [], ◌∷◌, ltb, if◌then◌else◌}
use skillcdn.Text.{Text}

-- The digits of a number in front of those that are read. Each round divides it by ten, so that a fuel
-- above it is enough.
unfoldable pub digits_onto : ℕ → ℕ → Text → Text
digits_onto zero n behind = behind
digits_onto (suc fuel) n behind =
    let rest = digits_onto fuel (n / 10) ((b'0' + n % 10) ∷ behind) in
    if ltb n 10 then (b'0' + n) ∷ behind else rest

unfoldable pub decimal : ℕ → Text
unfolding digits_onto
decimal n = digits_onto (suc n) n []
