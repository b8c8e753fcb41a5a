-- ===== src/Lfs/Sizes.antt =====
-- Which lines give the size of a pointer, packages/core/src/lfs.ts.
use native.Mathlib.Nat.{pow-suc}
use skillcdn.Common.{
  ℕ, suc, ◌+◌, ◌*◌, ◌-◌, ◌^◌, ◌≤◌, ◌≡◌, refl, sym, ap, ◌∙◌, ◌↔◌, inl, inr, Bool, true, false, ◌&&◌,
  not, [], ◌∷◌, ◌++◌, none, some, leb, is_empty, length, drop, all, All, arith, Bool-cases,
  drop-append,
}
use skillcdn.Text.{Text, codes, starts_with}
use skillcdn.Text.Compare.{starts_with→append, starts_with-append}
use skillcdn.License.Words.{is_space}
use skillcdn.GitRef.{is_digit}
use skillcdn.Lfs.{leading_digits, number_of, read_size}
use skillcdn.Lfs.Grammar.{IsBlank, IsDecimalDigit, worth, IsOidLine, IsSizeLine}
use skillcdn.Lfs.Units.{all→All, All→all, is_digit_iff, and_four}

-- Reading digits from the left is worth what their places are.
number_of_lem : (v : ℕ) (s : Text) → number_of v s ≡ v * 10 ^ length s + worth s
unfolding number_of worth
number_of_lem v [] = omega arith
number_of_lem v (c ∷ s) =
    number_of_lem (v * 10 + (c - 48)) s ∙ places v (c - 48) (length s) (worth s)
  where
    product : (v d p w : ℕ) → (v * 10 + d) * p + w ≡ v * (p * 10) + (d * p + w)
    product v d p w = grind arith

    places : (v d n w : ℕ) → (v * 10 + d) * 10 ^ n + w ≡ v * 10 ^ suc n + (d * 10 ^ n + w)
    places v d n w = rw (pow-suc 10 n) (product v d (10 ^ n) w)

space_no_digit : (c : ℕ) → is_space c ≡ true → is_digit c ≡ false
unfolding is_space
space_no_digit c h = elim (Bool-cases (is_digit c)) [ inl d ↦ ground arith | inr n ↦ n ]

leading_digits-front :
    (s : Text)
    → (leading_digits s ++ drop (length (leading_digits s)) s ≡ s)
      × All IsDecimalDigit (leading_digits s)
unfolding leading_digits
leading_digits-front [] = (refl, tt)
leading_digits-front (c ∷ s) = elim (Bool-cases (is_digit c)) [
  | inr other ↦ rw other (refl, tt)
  | inl digit ↦
      let (e, d) = leading_digits-front s in
      rw digit (ap (λ t. c ∷ t) e, ((is_digit_iff c).0 digit, d))
]

leading_digits_of :
    (digits spaces : Text)
    → All IsDecimalDigit digits
    → IsBlank spaces
    → leading_digits (digits ++ spaces) ≡ digits
unfolding leading_digits
leading_digits_of [] [] d b = refl
leading_digits_of [] (c ∷ s) d (b, bs) = rw (space_no_digit c b) refl
leading_digits_of (c ∷ digits) spaces (d, ds) b =
    rw ((is_digit_iff c).1 d) (ap (λ t. c ∷ t) (leading_digits_of digits spaces ds b))

filled_iff : (s : Text) → (not (is_empty s) ≡ true) ↔ (1 ≤ length s)
filled_iff [] = (λ h. cc, λ h. absurd (omega arith))
filled_iff (c ∷ s) = (λ h. omega arith, λ h. refl)

nothing_before : (k w : ℕ) → 0 * 10 ^ k + w ≡ w
nothing_before k w = grind arith

read_size-some : (line : Text) (n : ℕ) → read_size line ≡ some n → IsSizeLine line n
unfolding read_size
read_size-some line n h = elim (Bool-cases test) [
  | inr fails ↦ cc (rw fails at h)
  | inl holds ↦
      let (starts, filled, few, blank) =
        (and_four (starts_with line (codes "size ")) (not (is_empty digits))
            (leb (length digits) 15) (all is_space (drop (length digits) value))).0
          holds in
      let (r, e) = starts_with→append line (codes "size ") starts in
      let same_value : value ≡ r = ap (drop 5) e in
      let (front, decimal) = leading_digits-front value in
      let q : some (number_of 0 digits) ≡ some n = rw holds at h in
      let same_size : number_of 0 digits ≡ n = cc in
      record {
        digits = digits;
        spaces = drop (length digits) value;
        written = e ∙ ap (λ t. codes "size " ++ t) (sym same_value ∙ sym front);
        some_digits = (filled_iff digits).0 filled;
        few_digits = ground arith;
        decimal = decimal;
        blank = all→All is_space (drop (length digits) value) blank;
        value =
            sym same_size ∙ number_of_lem 0 digits ∙ nothing_before (length digits) (worth digits);
      }
]
  where
    value : Text
    value = drop 5 line

    digits : Text
    digits = leading_digits value

    test : Bool
    test =
        starts_with line (codes "size ")
        && not (is_empty digits)
        && leb (length digits) 15
        && all is_space (drop (length digits) value)

some-read_size : (line : Text) (n : ℕ) → IsSizeLine line n → read_size line ≡ some n
unfolding read_size
some-read_size line n k =
    rw
      (
        k.written,
        leading_digits_of k.digits k.spaces k.decimal k.blank,
        drop-append k.digits k.spaces,
        starts_with-append (codes "size ") (k.digits ++ k.spaces),
        (filled_iff k.digits).1 k.some_digits,
        few k.few_digits,
        All→all is_space k.spaces k.blank,
      )
      (ap some (
        number_of_lem 0 k.digits ∙ nothing_before (length k.digits) (worth k.digits) ∙ sym k.value))
  where
    few : length k.digits ≤ 15 → leb (length k.digits) 15 ≡ true
    few h = ground arith

pub read_size_iff : (line : Text) (n : ℕ) → (read_size line ≡ some n) ↔ IsSizeLine line n
read_size_iff line n = (read_size-some line n, some-read_size line n)

-- No line gives a hash and a size.
pub oid_no_size : (line v : Text) → IsOidLine line v → read_size line ≡ none
unfolding read_size starts_with
oid_no_size line v k = rw k.written refl
