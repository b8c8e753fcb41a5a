-- ===== src/ContextPage/Laws.antt =====
-- What a page holds: whole code points within the budget, and no less than fit.
use skillcdn.Common.{
  ℕ, zero, suc, ◌+◌, ◌-◌, ◌*◌, take-append, ◌≤◌, ◌<◌, ◌≡◌, refl, sym, ap, ◌∙◌, ◌≢◌, ◌↔◌, ◌⊎◌, inl,
  inr, true, false, ◌&&◌, List, [], ◌∷◌, ◌++◌, arith, ltb, if◌then◌else◌, length, take, drop,
  Bool-cases, length-append, subst,
}
use skillcdn.Text.{Text}
use skillcdn.TextSafety.{is_high_surrogate, is_low_surrogate, code_points, pair_point}
use skillcdn.ContextPage.{Page, point_size, page_from, context_page}

-- The UTF-8 bytes of a text.
abbrev pub bytes_of : List ℕ → ℕ
bytes_of [] = 0
bytes_of (p ∷ ps) = point_size p + bytes_of ps

-- The first code point of a text, by its bytes and its units.
abbrev pub first_size : Text → ℕ
first_size [] = 0
first_size (c ∷ []) = point_size c
first_size (c ∷ d ∷ s) = if is_high_surrogate c && is_low_surrogate d then 4 else point_size c

-- How a page divides the units from its offset on.
pub record IsCut (s : Text) (bytes budget : ℕ) (taken rest : Text) (total : ℕ) : Type 0 where
  pub whole : s ≡ taken ++ rest
  pub counted : total ≡ bytes + bytes_of (code_points taken)
  pub fits : total ≤ budget
  pub full : (rest ≡ []) ⊎ (budget < total + first_size rest)

abbrev pub Cuts : Text → ℕ → ℕ → ℕ → ℕ × ℕ → Type 0
Cuts s end bytes budget (stop, total) =
    (taken : Text) × (rest : Text) × (stop ≡ end + length taken)
    × IsCut s bytes budget taken rest total

none_taken :
    (s : Text) (end bytes budget : ℕ)
    → bytes ≤ budget
    → (s ≡ []) ⊎ (budget < bytes + first_size s)
    → Cuts s end bytes budget (end, bytes)
unfolding code_points
none_taken s end bytes budget h k =
    ([], s, omega arith, record { whole = refl; counted = omega arith; fits = h; full = k })

pair_four : (c d : ℕ) → point_size (pair_point c d) ≡ 4
unfolding point_size pair_point
pair_four c d =
    let large : 0xffff < (c - 0xd800) * 0x400 + (d - 0xdc00) + 0x10000 = omega arith in ground arith

pair_size :
    (c d : ℕ) (s : Text)
    → (is_high_surrogate c && is_low_surrogate d) ≡ true
    → bytes_of (code_points (c ∷ d ∷ s)) ≡ 4 + bytes_of (code_points s)
unfolding code_points
pair_size c d s h = rw (h, code_points) (ap (λ n. n + bytes_of (code_points s)) (pair_four c d))

single_size :
    (c d : ℕ) (u s rest : Text)
    → (is_high_surrogate c && is_low_surrogate d) ≡ false
    → d ∷ u ≡ s ++ rest
    → bytes_of (code_points (c ∷ s)) ≡ point_size c + bytes_of (code_points s)
unfolding code_points
single_size c d u [] rest h q = refl
single_size c d u (e ∷ s) rest h q =
    let same_unit : e ≡ d = ground arith in
    rw (ap (λ x. is_high_surrogate c && is_low_surrogate x) same_unit ∙ h, code_points) refl

-- One code point more.
pair_taken :
    (c d : ℕ) (s : Text) (end bytes budget : ℕ) (answer : ℕ × ℕ)
    → (is_high_surrogate c && is_low_surrogate d) ≡ true
    → Cuts s (end + 2) (bytes + 4) budget answer
    → Cuts (c ∷ d ∷ s) end bytes budget answer
pair_taken c d s end bytes budget (stop, total) h (taken, rest, q, cut) = (
  c ∷ d ∷ taken,
  rest,
  omega arith,
  record {
    whole = ap (λ x. c ∷ d ∷ x) cut.whole;
    counted = omega (arith, cut.counted, pair_size c d taken h);
    fits = cut.fits;
    full = cut.full;
  },
)

single_taken :
    (c d : ℕ) (s : Text) (end bytes budget : ℕ) (answer : ℕ × ℕ)
    → (is_high_surrogate c && is_low_surrogate d) ≡ false
    → Cuts (d ∷ s) (end + 1) (bytes + point_size c) budget answer
    → Cuts (c ∷ d ∷ s) end bytes budget answer
single_taken c d s end bytes budget (stop, total) h (taken, rest, q, cut) = (
  c ∷ taken,
  rest,
  omega arith,
  record {
    whole = ap (λ x. c ∷ x) cut.whole;
    counted = omega (arith, cut.counted, single_size c d s taken rest h cut.whole);
    fits = cut.fits;
    full = cut.full;
  },
)

last_taken :
    (c end bytes budget : ℕ)
    → bytes + point_size c ≤ budget
    → Cuts (c ∷ []) end bytes budget (end + 1, bytes + point_size c)
unfolding code_points
last_taken c end bytes budget h = (
  c ∷ [],
  [],
  omega arith,
  record { whole = refl; counted = omega arith; fits = h; full = inl refl },
)

page_from-Cuts :
    (s : Text) (end bytes budget : ℕ)
    → bytes ≤ budget
    → Cuts s end bytes budget (page_from s end bytes budget)
unfolding page_from
page_from-Cuts [] end bytes budget h = none_taken [] end bytes budget h (inl refl)
page_from-Cuts (c ∷ []) end bytes budget h = elim (Bool-cases (ltb budget (bytes + point_size c))) [
  | inl over ↦ rw (over, page_from) (none_taken (c ∷ []) end bytes budget h (inr (ground arith)))
  | inr room ↦ rw (room, page_from) (last_taken c end bytes budget (ground arith))
]
page_from-Cuts (c ∷ d ∷ s) end bytes budget h =
    elim (Bool-cases (is_high_surrogate c && is_low_surrogate d)) [
      | inl pair ↦ elim (Bool-cases (ltb budget (bytes + 4))) [
        | inl over ↦
            rw (pair, over, page_from)
              (none_taken (c ∷ d ∷ s) end bytes budget h (inr (rw pair (ground arith))))
        | inr room ↦
            rw (pair, room, page_from)
              (pair_taken c d s end bytes budget _ pair
                (page_from-Cuts s (end + 2) (bytes + 4) budget (ground arith)))
      ]
      | inr single ↦ elim (Bool-cases (ltb budget (bytes + point_size c))) [
        | inl over ↦
            rw (single, over, page_from)
              (none_taken (c ∷ d ∷ s) end bytes budget h (inr (rw single (ground arith))))
        | inr room ↦
            rw (single, room, page_from)
              (single_taken c d s end bytes budget _ single
                (page_from-Cuts (d ∷ s) (end + 1) (bytes + point_size c) budget (ground arith)))
      ]
    ]

-- A page of a text from an offset on.
pub record IsPage (text : Text) (offset budget : ℕ) (page : Page) : Type 0 where
  pub rest : Text
  pub cut : IsCut (drop offset text) 0 budget page.content rest page.bytes
  pub continues : (page.more ≡ true) ↔ (rest ≢ [])

length-drop : (n : ℕ) (s : Text) → n ≤ length s → length (drop n s) + n ≡ length s
length-drop zero s h = omega arith
length-drop (suc n) [] h = absurd (omega arith)
length-drop (suc n) (c ∷ s) h = omega (arith, length-drop n s (omega arith))

take-prefix : (s rest : Text) (n : ℕ) → n ≡ length s → take n (s ++ rest) ≡ s
take-prefix s rest n h = rw h (take-append s rest)

left_over : (rest : Text) (n m : ℕ) → m ≡ n + length rest → (ltb n m ≡ true) ↔ (rest ≢ [])
left_over [] n m h = (λ k. absurd (ground arith), λ k. absurd (k refl))
left_over (c ∷ rest) n m h = (λ k e. cc, λ k. ground arith)

Cuts→IsPage :
    (text : Text) (offset budget : ℕ) (answer : ℕ × ℕ)
    → offset ≤ length text
    → Cuts (drop offset text) offset 0 budget answer
    → IsPage text offset budget (record {
      content = take (answer.0 - offset) (drop offset text);
      bytes = answer.1;
      more = ltb answer.0 (length text);
    })
Cuts→IsPage text offset budget (stop, total) h (taken, rest, q, cut) =
    let content : take (stop - offset) (drop offset text) ≡ taken =
      ap (take (stop - offset)) cut.whole ∙ take-prefix taken rest (stop - offset) (omega arith) in
    let size : length (drop offset text) ≡ length taken + length rest =
      ap length cut.whole ∙ length-append taken rest in
    record {
      rest = rest;
      cut = subst (λ x. IsCut (drop offset text) 0 budget x rest total) (sym content) cut;
      continues =
          left_over rest stop (length text) (omega (arith, size, length-drop offset text h));
    }

-- The content of a page is what stands in the text from the offset on, its bytes are those of its
-- code points and within the budget, the page stops only where the text ends or where the next code
-- point does not fit, and it says that there is more exactly if a part of the text is left.
pub context_page_lem :
    (text : Text) (offset budget : ℕ)
    → offset ≤ length text
    → IsPage text offset budget (context_page text offset budget)
unfolding context_page
context_page_lem text offset budget h =
    Cuts→IsPage text offset budget (page_from (drop offset text) offset 0 budget) h
      (page_from-Cuts (drop offset text) offset 0 budget (omega arith))
