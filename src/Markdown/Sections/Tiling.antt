-- ===== src/Markdown/Sections/Tiling.antt =====
-- The sections of a document, read one behind the other, are its body.
use skillcdn.Common.{
  ℕ, zero, suc, ◌-◌, ◌≤◌, ◌≡◌, refl, ap, ◌∙◌, sym, Bool, true, false, List, [], ◌∷◌, ◌++◌, none,
  length, take, drop, arith, if◌then◌else◌, Bool-cases, inl, inr, take-append-drop,
}
use skillcdn.Text.{Text}
use skillcdn.Markdown.Lines.{is_blank}
use skillcdn.Markdown.Outline.{
  FoundHeading, OutlineHeading, next_offset, headings_of, heading_paths, outline_markdown,
  found_headings, body_offset_of, max_outline_headings,
}
use skillcdn.Markdown.Outline.Ascent.{Ascends, found_headings-Ascends, body_offset_of-le}
use skillcdn.Markdown.Sections.{
  DocumentSection, slice, preamble_end, has_preamble, headed_sections, sections_of,
}

-- What a reader gets who reads every section by its offset and its length.
abbrev pub read_sections : Text → List DocumentSection → Text
read_sections text [] = []
read_sections text (s ∷ sections) =
    take s.length (drop s.offset text) ++ read_sections text sections

abbrev read_headings : Text → List OutlineHeading → Text
read_headings text [] = []
read_headings text (h ∷ headings) =
    take h.length (drop h.offset text) ++ read_headings text headings

read_headed :
    (text : Text) (headings : List OutlineHeading) (paths : List (List Text))
    → read_sections text (headed_sections headings paths) ≡ read_headings text headings
read_headed text [] paths = refl
read_headed text (h ∷ headings) [] =
    ap (λ rest. take h.length (drop h.offset text) ++ rest) (read_headed text headings [])
read_headed text (h ∷ headings) (path ∷ paths) =
    ap (λ rest. take h.length (drop h.offset text) ++ rest) (read_headed text headings paths)

drop_all : (n : ℕ) (s : Text) → length s ≤ n → drop n s ≡ []
drop_all zero [] h = refl
drop_all zero (c ∷ s) h = absurd (omega arith)
drop_all (suc n) [] h = refl
drop_all (suc n) (c ∷ s) h = drop_all n s (omega arith)

drop-drop : (n m : ℕ) (s : Text) → n ≤ m → drop (m - n) (drop n s) ≡ drop m s
drop-drop zero m s h = ap (λ k. drop k s) (omega arith)
drop-drop (suc n) zero s h = absurd (omega arith)
drop-drop (suc n) (suc m) [] h = drop_all (suc m - suc n) [] (omega arith)
drop-drop (suc n) (suc m) (c ∷ s) h =
    ap (λ k. drop k (drop n s)) (omega arith) ∙ drop-drop n m s (omega arith)

-- A slice and what is behind it.
slice-append :
    (text : Text) (from to : ℕ) → from ≤ to → slice text from to ++ drop to text ≡ drop from text
slice-append text from to h =
    ap (λ rest. slice text from to ++ rest) (sym (drop-drop from to text h))
    ∙ take-append-drop (to - from) (drop from text)

-- The first of some offsets that ascend, or the end of the text.
abbrev first_offset : ℕ → List FoundHeading → ℕ
first_offset = next_offset

first_offset-le :
    (text : Text) (lo : ℕ) (found : List FoundHeading)
    → lo ≤ length text
    → Ascends lo found (suc (length text))
    → lo ≤ first_offset (length text) found
first_offset-le text lo [] k h = k
first_offset-le text lo (f ∷ found) k h = h.0

last_offset :
    (lo : ℕ) (f : FoundHeading) (found : List FoundHeading) (hi : ℕ)
    → Ascends lo (f ∷ found) (suc hi)
    → f.offset ≤ hi
last_offset lo f [] hi h = omega arith
last_offset lo f (g ∷ found) hi (a, h) = omega (arith, last_offset (suc f.offset) g found hi h, h.0)

read_all_headings :
    (text : Text) (limit lo : ℕ) (found : List FoundHeading)
    → length found ≤ limit
    → Ascends lo found (suc (length text))
    → read_headings text (headings_of (length text) limit found)
      ≡ drop (first_offset (length text) found) text
unfolding headings_of
read_all_headings text zero lo [] k h = sym (drop_all (length text) text (omega arith))
read_all_headings text zero lo (f ∷ found) k h = absurd (omega arith)
read_all_headings text (suc limit) lo [] k h = sym (drop_all (length text) text (omega arith))
read_all_headings text (suc limit) lo (f ∷ found) k (a, h) =
    let inside = last_offset lo f found (length text) (a, h) in
    let next = next_offset (length text) found in
    ap (λ rest. take (next - f.offset) (drop f.offset text) ++ rest)
      (read_all_headings text limit (suc f.offset) found (omega arith) h)
    ∙ slice-append text f.offset next (next-le found h inside)
  where
    next-le :
        (fs : List FoundHeading)
        → Ascends (suc f.offset) fs (suc (length text))
        → f.offset ≤ length text
        → f.offset ≤ next_offset (length text) fs
    next-le [] b i = i
    next-le (g ∷ fs) b i = omega (arith, b.0)

preamble_end_lem :
    (total limit : ℕ) (found : List FoundHeading)
    → length found ≤ limit
    → preamble_end total (headings_of total limit found) ≡ next_offset total found
unfolding headings_of
preamble_end_lem total zero [] k = refl
preamble_end_lem total zero (f ∷ found) k = absurd (omega arith)
preamble_end_lem total (suc limit) [] k = refl
preamble_end_lem total (suc limit) (f ∷ found) k = refl

blank_of_none : (n : ℕ) (s : Text) → n ≡ 0 → is_blank (take n s) ≡ true
unfolding is_blank
blank_of_none zero s e = refl
blank_of_none (suc n) s e = absurd (omega arith)

no_preamble-blank :
    (text : Text) (from to : ℕ)
    → has_preamble text from to ≡ false
    → is_blank (slice text from to) ≡ true
no_preamble-blank text from to h = elim (Bool-cases (is_blank (slice text from to))) [
  | inl blank ↦ blank
  | inr prose ↦
      let none_left : to - from ≡ 0 = ground arith in
      blank_of_none (to - from) (drop from text) none_left
]

tile :
    (text before : Text) (b : Bool) (from size : ℕ) (headed : List DocumentSection) (behind : Text)
    → before ≡ take size (drop from text)
    → read_sections text headed ≡ behind
    → (b ≡ false → is_blank before ≡ true)
    → (blank : Text) × (is_blank blank ≡ true)
      × (before ++ behind
          ≡ blank
            ++ read_sections text (
                if b
                then record { heading = []; offset = from; length = size } ∷ headed
                else headed))
unfolding is_blank
tile text before true from size headed behind e r h =
    ([], refl, ap (λ t. t ++ behind) e ∙ ap (λ t. take size (drop from text) ++ t) (sym r))
tile text before false from size headed behind e r h =
    (before, h refl, ap (λ t. before ++ t) (sym r))

-- The sections of a text whose outline is not cut, read one behind the other by their offsets and
-- lengths, are all of the body of the text but the white space before its first heading, which is
-- left out where nothing else stands there.
pub sections_of-tile :
    (text : Text)
    → (outline_markdown text).truncated ≡ false
    → (blank : Text) × (is_blank blank ≡ true)
      × (drop (body_offset_of text) text ≡ blank ++ read_sections text (sections_of text none))
unfolding sections_of outline_markdown
sections_of-tile text whole =
    let o = body_offset_of text in
    let found = found_headings text in
    let fits : length found ≤ max_outline_headings = ground arith in
    let ascends = found_headings-Ascends text in
    let end = next_offset (length text) found in
    let outline = headings_of (length text) max_outline_headings found in
    let e = preamble_end_lem (length text) max_outline_headings found fits in
    let (blank, white, tiled) =
      tile text (slice text o (preamble_end (length text) outline))
        (has_preamble text o (preamble_end (length text) outline)) o
        (preamble_end (length text) outline - o) (headed_sections outline (heading_paths outline))
        (drop end text) refl
        (read_headed text outline (heading_paths outline)
          ∙ read_all_headings text max_outline_headings o found fits ascends)
        (no_preamble-blank text o (preamble_end (length text) outline)) in
    (
      blank,
      white,
      sym (slice-append text o end (first_offset-le text o found (body_offset_of-le text) ascends))
          ∙ ap (λ k. slice text o k ++ drop end text) (sym e)
          ∙ tiled,
    )
