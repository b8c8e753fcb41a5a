-- ===== src/Markdown/Outline/Ascent.antt =====
-- The offsets of the headings of a document ascend, from the start of its body to its end.
use skillcdn.Common.{
  ℕ, zero, suc, ◌+◌, ◌-◌, ◌≤◌, ◌<◌, ◌≡◌, refl, true, false, List, [], ◌∷◌, ◌++◌, Option, none, some,
  length, take, drop, arith, if◌then◌else◌, Bool-cases, inl, inr,
}
use skillcdn.Text.{Text, split, onto_first}
use skillcdn.License.Words.{trim_end}
use skillcdn.Markdown.FrontMatter.{
  FrontMatterSplit, absent, unterminated, split_front_matter, line_break,
}
use skillcdn.Markdown.Lines.{is_blank, is_no_paragraph}
use skillcdn.Markdown.Blocks.{consume_block_line}
use skillcdn.Markdown.Outline.{
  FoundHeading, Scan, prose_behind, prose_first, max_heading_line_length, heading_text,
  end_paragraph, push_heading, continue_paragraph, prose_line, open_line, scan_line, scan_lines,
  new_scan, body_offset_of, found_headings, underlined, heading_of, empty_heading_of,
}

-- Offsets that ascend, from one bound to below another.
abbrev pub Ascends : ℕ → List FoundHeading → ℕ → Type 0
Ascends lo [] hi = lo ≤ hi
Ascends lo (f ∷ found) hi = (lo ≤ f.offset) × Ascends (suc f.offset) found hi

Ascends-up :
    (lo : ℕ) (found : List FoundHeading) (hi hi' : ℕ)
    → Ascends lo found hi
    → hi ≤ hi'
    → Ascends lo found hi'
Ascends-up lo [] hi hi' h k = omega arith
Ascends-up lo (f ∷ found) hi hi' (a, h) k = (a, Ascends-up (suc f.offset) found hi hi' h k)

Ascends-push :
    (lo : ℕ) (found : List FoundHeading) (f : FoundHeading) (hi : ℕ)
    → Ascends lo found f.offset
    → f.offset < hi
    → Ascends lo (found ++ (f ∷ [])) hi
Ascends-push lo [] f hi h k = (h, k)
Ascends-push lo (g ∷ found) f hi (a, h) k = (a, Ascends-push (suc g.offset) found f hi h k)

-- The headings found so far lie before the paragraph that is open, which starts before the line.
abbrev Before : ℕ → List FoundHeading → Option ℕ → ℕ → Type 0
Before lo found none at = Ascends lo found at
Before lo found (some start) at = Ascends lo found start × (start < at)

abbrev IsAscending : ℕ → ℕ → Scan → Type 0
IsAscending lo at s = Before lo s.found s.paragraph_start at

found_ascend :
    (lo at : ℕ) (found : List FoundHeading) (start : Option ℕ)
    → Before lo found start at
    → Ascends lo found at
found_ascend lo at found none h = h
found_ascend lo at found (some start) (h, k) = Ascends-up lo found start at h (omega arith)

module _ (lo at at' : ℕ) (later : at < at') where
  ended : (s : Scan) → IsAscending lo at s → Ascends lo s.found at'
  ended s h =
      Ascends-up lo s.found at at' (found_ascend lo at s.found s.paragraph_start h) (omega arith)

  pushed :
      (level : ℕ) (text : Text) (s : Scan)
      → IsAscending lo at s
      → Ascends lo (push_heading level text at s).found at'
  pushed level text s h =
      Ascends-push lo s.found _ at' (found_ascend lo at s.found s.paragraph_start h) later

  continued :
      (head : Text) (s : Scan)
      → IsAscending lo at s
      → IsAscending lo at' (continue_paragraph at head s)
  continued head s h =
      elim s.paragraph_start
          as (λ o.
            Before lo s.found o at
            → Before lo s.found (elim o [ none ↦ some at | some start ↦ some start ]) at') [
              | none ↦ λ k. (k, later)
              | some start ↦ λ (k, l). (k, omega arith)
            ]
        h

  prose_behind-IsAscending :
      (start : ℕ) (head : Text) (s : Scan)
      → Ascends lo s.found start × (start < at)
      → IsAscending lo at s
      → IsAscending lo at' (prose_behind start at head s)
  unfolding prose_behind
  prose_behind-IsAscending start head s (h, k) v = elim (Bool-cases (underlined head)) [
    | inl yes_it_is ↦ rw yes_it_is (Ascends-push lo s.found _ at' h (omega arith))
    | inr no_it_is ↦ elim (Bool-cases (is_no_paragraph head)) [
      | inl over ↦ rw (no_it_is, over) (ended s v)
      | inr prose ↦ rw (no_it_is, prose) (continued head s v)
    ]
  ]

  prose_first-IsAscending :
      (head : Text) (s : Scan) → IsAscending lo at s → IsAscending lo at' (prose_first at head s)
  unfolding prose_first
  prose_first-IsAscending head s v = elim (Bool-cases (is_no_paragraph head)) [
    | inl over ↦ rw over (ended s v)
    | inr prose ↦ rw prose (continued head s v)
  ]

  prose_line-IsAscending :
      (head : Text) (s : Scan) → IsAscending lo at s → IsAscending lo at' (prose_line at head s)
  unfolding prose_line
  prose_line-IsAscending head s v =
      elim s.paragraph_start
          as (λ o.
            Before lo s.found o at
            → IsAscending lo at' (elim o [
              | some start ↦ prose_behind start at head s
              | none ↦ prose_first at head s
            ])) [
              | none ↦ λ k. prose_first-IsAscending head s v
              | some start ↦ λ k. prose_behind-IsAscending start head s k v
            ]
        v

  open_line-IsAscending :
      (line head : Text) (s : Scan)
      → IsAscending lo at s
      → IsAscending lo at' (open_line at line head s)
  unfolding open_line
  open_line-IsAscending line head s v = elim (Bool-cases (is_blank head)) [
    | inl blank ↦ rw blank (ended s v)
    | inr text ↦
        rw text
          (elim (heading_of line)
            as (λ o. IsAscending lo at' (elim o [
              | some (level, raw) ↦ end_paragraph (push_heading level (heading_text raw) at s)
              | none ↦ elim (empty_heading_of line) [
                | some level ↦ end_paragraph (push_heading level [] at s)
                | none ↦ prose_line at head s
              ]
            ])) [
              | some (level, raw) ↦ pushed level (heading_text raw) s v
              | none ↦
                  elim (empty_heading_of line)
                    as (λ o. IsAscending lo at' (elim o [
                      | some level ↦ end_paragraph (push_heading level [] at s)
                      | none ↦ prose_line at head s
                    ])) [
                      | some level ↦ pushed level [] s v
                      | none ↦ prose_line-IsAscending head s v
                    ]
            ])
  ]

  scan_line-IsAscending :
      (raw : Text) (s : Scan) → IsAscending lo at s → IsAscending lo at' (scan_line at raw s)
  unfolding scan_line
  scan_line-IsAscending raw s v =
      let line = trim_end raw in
      let head = take max_heading_line_length line in
      let s' = record s { blocks = (consume_block_line s.blocks head).0 } in
      elim (consume_block_line s.blocks head).1
        as (λ b. IsAscending lo at' (if b then end_paragraph s' else open_line at line head s')) [
          | true ↦ ended s v
          | false ↦ open_line-IsAscending line head s' v
        ]

-- What the lines take, each with its line break.
abbrev pub size_of : List Text → ℕ
size_of [] = 0
size_of (raw ∷ lines) = suc (length raw) + size_of lines

scan_lines-Ascends :
    (lo at : ℕ) (lines : List Text) (s : Scan)
    → IsAscending lo at s
    → Ascends lo (scan_lines at lines s).found (at + size_of lines)
unfolding scan_lines
scan_lines-Ascends lo at [] s v =
    Ascends-up lo s.found at (at + 0) (found_ascend lo at s.found s.paragraph_start v) (omega arith)
scan_lines-Ascends lo at (raw ∷ lines) s v =
    Ascends-up lo (scan_lines (at + suc (length raw)) lines (scan_line at raw s)).found
      (at + suc (length raw) + size_of lines) (at + size_of (raw ∷ lines))
      (scan_lines-Ascends lo (at + suc (length raw)) lines (scan_line at raw s)
        (scan_line-IsAscending lo at (at + suc (length raw)) (omega arith) raw s v))
      (omega arith)

size_of-onto_first :
    (c : ℕ) (parts : List Text)
    → 0 < size_of parts
    → size_of (onto_first c parts) ≡ suc (size_of parts)
size_of-onto_first c [] h = absurd (omega arith)
size_of-onto_first c (p ∷ ps) h = omega arith

size_of-split : (sep : ℕ) (s : Text) → size_of (split sep s) ≡ suc (length s)
unfolding split
size_of-split sep [] = refl
size_of-split sep (c ∷ s) =
    let ih = size_of-split sep s in ground (arith, ih, size_of-onto_first c (split sep s))

pub body_offset_of-le : (text : Text) → body_offset_of text ≤ length text
body_offset_of-le text =
    elim (split_front_matter text)
      as (λ r.
        (elim r [
          | FrontMatterSplit.found source body ↦ length text - length body
          | absent body ↦ 0
          | unterminated ↦ 0
        ])
        ≤ length text) [
          | FrontMatterSplit.found source body ↦ omega arith
          | absent body ↦ omega arith
          | unterminated ↦ omega arith
        ]

pub length-drop : (n : ℕ) (s : Text) → length (drop n s) ≡ length s - n
length-drop zero s = omega arith
length-drop (suc n) [] = omega arith
length-drop (suc n) (c ∷ s) = omega (arith, length-drop n s)

-- The offsets of the headings of a text ascend from the start of its body, and none lies behind its
-- end.
pub found_headings-Ascends :
    (text : Text) → Ascends (body_offset_of text) (found_headings text) (suc (length text))
unfolding found_headings
found_headings-Ascends text =
    let o = body_offset_of text in
    let body = drop o text in
    Ascends-up o (scan_lines o (split line_break body) new_scan).found
      (o + size_of (split line_break body)) (suc (length text))
      (scan_lines-Ascends o o (split line_break body) new_scan (omega arith))
      (omega (arith, size_of-split line_break body, length-drop o text, body_offset_of-le text))
