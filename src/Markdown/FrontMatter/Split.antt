-- ===== src/Markdown/FrontMatter/Split.antt =====
-- What the front matter of a file is, and that nothing of the file is lost.
use skillcdn.Common.{
  ℕ, zero, suc, ◌≡◌, refl, ap, subst, ◌∙◌, sym, true, false, List, [], ◌∷◌, ◌++◌, Option, none,
  some, take, drop, arith, if◌then◌else◌, Bool-cases, inl, inr, All, append_assoc, append-nil,
  ==_iff,
}
use skillcdn.Text.{Text, index_of, split, join}
use skillcdn.Text.Split.{Lacks, join-split, split-Lacks}
use skillcdn.Markdown.FrontMatter.{
  absent, found, closed_at, split_front_matter, is_delimiter_line, opening, closing, without_mark,
  line_break,
}

index_of-some :
    (c : ℕ) (s : Text) (i : ℕ) → index_of c s ≡ some i → s ≡ take i s ++ (c ∷ drop (suc i) s)
unfolding index_of
index_of-some c [] i h = cc
index_of-some c (d ∷ s) zero h = ground (arith, ==_iff d c)
index_of-some c (d ∷ s) (suc i) h = ground (arith, index_of-some c s i)

index_of-Lacks : (c : ℕ) (s : Text) (i : ℕ) → index_of c s ≡ some i → Lacks c (take i s)
unfolding index_of
index_of-Lacks c [] i h = cc
index_of-Lacks c (d ∷ s) zero h = tt
index_of-Lacks c (d ∷ s) (suc i) h = ground (arith, index_of-Lacks c s i, ==_iff d c)

-- Lines, each with its line break.
abbrev pub unlines : List Text → Text
unlines [] = []
unlines (line ∷ lines) = (line ++ (line_break ∷ [])) ++ unlines lines

abbrev pub IsNoDelimiter : Text → Type 0
IsNoDelimiter line = is_delimiter_line line closing ≡ false

-- The lines of a file behind its first: those of the front matter, the line that ends it, and the
-- lines of the body.
pub record IsClosed (source body : Text) (lines : List Text) : Type 0 where
  pub passed : List Text
  pub end : Text
  pub rest : List Text
  pub all_lines : lines ≡ passed ++ (end ∷ rest)
  pub is_source : source ≡ unlines passed
  pub is_body : body ≡ join line_break rest
  pub none_before : All IsNoDelimiter passed
  pub ends : is_delimiter_line end closing ≡ true

closed_at_lem :
    (before : Text) (lines : List Text) (source body : Text)
    → closed_at before lines ≡ found source body
    → (inner : Text) × IsClosed inner body lines × (source ≡ before ++ inner)
unfolding closed_at
closed_at_lem before [] source body h = cc
closed_at_lem before (line ∷ lines) source body h =
    elim (Bool-cases (is_delimiter_line line closing)) [
      | inl last ↦
          let e : found before (join line_break lines) ≡ found source body = rw (← h, last) refl in
          (
            [],
            record {
              passed = [];
              end = line;
              rest = lines;
              all_lines = refl;
              is_source = refl;
              is_body = cc;
              none_before = tt;
              ends = last;
            },
            cc (append-nil before),
          )
      | inr more ↦
          let (inner, c, e) =
            closed_at_lem (before ++ (line ++ (line_break ∷ []))) lines source body
              (rw more at h) in
          (
            (line ++ (line_break ∷ [])) ++ inner,
            record {
              passed = line ∷ c.passed;
              end = c.end;
              rest = c.rest;
              all_lines = ap (λ ls. line ∷ ls) c.all_lines;
              is_source = ap (λ t. (line ++ (line_break ∷ [])) ++ t) c.is_source;
              is_body = c.is_body;
              none_before = (more, c.none_before);
              ends = c.ends;
            },
            e ∙ append_assoc before (line ++ (line_break ∷ [])) inner,
          )
    ]

-- A text that has front matter is, but for a byte order mark, its first line, which is a delimiter,
-- the lines of the front matter, none of which is a delimiter, a line that is one, and the lines of
-- the body; no line holds a line break, and the front matter and the body that are found are those
-- lines.
pub split_front_matter_lem :
    (text source body : Text)
    → split_front_matter text ≡ found source body
    → (first : Text) × (rest : List Text) × (is_delimiter_line first opening ≡ true)
      × Lacks line_break first
      × All (Lacks line_break) rest
      × (without_mark text ≡ first ++ (line_break ∷ join line_break rest))
      × IsClosed source body rest
unfolding split_front_matter
split_front_matter_lem text source body h = go (index_of line_break (without_mark text)) refl h
  where
    go :
        (o : Option ℕ)
        → index_of line_break (without_mark text) ≡ o
        → elim o [
          | none ↦ absent (without_mark text)
          | some first_break ↦
              if is_delimiter_line (take first_break (without_mark text)) opening
              then closed_at [] (split line_break (drop (suc first_break) (without_mark text)))
              else absent (without_mark text)
        ]
          ≡ found source body
        → (first : Text) × (rest : List Text) × (is_delimiter_line first opening ≡ true)
          × Lacks line_break first
          × All (Lacks line_break) rest
          × (without_mark text ≡ first ++ (line_break ∷ join line_break rest))
          × IsClosed source body rest
    go none e k = cc
    go (some i) e k =
        let content = without_mark text in
        let lines = split line_break (drop (suc i) content) in
        elim (Bool-cases (is_delimiter_line (take i content) opening)) [
          | inr other ↦ let q : absent content ≡ found source body = rw other at k in cc q
          | inl opens ↦
              let (inner, c, same_source) = closed_at_lem [] lines source body (rw opens at k) in
              (
                take i content,
                lines,
                opens,
                index_of-Lacks line_break content i e,
                split-Lacks line_break (drop (suc i) content),
                index_of-some line_break content i e
                    ∙ ap (λ t. take i content ++ (line_break ∷ t))
                        (sym (join-split line_break (drop (suc i) content))),
                subst (λ s. IsClosed s body lines) (sym same_source) c,
              )
        ]
