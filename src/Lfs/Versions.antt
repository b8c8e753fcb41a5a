-- ===== src/Lfs/Versions.antt =====
-- Which first lines name a specification, packages/core/src/lfs.ts.
use mathlib.Core.List.{reverse, reverse-append, reverse-reverse}
use skillcdn.Common.{
  ◌≡◌, refl, sym, ap, ◌∙◌, subst, ◌⊎◌, inl, inr, true, [], ◌∷◌, ◌++◌, drop, All-append, Bool-cases,
  In, head, tail,
}
use skillcdn.Text.{Text, codes, has, same}
use skillcdn.Text.Compare.{has→In}
use skillcdn.License.Words.{is_space, skip_spaces, trim}
use skillcdn.Lfs.{pointer_versions}
use skillcdn.Lfs.Grammar.{IsBlank, IsVersionLine}

-- The spaces in front of a text.
skip_spaces-front : (s : Text) → (left : Text) × IsBlank left × (s ≡ left ++ skip_spaces s)
unfolding skip_spaces
skip_spaces-front [] = ([], tt, refl)
skip_spaces-front (c ∷ s) = elim (Bool-cases (is_space c)) [
  | inr other ↦ rw other ([], tt, refl)
  | inl space ↦
      let (left, blank, e) = skip_spaces-front s in
      rw space (c ∷ left, (space, blank), ap (λ t. c ∷ t) e)
]

skip_spaces-append : (left s : Text) → IsBlank left → skip_spaces (left ++ s) ≡ skip_spaces s
unfolding skip_spaces
skip_spaces-append [] s b = refl
skip_spaces-append (c ∷ left) s (b, bs) = rw b (skip_spaces-append left s bs)

reverse-IsBlank : (s : Text) → IsBlank s → IsBlank (reverse s)
reverse-IsBlank [] b = tt
reverse-IsBlank (c ∷ s) (b, bs) =
    subst IsBlank (sym (reverse-append (c ∷ []) s))
      (All-append (λ d. is_space d ≡ true) (reverse s) (c ∷ []) (reverse-IsBlank s bs) (b, tt))

-- A text is what is left of it by `trim`, with spaces around it.
trim-around :
    (s : Text)
    → (left right : Text) × IsBlank left × IsBlank right × (s ≡ left ++ (trim s ++ right))
unfolding trim
trim-around s =
    let (left, lb, e) = skip_spaces-front s in
    let (back, bb, f) = skip_spaces-front (reverse (skip_spaces s)) in
    (
      left,
      reverse back,
      lb,
      reverse-IsBlank back bb,
      e
          ∙ ap (λ t. left ++ t)
              (sym (reverse-reverse (skip_spaces s))
                ∙ ap reverse f
                ∙ reverse-append back (skip_spaces (reverse (skip_spaces s)))),
    )

-- `trim` takes the spaces around a text that neither starts nor ends with one.
trim_of :
    (left t right : Text)
    → IsBlank left
    → IsBlank right
    → skip_spaces (t ++ right) ≡ t ++ right
    → skip_spaces (reverse t) ≡ reverse t
    → trim (left ++ (t ++ right)) ≡ t
unfolding trim
trim_of left t right lb rb starts ends =
    rw
      (
        skip_spaces-append left (t ++ right) lb,
        starts,
        reverse-append t right,
        skip_spaces-append (reverse right) (reverse t) (reverse-IsBlank right rb),
        ends,
      )
      (reverse-reverse t)

In-pointer_versions :
    (url : Text)
    → In url pointer_versions
    → (url ≡ codes "https://git-lfs.github.com/spec/v1")
      ⊎ (url ≡ codes "https://hawser.github.com/spec/v1")
In-pointer_versions url (head e) = inl (sym e)
In-pointer_versions url (tail (head e)) = inr (sym e)
In-pointer_versions url (tail (tail m)) = elim m [ ]

pub named-IsVersionLine :
    (rest : Text)
    → has pointer_versions (trim rest) ≡ true
    → IsVersionLine (codes "version " ++ rest)
named-IsVersionLine rest h =
    let (left, right, lb, rb, e) = trim-around rest in
    record {
      left = left;
      url = trim rest;
      right = right;
      written = ap (λ t. codes "version " ++ t) e;
      left_blank = lb;
      right_blank = rb;
      known = In-pointer_versions (trim rest) (has→In pointer_versions (trim rest) h);
    }

pub IsVersionLine-named :
    (line : Text) → IsVersionLine line → has pointer_versions (trim (drop 8 line)) ≡ true
unfolding skip_spaces is_space has same
IsVersionLine-named line k = elim k.known [
  | inl e ↦
      rw
        (
          k.written,
          e,
          trim_of k.left (codes "https://git-lfs.github.com/spec/v1") k.right k.left_blank
              k.right_blank refl refl,
        )
        refl
  | inr e ↦
      rw
        (
          k.written,
          e,
          trim_of k.left (codes "https://hawser.github.com/spec/v1") k.right k.left_blank
              k.right_blank refl refl,
        )
        refl
]
