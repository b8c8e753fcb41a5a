-- ===== src/Lfs/Pointers.antt =====
-- Which texts are pointers: `parseLfsPointer` of packages/core/src/lfs.ts.
use skillcdn.Common.{
  ℕ, ◌≤◌, ◌≡◌, refl, ap, ◌∙◌, ◌≢◌, ◌↔◌, inl, inr, true, false, ◌||◌, not, List, [], ◌∷◌, ◌++◌,
  Option, none, some, ltb, length, arith, Bool-cases,
}
use skillcdn.Text.{Text, codes, starts_with, split, join}
use skillcdn.Text.Compare.{starts_with→append}
use skillcdn.Text.Split.{split-ne-nil, join-split}
use skillcdn.Lfs.{
  LfsPointer, max_pointer_length, read_lines, pointer_of, names_version, after_first,
  parse_lfs_pointer,
}
use skillcdn.Lfs.Grammar.{IsOidLine, IsSizeLine, IsVersionLine}
use skillcdn.Lfs.Versions.{named-IsVersionLine, IsVersionLine-named}
use skillcdn.Lfs.Lines.{IsLast, read_lines-oid, read_lines-size}

-- A text that is a pointer, by its lines.
pub record IsPointer (text : Text) (p : LfsPointer) : Type 0 where
  pub short : length text ≤ 1024
  pub first : Text
  pub rest : List Text
  pub lines : split b'\n' text ≡ first ∷ rest
  pub version : IsVersionLine first
  pub hash : IsLast IsOidLine rest p.oid
  pub size : IsLast IsSizeLine rest p.size

-- The first line of a text that starts with the word starts with it.
first_line :
    (text : Text)
    → starts_with text (codes "version ") ≡ true
    → (rest : Text) × (lines : List Text) × (split b'\n' text ≡ (codes "version " ++ rest) ∷ lines)
unfolding split
first_line text h =
    let (r, e) = starts_with→append text (codes "version ") h in
    let (x, xs, f) = first_of (split b'\n' r) (split-ne-nil b'\n' r) in (x, xs, rw (e, f) refl)
  where
    first_of : (ls : List Text) → ls ≢ [] → (x : Text) × (xs : List Text) × (ls ≡ x ∷ xs)
    first_of [] n = absurd (n refl)
    first_of (x ∷ xs) n = (x, xs, refl)

-- A text whose first line starts with the word starts with it.
starts_of_first :
    (text rest : Text) (lines : List Text)
    → split b'\n' text ≡ (codes "version " ++ rest) ∷ lines
    → starts_with text (codes "version ") ≡ true
unfolding join starts_with
starts_of_first text rest lines h = rw (← join-split b'\n' text, h) (joined lines)
  where
    joined :
        (ls : List Text)
        → starts_with (join b'\n' ((codes "version " ++ rest) ∷ ls)) (codes "version ") ≡ true
    joined [] = refl
    joined (l ∷ ls) = refl

pointer_of_iff :
    (o : Option Text × Option ℕ) (p : LfsPointer)
    → (pointer_of o ≡ some p) ↔ ((o.0 ≡ some p.oid) × (o.1 ≡ some p.size))
unfolding pointer_of
pointer_of_iff (none, s) p = (λ h. cc, λ h. cc)
pointer_of_iff (some oid, none) p = (λ h. cc, λ h. cc)
pointer_of_iff (some oid, some size) p = (
  λ h.
      let q : record { oid = oid; size = size } ≡ p = cc in
      (ap (λ x. some x.oid) q, ap (λ x. some x.size) q),
  λ (e, f).
      let g : oid ≡ p.oid = cc in
      let k : size ≡ p.size = cc in λ i. some (record { oid = g i; size = k i }),
)

named_lines :
    (rest : Text) (lines : List Text)
    → names_version ((codes "version " ++ rest) ∷ lines) ≡ true
    → IsVersionLine (codes "version " ++ rest)
unfolding names_version
named_lines rest lines h = named-IsVersionLine rest h

lines_named :
    (first : Text) (lines : List Text) → IsVersionLine first → names_version (first ∷ lines) ≡ true
unfolding names_version
lines_named first lines k = IsVersionLine-named first k

parsed-IsPointer :
    (text : Text) (p : LfsPointer) → parse_lfs_pointer text ≡ some p → IsPointer text p
unfolding parse_lfs_pointer
parsed-IsPointer text p h =
    elim (Bool-cases
      (ltb max_pointer_length (length text) || not (starts_with text (codes "version ")))) [
        | inl out ↦ cc (rw out at h)
        | inr short ↦ elim (Bool-cases (names_version (split b'\n' text))) [
          | inr unnamed ↦ cc (rw (short, unnamed) at h)
          | inl named ↦
              let (rest, lines, e) = first_line text (ground arith) in
              let (hash, size) =
                (pointer_of_iff (read_lines none none (after_first (split b'\n' text))) p).0
                  (rw (short, named) at h) in
              record {
                short = ground arith;
                first = codes "version " ++ rest;
                rest = lines;
                lines = e;
                version = named_lines rest lines (rw e at named);
                hash = (read_lines-oid lines p.oid).0 (rw e at hash);
                size = (read_lines-size lines p.size).0 (rw e at size);
              }
        ]
      ]

IsPointer-parsed :
    (text : Text) (p : LfsPointer) → IsPointer text p → parse_lfs_pointer text ≡ some p
unfolding parse_lfs_pointer
IsPointer-parsed text p k =
    let starts : starts_with text (codes "version ") ≡ true =
      starts_of_first text (k.version.left ++ (k.version.url ++ k.version.right)) k.rest
        (k.lines ∙ ap (λ f. f ∷ k.rest) k.version.written) in
    let short : (ltb max_pointer_length (length text) || not (starts_with text (codes "version ")))
        ≡ false =
      ground arith in
    rw (short, k.lines, lines_named k.first k.rest k.version)
      ((pointer_of_iff (read_lines none none k.rest) p).1
        ((read_lines-oid k.rest p.oid).1 k.hash, (read_lines-size k.rest p.size).1 k.size))

-- A text is read as a pointer exactly if it has at most 1024 code units, its first line is `version ` and
-- the URL of a known specification with spaces around it, and of the lines behind the first the last
-- that is `oid sha256:`, 64 lower-case hexadecimal digits and spaces gives the hash, and the last that is
-- `size `, 1 to 15 digits and spaces gives the size, which is what its decimal digits are worth.
pub parse_lfs_pointer_iff :
    (text : Text) (p : LfsPointer) → (parse_lfs_pointer text ≡ some p) ↔ IsPointer text p
parse_lfs_pointer_iff text p = (parsed-IsPointer text p, IsPointer-parsed text p)
