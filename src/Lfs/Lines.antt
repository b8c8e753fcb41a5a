-- ===== src/Lfs/Lines.antt =====
-- The loop over the lines of a pointer of packages/core/src/lfs.ts: the last line of each kind stands.
use skillcdn.Common.{
  ℕ, ◌≡◌, refl, ap, ◌∙◌, ◌↔◌, ◌⊎◌, inl, inr, List, [], ◌∷◌, ◌++◌, Option, none, some, All,
  Option-cases,
}
use skillcdn.Text.{Text}
use skillcdn.Lfs.{read_oid, read_size, read_lines}
use skillcdn.Lfs.Grammar.{IsOidLine, IsSizeLine}
use skillcdn.Lfs.Oids.{read_oid_iff}
use skillcdn.Lfs.Sizes.{read_size_iff, oid_no_size}

-- The last line that says something says this.
pub record IsLast {V : Type 0} (Says : Text → V → Type 0) (lines : List Text) (v : V) : Type 0 where
  pub before : List Text
  pub line : Text
  pub after : List Text
  pub all_lines : lines ≡ before ++ (line ∷ after)
  pub says : Says line v
  pub none_after : All (λ l. (w : V) → ¬ (Says l w)) after

abbrev pub last_read : {V : Type 0} → (Text → Option V) → Option V → List Text → Option V
last_read read before [] = before
last_read read before (line ∷ lines) =
    last_read read (elim (read line) [ none ↦ before | some v ↦ some v ]) lines

module _ {V : Type 0} (read : Text → Option V) (Says : Text → V → Type 0)
    (read_iff : (line : Text) (v : V) → (read line ≡ some v) ↔ Says line v) where
  unread : (line : Text) → read line ≡ none → (w : V) → ¬ (Says line w)
  unread line e w s = cc (e, (read_iff line w).1 s)

  last_read-IsLast :
      (before : Option V) (lines : List Text) (v : V)
      → last_read read before lines ≡ some v
      → IsLast Says lines v ⊎ ((before ≡ some v) × All (λ l. (w : V) → ¬ (Says l w)) lines)
  last_read-IsLast before [] v h = inr (h, tt)
  last_read-IsLast before (line ∷ lines) v h = elim (Option-cases (read line)) [
    | inr (w, e) ↦ elim (last_read-IsLast (some w) lines v (rw e at h)) [
      | inl k ↦ inl (later line lines v k)
      | inr (f, unsaid) ↦ inl (record {
        before = [];
        line = line;
        after = lines;
        all_lines = refl;
        says = (read_iff line v).0 (e ∙ f);
        none_after = unsaid;
      })
    ]
    | inl e ↦ elim (last_read-IsLast before lines v (rw e at h)) [
      | inl k ↦ inl (later line lines v k)
      | inr (f, unsaid) ↦ inr (f, (unread line e, unsaid))
    ]
  ]
    where
      later :
          (line : Text) (lines : List Text) (v : V)
          → IsLast Says lines v
          → IsLast Says (line ∷ lines) v
      later line lines v k = record {
        before = line ∷ k.before;
        line = k.line;
        after = k.after;
        all_lines = ap (λ ls. line ∷ ls) k.all_lines;
        says = k.says;
        none_after = k.none_after;
      }

  nothing_read :
      (before : Option V) (lines : List Text)
      → All (λ l. (w : V) → ¬ (Says l w)) lines
      → last_read read before lines ≡ before
  nothing_read before [] h = refl
  nothing_read before (line ∷ lines) (h, hs) = elim (Option-cases (read line)) [
    | inr (w, e) ↦ absurd (h w ((read_iff line w).0 e))
    | inl e ↦ rw e (nothing_read before lines hs)
  ]

  last_read_at :
      (front : List Text) (before : Option V) (line : Text) (after : List Text) (v : V)
      → read line ≡ some v
      → All (λ l. (w : V) → ¬ (Says l w)) after
      → last_read read before (front ++ (line ∷ after)) ≡ some v
  last_read_at [] before line after v e h = rw (e, last_read) (nothing_read (some v) after h)
  last_read_at (l ∷ front) before line after v e h = last_read_at front _ line after v e h

  pub last_read_iff :
      (lines : List Text) (v : V) → (last_read read none lines ≡ some v) ↔ IsLast Says lines v
  last_read_iff lines v = (
    λ h. elim (last_read-IsLast none lines v h) [ inl k ↦ k | inr (e, unsaid) ↦ cc ],
    λ k.
        ap (last_read read none) k.all_lines
        ∙ last_read_at k.before none k.line k.after v ((read_iff k.line v).1 k.says) k.none_after,
  )

read_lines_lem :
    (oid : Option Text) (size : Option ℕ) (lines : List Text)
    → read_lines oid size lines ≡ (last_read read_oid oid lines, last_read read_size size lines)
unfolding read_lines skillcdn.Text.starts_with
read_lines_lem oid size [] = refl
read_lines_lem oid size (line ∷ lines) = elim (Option-cases (read_oid line)) [
  | inr (v, e) ↦
      rw (e, oid_no_size line v ((read_oid_iff line v).0 e)) (read_lines_lem (some v) size lines)
  | inl e ↦ elim (Option-cases (read_size line)) [
    | inr (n, f) ↦ rw (e, f) (read_lines_lem oid (some n) lines)
    | inl f ↦ rw (e, f) (read_lines_lem oid size lines)
  ]
]

pub read_lines-oid :
    (lines : List Text) (v : Text)
    → ((read_lines none none lines).0 ≡ some v) ↔ IsLast IsOidLine lines v
read_lines-oid lines v =
    rw (read_lines_lem none none lines) (last_read_iff read_oid IsOidLine read_oid_iff lines v)

pub read_lines-size :
    (lines : List Text) (n : ℕ)
    → ((read_lines none none lines).1 ≡ some n) ↔ IsLast IsSizeLine lines n
read_lines-size lines n =
    rw (read_lines_lem none none lines) (last_read_iff read_size IsSizeLine read_size_iff lines n)
