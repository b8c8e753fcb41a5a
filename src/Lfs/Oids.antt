-- ===== src/Lfs/Oids.antt =====
-- Which lines give the hash of a pointer, packages/core/src/lfs.ts.
use skillcdn.Common.{
  ℕ, ◌≡◌, refl, sym, ap, ◌∙◌, subst, ◌↔◌, inl, inr, Bool, ◌&&◌, ◌++◌, some, ◌==◌, length, take,
  drop, all, All, Bool-cases, take-append, drop-append, All-map, ==_iff, take-append-drop,
}
use skillcdn.Text.{Text, codes, starts_with}
use skillcdn.Text.Compare.{starts_with→append, starts_with-append}
use skillcdn.License.Words.{is_space}
use skillcdn.Lfs.{is_lower_hex, read_oid}
use skillcdn.Lfs.Grammar.{IsLowerHex, IsOidLine}
use skillcdn.Lfs.Units.{all→All, All→all, is_lower_hex_iff, and_four}

take-drop_of :
    (n : ℕ) (xs ys : Text) → length xs ≡ n → (take n (xs ++ ys) ≡ xs) × (drop n (xs ++ ys) ≡ ys)
take-drop_of n xs ys h =
    subst (λ k. (take k (xs ++ ys) ≡ xs) × (drop k (xs ++ ys) ≡ ys)) h
      (take-append xs ys, drop-append xs ys)

read_oid-some : (line v : Text) → read_oid line ≡ some v → IsOidLine line v
unfolding read_oid
read_oid-some line v h = elim (Bool-cases test) [
  | inr fails ↦ cc (rw fails at h)
  | inl holds ↦
      let (starts, long, hex, blank) =
        (and_four (starts_with line (codes "oid sha256:")) (length (take 64 value) == 64)
            (all is_lower_hex (take 64 value)) (all is_space (drop 64 value))).0
          holds in
      let (r, e) = starts_with→append line (codes "oid sha256:") starts in
      let same_value : value ≡ r = ap (drop 11) e in
      let q : some (take 64 value) ≡ some v = rw holds at h in
      let same_oid : take 64 value ≡ v = cc in
      record {
        spaces = drop 64 value;
        written =
            e
            ∙ ap (λ t. codes "oid sha256:" ++ t)
                (sym same_value
                  ∙ sym (take-append-drop 64 value)
                  ∙ ap (λ t. t ++ drop 64 value) same_oid);
        long = ap length (sym same_oid) ∙ (==_iff (length (take 64 value)) 64).0 long;
        hexadecimal = subst (All IsLowerHex) same_oid (
            All-map (λ c k. (is_lower_hex_iff c).0 k) (take 64 value)
              (all→All is_lower_hex (take 64 value) hex));
        blank = all→All is_space (drop 64 value) blank;
      }
]
  where
    value : Text
    value = drop 11 line

    test : Bool
    test =
        starts_with line (codes "oid sha256:")
        && length (take 64 value) == 64
        && all is_lower_hex (take 64 value)
        && all is_space (drop 64 value)

some-read_oid : (line v : Text) → IsOidLine line v → read_oid line ≡ some v
unfolding read_oid
some-read_oid line v k =
    let (oid, spaces) = take-drop_of 64 v k.spaces k.long in
    rw
      (
        k.written,
        oid,
        spaces,
        starts_with-append (codes "oid sha256:") (v ++ k.spaces),
        k.long,
        All→all is_lower_hex v (All-map (λ c h. (is_lower_hex_iff c).1 h) v k.hexadecimal),
        All→all is_space k.spaces k.blank,
      )
      refl

pub read_oid_iff : (line v : Text) → (read_oid line ≡ some v) ↔ IsOidLine line v
read_oid_iff line v = (read_oid-some line v, some-read_oid line v)
