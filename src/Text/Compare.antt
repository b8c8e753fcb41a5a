-- ===== src/Text/Compare.antt =====
-- What the Boolean comparisons of texts decide.
use skillcdn.Common.{
  ◌≡◌, refl, ◌↔◌, ◌≢◌, true, false, List, [], ◌∷◌, ◌++◌, arith, In, head, tail, Bool-cases, inl,
  inr,
}
use skillcdn.Text.{Text, same, starts_with, has}

pub same_refl : (s : Text) → same s s ≡ true
unfolding same
same_refl [] = refl
same_refl (c ∷ s) = ground (arith, same_refl s)

pub same→eq : (s t : Text) → same s t ≡ true → s ≡ t
unfolding same
same→eq [] [] h = refl
same→eq [] (d ∷ t) h = cc
same→eq (c ∷ s) [] h = cc
same→eq (c ∷ s) (d ∷ t) h = ground (arith, same→eq s t)

pub same_iff : (s t : Text) → (same s t ≡ true) ↔ (s ≡ t)
same_iff s t = (same→eq s t, λ e. rw e (same_refl t))

pub same_ne : (s t : Text) → s ≢ t → same s t ≡ false
same_ne s t h = ground (arith, same_iff s t)

pub starts_with→append : (s p : Text) → starts_with s p ≡ true → (r : Text) × (s ≡ p ++ r)
unfolding starts_with
starts_with→append s [] h = (s, refl)
starts_with→append [] (d ∷ p) h = cc
starts_with→append (c ∷ s) (d ∷ p) h =
    let (r, e) = starts_with→append s p (ground arith) in (r, ground arith)

pub starts_with-append : (p r : Text) → starts_with (p ++ r) p ≡ true
unfolding starts_with
starts_with-append [] [] = refl
starts_with-append [] (c ∷ r) = refl
starts_with-append (c ∷ p) r = ground (arith, starts_with-append p r)

pub has→In : (ts : List Text) (s : Text) → has ts s ≡ true → In s ts
unfolding has
has→In [] s h = cc
has→In (t ∷ ts) s h = elim (Bool-cases (same t s)) [
  | inl e ↦ head (same→eq t s e)
  | inr n ↦ tail (has→In ts s (rw n at h))
]

pub In→has : {s : Text} {ts : List Text} → In s ts → has ts s ≡ true
unfolding has
In→has {s} (head e) = rw (e, same_refl s)
In→has {s} (tail {x} m) = ground (arith, In→has m)
