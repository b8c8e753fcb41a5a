-- ===== src/Address/Locate.antt =====
-- Where the repository, the ref and the path of an address are cut.
use skillcdn.Common.{
  ℕ, ◌+◌, ◌≡◌, ◌∙◌, ◌||◌, List, [], ◌∷◌, ◌++◌, length, arith, All-append, Bool-cases, inl, inr,
  none, some, drop, take-append, append-nil,
}
use skillcdn.Text.{Text, slash, has_unit, split, join, index_of}
use skillcdn.Text.Search.{index_of-append, index_of_of_Lacks, has_unit-false}
use skillcdn.Text.Split.{Lacks, split-append, split_of_Lacks, split_unit}
use skillcdn.Result.{ok}
use skillcdn.Address.{AddressRef, repo_of, locate, cut_tail, ref_end, parse_ref}
use skillcdn.Address.Print.{mounted_path, ref_tail}

drop-past : (s : Text) (c : ℕ) (t : Text) → drop (length s + 1) (s ++ (c ∷ t)) ≡ t
drop-past [] c t = ground arith
drop-past (d ∷ s) c t = ground (arith, drop-past s c t)

ref_end-colon : (s : Text) (n : ℕ) → index_of b':' s ≡ some n → ref_end s ≡ some n
unfolding ref_end
ref_end-colon s n h = rw (h, ref_end)

ref_end-slash : (s : Text) → index_of b':' s ≡ none → ref_end s ≡ index_of slash s
unfolding ref_end
ref_end-slash s h = rw (h, ref_end)

cut_at :
    (s t : Text) (c : ℕ)
    → ref_end (s ++ (c ∷ t)) ≡ some (length s)
    → cut_tail (s ++ (c ∷ t)) ≡ (s, t)
unfolding cut_tail
cut_at s t c h = rw (h, cut_tail) (cc (take-append s (c ∷ t), drop-past s c t))

cut_whole : (s : Text) → ref_end s ≡ none → cut_tail s ≡ (s, [])
unfolding cut_tail
cut_whole s h = rw (h, cut_tail)

implicit_cut :
    (text path : Text)
    → Lacks b':' text
    → Lacks slash text
    → Lacks b':' path
    → cut_tail (text ++ mounted_path path) ≡ (text, path)
implicit_cut text [] h k l = rw (append-nil text) (
    cut_whole text
      (ref_end-slash text (index_of_of_Lacks b':' text h) ∙ index_of_of_Lacks slash text k))
implicit_cut text (c ∷ path) h k l = cut_at text (c ∷ path) slash (
    ref_end-slash _
      (index_of_of_Lacks b':' (text ++ (slash ∷ c ∷ path)) (All-append _ text _ h (omega arith, l)))
    ∙ index_of-append slash text (c ∷ path) k)

-- The tail of an address is cut into its ref and its path.
pub cut_tail-ref_tail :
    (text path : Text) → Lacks b':' text → cut_tail (ref_tail text path text path) ≡ (text, path)
unfolding ref_tail
cut_tail-ref_tail text path h = elim (Bool-cases (has_unit slash text || has_unit b':' path)) [
  | inl explicit ↦
      rw explicit
        (cut_at text path b':' (ref_end-colon _ (length text) (index_of-append b':' text path h)))
  | inr implicit ↦ rw implicit (
      implicit_cut text path h (has_unit-false slash text (ground arith))
        (has_unit-false b':' path (ground arith)))
]

-- The segments of a text that starts with a name, behind it an `@`.
pub repo_segments :
    (repo text : Text) (x : Text) (xs : List Text)
    → Lacks slash repo
    → split slash text ≡ x ∷ xs
    → split slash (repo ++ (b'@' ∷ text)) ≡ (repo ++ (b'@' ∷ x)) ∷ xs
repo_segments repo text x xs h e = rw (
  split-append slash repo (b'@' ∷ text),
  split_of_Lacks slash repo h,
  split_unit slash b'@' text (omega arith),
  e,
)

-- The repository and the ref are read from the `@` of the repository's segment.
pub repo_of-at : (repo x : Text) → Lacks b'@' repo → repo_of (repo ++ (b'@' ∷ x)) ≡ repo
unfolding repo_of
repo_of-at repo x h = rw (index_of-append b'@' repo x h, repo_of) (take-append repo (b'@' ∷ x))

pub repo_of-none : (repo : Text) → Lacks b'@' repo → repo_of repo ≡ repo
unfolding repo_of
repo_of-none repo h = rw (index_of_of_Lacks b'@' repo h, repo_of)

pub locate-none :
    (repo : Text) (rest : List Text)
    → Lacks b'@' repo
    → locate repo rest ≡ ok (none, join slash rest)
unfolding locate
locate-none repo rest h = rw (index_of_of_Lacks b'@' repo h, locate)

pub locate-at :
    (repo x : Text) (xs : List Text) (text path : Text) (ref : AddressRef)
    → Lacks b'@' repo
    → cut_tail (join slash (x ∷ xs)) ≡ (text, path)
    → parse_ref text ≡ ok ref
    → locate (repo ++ (b'@' ∷ x)) xs ≡ ok (some ref, path)
unfolding locate
locate-at repo x xs text path ref h e r =
    rw (index_of-append b'@' repo x h, locate, drop-past repo b'@' x, e, r)
