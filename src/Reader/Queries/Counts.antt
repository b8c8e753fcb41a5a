-- ===== src/Reader/Queries/Counts.antt =====
-- The counts of a mount against its listings.
use skillcdn.Common.{
  ℕ, zero, suc, ◌+◌, ◌≤◌, ◌≡◌, refl, ap, ◌∙◌, Bool, List, [], ◌∷◌, some, length, take, keep, arith,
}
use skillcdn.Common.Sort.{sort, length-sort}
use skillcdn.Text.{Text}
use skillcdn.IndexEntry.{IndexEntry}
use skillcdn.Reader.Queries.{
  EntryCounts, count_entry, count_from, count_entries, list_entries, is_listed, skills,
  documents_outside_skills, skills_first,
}

length-take_all {ℓ} :
    {A : Type ℓ} (n : ℕ) (xs : List A) → length xs ≤ n → length (take n xs) ≡ length xs
length-take_all zero [] h = refl
length-take_all zero (x ∷ xs) h = absurd (omega arith)
length-take_all (suc n) [] h = refl
length-take_all (suc n) (x ∷ xs) h = ap suc (length-take_all n xs (omega arith))

length-keep-le {ℓ} : {A : Type ℓ} (p : A → Bool) (xs : List A) → length (keep p xs) ≤ length xs
length-keep-le p [] = omega arith
length-keep-le p (x ∷ xs) = ground (arith, length-keep-le p xs)

module _ (m : Text) where
  abbrev skills_in : List IndexEntry → ℕ
  skills_in entries = length (keep (is_listed (some skills) m) entries)

  abbrev documents_in : List IndexEntry → ℕ
  documents_in entries = length (keep (is_listed (some documents_outside_skills) m) entries)

  count_from_lem :
      (counts : EntryCounts) (entries : List IndexEntry)
      → count_from m counts entries ≡ record {
        skills = counts.skills + skills_in entries;
        documents = counts.documents + documents_in entries;
      }
  unfolding count_from
  count_from_lem counts [] = ground arith
  count_from_lem counts (entry ∷ entries) =
      ground (arith, count_from_lem (count_entry m counts entry) entries)

-- The counts of a mount are the lengths of its two listings, of the skills and of the documents
-- outside the skills, under any limit that is at least the number of the entries.
pub count_entries_lem :
    (entries : List IndexEntry) (m : Text) (limit : ℕ)
    → length entries ≤ limit
    → count_entries entries m ≡ record {
      skills = length (list_entries entries m limit (some skills));
      documents = length (list_entries entries m limit (some documents_outside_skills));
    }
unfolding count_entries list_entries
count_entries_lem entries m limit h =
    let a = λ (p : IndexEntry → Bool).
      length-take_all limit (sort skills_first (keep p entries))
        (omega (arith, length-sort skills_first (keep p entries), length-keep-le p entries))
      ∙ length-sort skills_first (keep p entries) in
    ground (
      arith,
      count_from_lem m (record { skills = 0; documents = 0 }) entries,
      a (is_listed (some skills) m),
      a (is_listed (some documents_outside_skills) m),
    )
