-- ===== src/SkillListing/Limits.antt =====
-- Which skills are listed on their own.
use skillcdn.Common.{
  ℕ, ◌+◌, ◌≤◌, ◌≡◌, refl, ◌↔◌, ◌⊎◌, inl, inr, Bool, true, false, ◌&&◌, not, List, [], ◌∷◌, none,
  some, ltb, is_empty, length, arith, Bool-cases, if◌then◌else◌,
}
use skillcdn.Text.{Text, same}
use skillcdn.Text.Compare.{same_iff}
use skillcdn.RepoLayout.{base_name}
use skillcdn.SkillListing.{
  SkillListingInput, SkillListingProblem, name_directory_mismatch, too_many_files, too_large,
  total_size, skill_listing_problem, skill_listing_max_files, skill_listing_max_bytes,
}

abbrev pub sum : List ℕ → ℕ
sum [] = 0
sum (size ∷ sizes) = size + sum sizes

total-sum : (total : ℕ) (sizes : List ℕ) → total_size total sizes ≡ total + sum sizes
unfolding total_size
total-sum total [] = omega arith
total-sum total (size ∷ sizes) = omega (arith, total-sum (total + size) sizes)

-- A skill that a host can hold.
pub record IsListed (input : SkillListingInput) : Type 0 where
  pub named : (input.directory ≡ []) ⊎ (base_name input.directory ≡ input.name)
  pub few : length input.sizes ≤ skill_listing_max_files
  pub small : sum input.sizes ≤ skill_listing_max_bytes

named_iff :
    (directory name : Text)
    → ((not (is_empty directory) && not (same (base_name directory) name)) ≡ false)
      ↔ ((directory ≡ []) ⊎ (base_name directory ≡ name))
named_iff [] name = (λ h. inl refl, λ h. refl)
named_iff (c ∷ d) name = elim (Bool-cases (same (base_name (c ∷ d)) name)) [
  | inl e ↦ rw e (λ h. inr ((same_iff _ name).0 e), λ h. refl)
  | inr n ↦ rw n (
    λ h. cc,
    λ h. elim h [ inl e ↦ cc | inr e ↦ cc (n, (same_iff (base_name (c ∷ d)) name).1 e) ],
  )
]

three :
    (a b c : Bool) (p q r : SkillListingProblem)
    → ((if a then some p else if b then some q else if c then some r else none) ≡ none)
      ↔ ((a ≡ false) × (b ≡ false) × (c ≡ false))
three true b c p q r = (λ h. cc, λ (x, y, z). cc)
three false true c p q r = (λ h. cc, λ (x, y, z). cc)
three false false true p q r = (λ h. cc, λ (x, y, z). cc)
three false false false p q r = (λ h. (refl, refl, refl), λ h. refl)

-- A skill has no problem of its own exactly if it is at the root or its directory has its name, and
-- it has at most as many files and, in sum, bytes as the extension allows.
skill_listing_problem_iff :
    (input : SkillListingInput) → (skill_listing_problem input ≡ none) ↔ IsListed input
unfolding skill_listing_problem
skill_listing_problem_iff input =
    let (to, from) =
      three (not (is_empty input.directory) && not (same (base_name input.directory) input.name))
        (ltb skill_listing_max_files (length input.sizes))
        (ltb skill_listing_max_bytes (total_size 0 input.sizes)) name_directory_mismatch
        too_many_files too_large in
    let sums = total-sum 0 input.sizes in
    (
      λ h.
          let (a, b, c) = to h in
          record {
            named = (named_iff input.directory input.name).0 a;
            few = ground arith;
            small = ground arith;
          },
      λ h.
          let few = h.few in
          let small = h.small in
          from ((named_iff input.directory input.name).1 h.named, ground arith, ground arith),
    )
