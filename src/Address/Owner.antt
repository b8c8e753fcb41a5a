-- ===== src/Address/Owner.antt =====
-- The path of an account's page, written and read back.
use skillcdn.Common.{suc, ◌≤◌, ◌≡◌, refl, true, false, [], ◌∷◌, arith, some, length, ltb}
use skillcdn.Text.{Text, slash, split, same}
use skillcdn.Text.Split.{split_of_Lacks}
use skillcdn.Address.{
  gh, host_naming_rules, canonical_name, matches_name, is_git_host_key, max_address_length,
}
use skillcdn.Address.Print.{parse_owner_parts, parse_owner_path, format_owner_path}
use skillcdn.Address.Canonical.{owner-Lacks-slash}

name-length : (s : Text) → (host_naming_rules gh).owner_test s ≡ true → length s ≤ 39
unfolding matches_name
name-length [] h = omega arith
name-length (c ∷ s) h = ground arith

read_parts :
    (owner : Text)
    → (host_naming_rules gh).owner_test owner ≡ true
    → canonical_name (host_naming_rules gh) owner ≡ owner
    → parse_owner_parts ([] ∷ (b'g' ∷ b'h' ∷ []) ∷ owner ∷ [])
      ≡ some (record { host = gh; owner = owner })
unfolding parse_owner_parts is_git_host_key same
read_parts owner h k = rw (h, k) refl

split_parts :
    (owner : Text)
    → split slash owner ≡ owner ∷ []
    → split slash (slash ∷ b'g' ∷ b'h' ∷ slash ∷ owner) ≡ [] ∷ (b'g' ∷ b'h' ∷ []) ∷ owner ∷ []
unfolding split
split_parts owner h = rw h refl

-- The page of an account whose name is valid and in its canonical spelling is found at the path
-- that formatOwnerPath writes, which is never too long.
pub parse_owner-format :
    (owner : Text)
    → (host_naming_rules gh).owner_test owner ≡ true
    → canonical_name (host_naming_rules gh) owner ≡ owner
    → parse_owner_path (format_owner_path (record { host = gh; owner = owner }))
      ≡ some (record { host = gh; owner = owner })
unfolding parse_owner_path format_owner_path
parse_owner-format owner h k =
    let short = name-length owner h in
    let accepted : ltb max_address_length (suc (suc (suc (suc (length owner))))) ≡ false =
      ground arith in
    rw (accepted, split_parts owner (split_of_Lacks slash owner (owner-Lacks-slash gh owner h)))
      (read_parts owner h k)
