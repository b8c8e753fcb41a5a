-- ===== src/Address/Canonical.antt =====
-- The addresses in their canonical spelling, and the texts of their refs.
use skillcdn.Common.{
  ℕ, ◌≡◌, refl, ap, ◌≢◌, true, false, [], ◌∷◌, length, arith, All, All-map, Option, none, some,
}
use skillcdn.Text.{Text, slash, join, to_lower}
use skillcdn.Text.Split.{Lacks}
use skillcdn.Result.{ok}
use skillcdn.TextSafety.Laws.{IsSafe}
use skillcdn.RepoPath.{RepoPath}
use skillcdn.RepoPath.Segments.{IsSegment, IsPath, segments, IsRepoPath}
use skillcdn.Percent.Points.{IsUnits}
use skillcdn.GitRef.Laws.{ref_name-IsPath}
use skillcdn.GitRef.{is_hex_digit, is_full_commit_hash, is_valid_ref_name}
use skillcdn.Address.{
  is_repo_unit, is_alphanumeric, Address, AddressHost, AddressRef, commit, name, host_naming_rules,
  is_valid_repo, canonical_name, parse_ref,
}
use skillcdn.Address.Print.{ref_text, mounted_path, ref_tail}
use skillcdn.Address.Names.{
  IsNameUnit, all_name_units, name-IsSegment, repo-IsNameUnit, unit-IsPlainUnit, owner-IsSegment,
}

-- A ref as the parser gives it: a commit by its hash in lower case, or another valid name.
abbrev pub IsRef : AddressRef → Type 0
IsRef (commit hash) = (is_full_commit_hash hash ≡ true) × (to_lower hash ≡ hash)
IsRef (name text) =
    (is_full_commit_hash text ≡ false) × (is_valid_ref_name text ≡ true) × IsUnits text

abbrev pub IsRefOption : Option AddressRef → Type 0
IsRefOption none = Unit
IsRefOption (some ref) = IsRef ref

-- An address in its canonical spelling.
pub record IsCanonical (a : Address) : Type 0 where
  pub owner_valid : (host_naming_rules a.host).owner_test a.owner ≡ true
  pub owner_case : canonical_name (host_naming_rules a.host) a.owner ≡ a.owner
  pub repo_valid : is_valid_repo (host_naming_rules a.host) a.repo ≡ true
  pub repo_case : canonical_name (host_naming_rules a.host) a.repo ≡ a.repo
  pub ref_valid : IsRefOption a.ref
  pub path_valid : IsRepoPath a.path
  pub path_units : IsUnits a.path

-- What an address says behind its repository, before anything is encoded.
abbrev pub plain_suffix : Option AddressRef → RepoPath → Text
plain_suffix none path = mounted_path path
plain_suffix (some ref) path = b'@' ∷ ref_tail (ref_text ref) path (ref_text ref) path

pub parse_ref-ok :
    (ref : AddressRef) → IsRef ref → ref_text ref ≢ [] → parse_ref (ref_text ref) ≡ ok ref
unfolding parse_ref
parse_ref-ok (commit []) h n = absurd (n refl)
parse_ref-ok (commit (c ∷ hash)) (h, k) n = rw (h, k)
parse_ref-ok (name []) h n = absurd (n refl)
parse_ref-ok (name (c ∷ text)) (h, k, u) n = rw (h, k)

pub owner-Lacks-slash :
    (h : AddressHost) (s : Text) → (host_naming_rules h).owner_test s ≡ true → Lacks slash s
owner-Lacks-slash h s e = (owner-IsSegment h s e).no_slash

pub repo-Lacks :
    (h : AddressHost) (s : Text)
    → is_valid_repo (host_naming_rules h) s ≡ true
    → Lacks slash s × Lacks b'@' s
repo-Lacks h s e =
    let units = (repo-IsNameUnit h s e).0 in
    (
      All-map (λ c u. (unit-IsPlainUnit c u).no_slash) s units,
      All-map (λ c u. (unit-IsPlainUnit c u).no_at) s units,
    )

hex_unit : (c : ℕ) → is_hex_digit c ≡ true → IsNameUnit c
unfolding is_hex_digit is_repo_unit is_alphanumeric
hex_unit c h = ground arith

-- A commit hash is one segment, of hexadecimal digits.
hash-IsSegment : (s : Text) → is_full_commit_hash s ≡ true → IsSegment s × All IsNameUnit s
unfolding is_full_commit_hash
hash-IsSegment s h =
    let units = all_name_units is_hex_digit hex_unit s (ground arith) in
    let long : length s ≡ 40 = ground arith in
    (
      name-IsSegment s units (λ e. omega (arith, ap length e)) (λ e. omega (arith, ap length e))
          (λ e. omega (arith, ap length e)),
      units,
    )

-- What holds of the text of a ref.
pub record IsRefText (s : Text) : Type 0 where
  pub not_empty : s ≢ []
  pub path : IsPath s
  pub safe : IsSafe s
  pub no_colon : Lacks b':' s
  pub units : IsUnits s

pub ref-IsRefText : (ref : AddressRef) → IsRef ref → IsRefText (ref_text ref)
unfolding join
ref-IsRefText (commit hash) (h, k) =
    let (segment, units) = hash-IsSegment hash h in
    record {
      not_empty = segment.not_empty;
      path = segments hash [] (segment, tt);
      safe = segment.safe;
      no_colon = All-map (λ c u. (unit-IsPlainUnit c u).no_colon) hash units;
      units = All-map (λ c u. let small = (unit-IsPlainUnit c u).small in omega arith) hash units;
    }
ref-IsRefText (name text) (h, k, u) =
    let (n, path, safe, no_colon) = ref_name-IsPath text k in
    record { not_empty = n; path = path; safe = safe; no_colon = no_colon; units = u }
