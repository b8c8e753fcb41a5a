-- ===== src/Address/Names.antt =====
-- What the names of owners and repositories are made of.
use skillcdn.Common.{
  ℕ, ◌≡◌, refl, ◌≢◌, Bool, true, false, [], ◌∷◌, arith, all, All, All-map, and_iff, ◌<◌,
}
use skillcdn.Text.{Text, slash}
use skillcdn.Text.Compare.{same_iff}
use skillcdn.TextSafety.{code_points, is_surrogate, is_high_surrogate, is_forbidden_code_point}
use skillcdn.TextSafety.Laws.{IsSafePoint, IsSafe-iff}
use skillcdn.GitRef.{is_digit}
use skillcdn.RepoPath.{dot, dot_dot}
use skillcdn.RepoPath.Segments.{IsSegment}
use skillcdn.Address.{
  AddressHost, gh, local_host, is_alphanumeric, is_owner_unit, is_repo_unit, is_local_first,
  matches_name, host_naming_rules, is_valid_repo,
}

-- `[a-z0-9._-]`, in any case.
abbrev pub IsNameUnit : ℕ → Type 0
IsNameUnit c = is_repo_unit c ≡ true

pub all_name_units :
    (p : ℕ → Bool)
    → ((c : ℕ) → p c ≡ true → IsNameUnit c)
    → (s : Text) → all p s ≡ true
    → All IsNameUnit s
all_name_units p f [] h = tt
all_name_units p f (c ∷ s) h = (f c (ground arith), all_name_units p f s (ground arith))

matches-IsNameUnit :
    (first rest : ℕ → Bool) (most : ℕ)
    → ((c : ℕ) → first c ≡ true → IsNameUnit c)
    → ((c : ℕ) → rest c ≡ true → IsNameUnit c)
    → (s : Text) → matches_name first rest most s ≡ true
    → All IsNameUnit s × (s ≢ [])
unfolding matches_name
matches-IsNameUnit first rest most f g [] h = cc
matches-IsNameUnit first rest most f g (c ∷ s) h =
    ((f c (ground arith), all_name_units rest g s (ground arith)), λ e. cc)

alphanumeric_unit : (c : ℕ) → is_alphanumeric c ≡ true → IsNameUnit c
unfolding is_repo_unit
alphanumeric_unit c h = rw h

owner_unit : (c : ℕ) → is_owner_unit c ≡ true → IsNameUnit c
unfolding is_repo_unit is_owner_unit
owner_unit c h = ground arith

local_unit : (c : ℕ) → is_local_first c ≡ true → IsNameUnit c
unfolding is_repo_unit is_local_first
local_unit c h = ground arith

pub owner-IsNameUnit :
    (h : AddressHost) (s : Text)
    → (host_naming_rules h).owner_test s ≡ true
    → All IsNameUnit s × (s ≢ [])
owner-IsNameUnit gh s e = matches-IsNameUnit _ _ 38 alphanumeric_unit owner_unit s e
owner-IsNameUnit local_host s e = matches-IsNameUnit _ _ 99 local_unit (λ c h. h) s e

pub repo-IsNameUnit :
    (h : AddressHost) (s : Text)
    → is_valid_repo (host_naming_rules h) s ≡ true
    → All IsNameUnit s × (s ≢ []) × (s ≢ dot) × (s ≢ dot_dot)
unfolding is_valid_repo
repo-IsNameUnit gh s e =
    let (units, n) = matches-IsNameUnit _ _ 99 (λ c h. h) (λ c h. h) s (ground arith) in
    (units, n, ground (arith, same_iff s dot), ground (arith, same_iff s dot_dot))
repo-IsNameUnit local_host s e =
    let (units, n) = matches-IsNameUnit _ _ 99 local_unit (λ c h. h) s (ground arith) in
    (units, n, ground (arith, same_iff s dot), ground (arith, same_iff s dot_dot))

-- An owner starts with a letter, a digit or a `_`.
owner_first :
    (first rest : ℕ → Bool) (most : ℕ)
    → first b'.' ≡ false
    → (s : Text) → matches_name first rest most s ≡ true
    → (s ≢ dot) × (s ≢ dot_dot)
unfolding matches_name
owner_first first rest most n [] h = cc
owner_first first rest most n (c ∷ s) h = (
  λ e. let q : c ≡ b'.' = ground arith in cc (rw q at first_true, n),
  λ e. let q : c ≡ b'.' = ground arith in cc (rw q at first_true, n),
)
  where
    first_true : first c ≡ true
    first_true = ((and_iff _ _).0 h).0

-- The units of a name are ASCII, and none of those that a path or an address reads.
pub record IsPlainUnit (c : ℕ) : Type 0 where
  pub no_slash : c ≢ slash
  pub no_backslash : c ≢ b'\\'
  pub no_percent : c ≢ b'%'
  pub no_at : c ≢ b'@'
  pub no_colon : c ≢ b':'
  pub small : c < 0x80
  pub safe : IsSafePoint c

pub unit-IsPlainUnit : (c : ℕ) → IsNameUnit c → IsPlainUnit c
unfolding is_repo_unit is_alphanumeric is_digit is_surrogate is_forbidden_code_point
unit-IsPlainUnit c h = record {
  no_slash = ground arith;
  no_backslash = ground arith;
  no_percent = ground arith;
  no_at = ground arith;
  no_colon = ground arith;
  small = ground arith;
  safe = (ground arith, ground arith);
}

code_points_plain : (s : Text) → All IsPlainUnit s → code_points s ≡ s
unfolding code_points
code_points_plain [] h = refl
code_points_plain (c ∷ []) h = refl
code_points_plain (c ∷ d ∷ s) (h, hs) =
    ground (arith, code_points_plain (d ∷ s) hs, low_surrogate c h.small)
  where
    low_surrogate : (c : ℕ) → c < 0x80 → is_high_surrogate c ≡ false
    low_surrogate c h = unfold is_high_surrogate in ground arith

safe_points : (s : Text) → All IsPlainUnit s → All IsSafePoint s
safe_points [] h = tt
safe_points (c ∷ s) (h, hs) = (h.safe, safe_points s hs)

-- A name as one segment of a path.
pub name-IsSegment : (s : Text) → All IsNameUnit s → s ≢ [] → s ≢ dot → s ≢ dot_dot → IsSegment s
name-IsSegment s units n m o =
    let plain = All-map unit-IsPlainUnit s units in
    record {
      not_empty = n;
      not_dot = m;
      not_dot_dot = o;
      no_slash = All-map (λ c p. p.no_slash) s plain;
      no_backslash = All-map (λ c p. p.no_backslash) s plain;
      safe = (IsSafe-iff s).1 (rw (code_points_plain s plain) (safe_points s plain));
    }

pub owner-IsSegment :
    (h : AddressHost) (s : Text) → (host_naming_rules h).owner_test s ≡ true → IsSegment s
unfolding is_alphanumeric is_local_first
owner-IsSegment gh s e =
    let (units, n) = owner-IsNameUnit gh s e in
    let (m, o) = owner_first _ _ 38 refl s e in name-IsSegment s units n m o
owner-IsSegment local_host s e =
    let (units, n) = owner-IsNameUnit local_host s e in
    let (m, o) = owner_first _ _ 99 refl s e in name-IsSegment s units n m o

pub repo-IsSegment :
    (h : AddressHost) (s : Text) → is_valid_repo (host_naming_rules h) s ≡ true → IsSegment s
repo-IsSegment h s e = let (units, n, m, o) = repo-IsNameUnit h s e in name-IsSegment s units n m o
